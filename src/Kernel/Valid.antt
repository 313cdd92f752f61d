-- ===== src/Kernel/Valid.antt =====
-- What kernel_get_device promises of the device that it gives.
use wireguard_android_expres.Base.{
  ℕ, ◌≤◌, ◌<◌, ◌≡◌, ◌^◌, refl, arith, Bool, true, false, ◌==◌, if◌then◌else◌, Option, none, some,
  List, [], ◌∷◌, ◌++◌, Bytes, length, All, All-append, bytes_eq, Bool-cases, inl, inr,
}
use wireguard_android_expres.Containers.{
  WgAllowedIp, WgPeer, WgDevice, has_flag, new_device, wgpeer_has_public_key,
}
use wireguard_android_expres.Config.Valid.{OnSome, either, non_empty}
use wireguard_android_expres.Kernel.Get.{
  Attr, Reader, Cb, cb_error, cb_stop, cb_ok, go_on, mnl_attr_parse, is_entry, check_entry,
  link_peer, check_peer,
}
use wireguard_android_expres.Kernel.Coalesce.{
  joined_ips, with_ips, cons_some, join_or, coalesce_loop, coalesce_peers,
}
use wireguard_android_expres.Kernel.Device.{
  Retrieved, returned, crashed, still_trying, coalesced, retry, read_end, error_or, eintr, einval,
}

-- What a reader is taken to do: bytes hold a number that fits them.
abbrev pub IsReader : Reader → Type 0
IsReader r = (bytes : Bytes) → r.number bytes < 256 ^ length bytes

abbrev pub IsKernelPeer : WgPeer → Type 0
IsKernelPeer p =
    (length p.public_key ≡ 32)
    × (length p.preshared_key ≡ 32)
    × (p.persistent_keepalive_interval ≤ 65535)
    × All (λ a. a.cidr ≤ 255) p.allowedips

abbrev pub IsKernelDevice : WgDevice → Type 0
IsKernelDevice d =
    (length d.private_key ≡ 32)
    × (d.fwmark ≤ 0xffff_ffff)
    × (d.listen_port ≤ 65535)
    × All (λ p. IsKernelPeer p × (has_flag p.flags wgpeer_has_public_key ≡ true)) d.peers

-- A callback's state, and that it does not stop without an error.
abbrev pub IsGo : Cb → Type 0
IsGo cb_stop = ⊥
IsGo cb_ok = Unit
IsGo cb_error = Unit

abbrev pub Runs {ℓ} : {S : Type ℓ} → (S → Type 0) → Cb × S → Type 0
Runs P (c, st) = IsGo c × P st

go_on-Runs :
    {S : Type 0} (P : S → Type 0) (x : Cb × S) (next : S → Cb × S)
    → Runs P x
    → ((st : S) → P st → Runs P (next st))
    → Runs P (go_on x next)
go_on-Runs P (cb_error, st) next v h = v
go_on-Runs P (cb_stop, st) next v h = v
go_on-Runs P (cb_ok, st) next v h = h st v.1

pub parse-Runs :
    {S : Type 0} (P : S → Type 0) (cb : Attr → S → Cb × S) (attrs : List Attr) (st : S)
    → ((a : Attr) (s : S) → P s → Runs P (cb a s))
    → P st
    → Runs P (mnl_attr_parse cb attrs st)
unfolding mnl_attr_parse
parse-Runs P cb [] st h v = (tt, v)
parse-Runs P cb (a ∷ attrs) st h v =
    go_on-Runs P (cb a st) (λ s. mnl_attr_parse cb attrs s) (h a st v)
      (λ s w. parse-Runs P cb attrs s h w)

-- A device that is good unless a callback reports an error.
abbrev pub Good : Cb × WgDevice → Type 0
Good (cb_error, d) = Unit
Good (cb_stop, d) = IsKernelDevice d
Good (cb_ok, d) = IsKernelDevice d

pub go_on-Good :
    (x : Cb × WgDevice) (next : WgDevice → Cb × WgDevice)
    → Good x
    → ((d : WgDevice) → IsKernelDevice d → Good (next d))
    → Good (go_on x next)
go_on-Good (cb_error, d) next v h = v
go_on-Good (cb_stop, d) next v h = v
go_on-Good (cb_ok, d) next v h = h d v

pub parse-Good :
    (cb : Attr → WgDevice → Cb × WgDevice) (attrs : List Attr) (d : WgDevice)
    → ((a : Attr) (s : WgDevice) → IsKernelDevice s → Good (cb a s))
    → IsKernelDevice d
    → Good (mnl_attr_parse cb attrs d)
unfolding mnl_attr_parse
parse-Good cb [] d h v = v
parse-Good cb (a ∷ attrs) d h v =
    go_on-Good (cb a d) (λ s. mnl_attr_parse cb attrs s) (h a d v)
      (λ s w. parse-Good cb attrs s h w)

pub check_entry-IsGo : (x : Cb × WgAllowedIp) → IsGo (x.0) → IsGo (check_entry x)
check_entry-IsGo (cb_stop, a) v = v
check_entry-IsGo (cb_error, a) v = either IsGo (is_entry a.family a.cidr) _ _ (λ _. tt) (λ _. tt)
check_entry-IsGo (cb_ok, a) v = either IsGo (is_entry a.family a.cidr) _ _ (λ _. tt) (λ _. tt)

abbrev HasPublicKey : WgPeer → Type 0
HasPublicKey p = has_flag p.flags wgpeer_has_public_key ≡ true

link-IsKernelDevice :
    (p : WgPeer) (d : WgDevice)
    → IsKernelPeer p
    → HasPublicKey p
    → IsKernelDevice d
    → IsKernelDevice (link_peer p d)
link-IsKernelDevice p d w e v = (
  v.0,
  v.1,
  v.2,
  All-append (λ q. IsKernelPeer q × HasPublicKey q) d.peers (p ∷ []) v.3 ((w, e), tt),
)

check-Good :
    (p : WgPeer) (d : WgDevice)
    → IsKernelPeer p
    → IsKernelDevice d
    → Good (if has_flag p.flags wgpeer_has_public_key then cb_ok else cb_error, link_peer p d)
check-Good p d w v = elim (Bool-cases (has_flag p.flags wgpeer_has_public_key)) [
  | inl e ↦ simp e (link-IsKernelDevice p d w e v)
  | inr e ↦ simp e tt
]

pub check_peer-Good :
    (x : Cb × WgPeer) (d : WgDevice)
    → Runs IsKernelPeer x
    → IsKernelDevice d
    → Good (check_peer x, link_peer (x.1) d)
check_peer-Good (cb_stop, p) d w v = absurd w.0
check_peer-Good (cb_error, p) d w v = check-Good p d w.1 v
check_peer-Good (cb_ok, p) d w v = check-Good p d w.1 v

-- The loop of coalesce_peers keeps what each peer has.
abbrev AllGot : Option (List WgPeer) → Type 0
AllGot ps = OnSome (All (λ p. IsKernelPeer p × HasPublicKey p)) ps

cons_some-AllGot :
    (p : WgPeer) (ps : Option (List WgPeer))
    → IsKernelPeer p × HasPublicKey p
    → AllGot ps
    → AllGot (cons_some p ps)
cons_some-AllGot p none v w = tt
cons_some-AllGot p (some ps) v w = (v, w)

join_or-AllGot :
    (has_last : Bool) (xs ys : List WgAllowedIp) (next : List WgAllowedIp → Option (List WgPeer))
    → All (λ a. a.cidr ≤ 255) xs
    → All (λ a. a.cidr ≤ 255) ys
    → ((ips : List WgAllowedIp) → All (λ a. a.cidr ≤ 255) ips → AllGot (next ips))
    → AllGot (join_or (joined_ips has_last xs ys) next)
join_or-AllGot has_last [] ys next v w h = h ys w
join_or-AllGot true (x ∷ xs) ys next v w h =
    h ((x ∷ xs) ++ ys) (All-append (λ a. a.cidr ≤ 255) (x ∷ xs) ys v w)
join_or-AllGot false (x ∷ xs) ys next v w h = tt

loop-AllGot :
    (has_last : Bool) (p : WgPeer) (ps : List WgPeer)
    → IsKernelPeer p × HasPublicKey p
    → All (λ q. IsKernelPeer q × HasPublicKey q) ps
    → AllGot (coalesce_loop has_last p ps)
unfolding coalesce_loop
loop-AllGot has_last p [] v w = (v, tt)
loop-AllGot has_last p (q ∷ qs) v w =
    either AllGot (bytes_eq p.public_key q.public_key) _ _
      (λ _.
        join_or-AllGot has_last p.allowedips q.allowedips
          (λ ips. coalesce_loop (non_empty q.allowedips) (with_ips p ips) qs) v.0.3 w.0.0.3
          (λ ips a.
            loop-AllGot (non_empty q.allowedips) (with_ips p ips) qs ((v.0.0, v.0.1, v.0.2, a), v.1)
              w.1))
      (λ _.
        cons_some-AllGot p (coalesce_loop (non_empty q.allowedips) q qs) v
          (loop-AllGot (non_empty q.allowedips) q qs w.0 w.1))

coalesce-AllGot :
    (ps : List WgPeer) → All (λ q. IsKernelPeer q × HasPublicKey q) ps → AllGot (coalesce_peers ps)
unfolding coalesce_peers
coalesce-AllGot [] v = tt
coalesce-AllGot (p ∷ ps) v = loop-AllGot (non_empty p.allowedips) p ps v.0 v.1

abbrev pub OnRetrieved : (WgDevice → Type 0) → Retrieved → Type 0
OnRetrieved P (returned e none) = Unit
OnRetrieved P (returned e (some d)) = P d
OnRetrieved P crashed = Unit
OnRetrieved P still_trying = Unit

coalesced-OnRetrieved :
    (d : WgDevice) (ps : Option (List WgPeer))
    → IsKernelDevice d
    → AllGot ps
    → OnRetrieved IsKernelDevice (coalesced d ps)
coalesced-OnRetrieved d none v w = tt
coalesced-OnRetrieved d (some ps) v w = (v.0, v.1, v.2, w)

pub retry-OnRetrieved :
    (e : ℕ) (again : Retrieved)
    → OnRetrieved IsKernelDevice again
    → OnRetrieved IsKernelDevice (retry e again)
retry-OnRetrieved e again v =
    either (OnRetrieved IsKernelDevice) (e == eintr) _ _ (λ _. v) (λ _. tt)

pub read_end-OnRetrieved :
    (errno : ℕ) (x : Cb × WgDevice) (again : Retrieved)
    → Good x
    → OnRetrieved IsKernelDevice again
    → OnRetrieved IsKernelDevice (read_end errno x again)
read_end-OnRetrieved errno (cb_error, d) again v w =
    retry-OnRetrieved (error_or errno einval) again w
read_end-OnRetrieved errno (cb_stop, d) again v w =
    coalesced-OnRetrieved d (coalesce_peers d.peers) v (coalesce-AllGot d.peers v.3)
read_end-OnRetrieved errno (cb_ok, d) again v w =
    coalesced-OnRetrieved d (coalesce_peers d.peers) v (coalesce-AllGot d.peers v.3)

pub new-IsKernelDevice : IsKernelDevice new_device
new-IsKernelDevice = (refl, omega arith, omega arith, tt)
