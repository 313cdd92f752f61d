-- ===== src/Uapi/Valid.antt =====
-- What `userspace_get_device` promises of the device that it reads, whatever the reply says.
pub mod Lines
pub mod Loop
use wireguard_android_expres.Base.{
  ℕ, zero, suc, ◌+◌, ◌*◌, ◌-◌, ◌^◌, ◌≤◌, ◌≡◌, refl, sym, ap, ◌∙◌, arith, Bool, true, false, not,
  ◌==◌, ◌||◌, if◌then◌else◌, ltb, Option, none, some, List, [], ◌∷◌, ◌++◌, Bytes, length, All,
  bytes_eq, u8, get_last_or, update_last,
}
use wireguard_android_expres.Encoding.{
  Decoded, unset, decoded, key_from_hex, key_from_hex_loop, none_set,
}
use wireguard_android_expres.Containers.{Family, WgPeer, WgDevice, WgAllowedIp, new_peer}
use wireguard_android_expres.Host.{Host}
use wireguard_android_expres.Config.Number.{strtoul}
use wireguard_android_expres.Config.Fields.{first_is_digit}
use wireguard_android_expres.Config.AllowedIps.{max_cidr, link}
use wireguard_android_expres.Config.Valid.{OnSome, either, IsEntry, IsPeer, IsDevice, non_empty}
use wireguard_android_expres.Config.Valid.Parsers.{limited, Over, IsLinkedPeer, link-IsEntry}
use wireguard_android_expres.Config.Valid.Lines.{
  last_update, non_empty-update, All-update, All-last, grown_peers,
}
use wireguard_android_expres.Uapi.Get.{
  GetState, Turn, next, broken, goto_err, get_peer, put_peer, put_dev, num, with_num, with_key,
  put_allowed_ip,
}

-- The variables of the loop: a device that keeps its promises, and pointers that are set exactly
-- where there is something to point to.
abbrev pub IsGet : GetState → Type 0
IsGet st =
    IsDevice st.dev
    × (st.has_peer ≡ non_empty st.dev.peers)
    × (st.has_allowedip ≡ non_empty (get_peer st).allowedips)

abbrev pub OnNext : (GetState → Type 0) → Turn → Type 0
OnNext P (next st) = P st
OnNext P _ = Unit

-- Sixty-four characters fill a key, whatever they are.
hex_loop-length :
    (n ret : ℕ) (t : Bytes) → length t ≡ n * 2 → length (key_from_hex_loop ret t).1 ≡ n
unfolding key_from_hex_loop
hex_loop-length zero ret [] e = refl
hex_loop-length (suc n) ret (c ∷ d ∷ t) e = omega (arith, hex_loop-length n _ t (omega arith))
hex_loop-length _ _ _ e = absurd (omega arith)

with_decoded :
    (P : GetState → Type 0) (b : Bool) (key : Bytes) (f : Bytes → Turn)
    → length key ≡ 32
    → ((k : Bytes) → length k ≡ 32 → OnNext P (f k))
    → OnNext P (with_key (decoded b key) f)
with_decoded P true key f e h = h key e
with_decoded P false key f e h = tt

-- A key that a line is read for has 32 bytes.
pub with_key_lem :
    (P : GetState → Type 0) (value : Bytes) (f : Bytes → Turn)
    → ((k : Bytes) → length k ≡ 32 → OnNext P (f k))
    → OnNext P (with_key (key_from_hex value) f)
unfolding key_from_hex
with_key_lem P value f h =
    either (λ d. OnNext P (with_key d f)) (not (length value == 64)) unset _ (λ _. tt)
      (λ e.
        let len : length value ≡ 32 * 2 = ground arith in
        let r = key_from_hex_loop 0 value in
        with_decoded P (none_set r.0) r.1 f (hex_loop-length 32 0 value len) h)

num-le : (h : Host) (value : Bytes) (max : ℕ) → OnSome (λ n. n ≤ max) (num h value max)
unfolding num
num-le h value max =
    let r = strtoul (2 ^ 64 - 1) 10 value in
    either (OnSome (λ n. n ≤ max)) (not (first_is_digit h value)) _ _ (λ _. tt)
      (λ _. limited (λ n. n ≤ max) (λ n. n) max r.0 (not (length r.1 == 0)) (λ n le. le))

on_num :
    (P : GetState → Type 0) (max : ℕ) (r : Option ℕ) (f : ℕ → Turn)
    → OnSome (λ n. n ≤ max) r
    → ((n : ℕ) → n ≤ max → OnNext P (f n))
    → OnNext P (elim r [ none ↦ broken | some n ↦ f n ])
on_num P max none f le h = tt
on_num P max (some n) f le h = h n le

-- A number that a line is read for is within its limit.
pub with_num_lem :
    (P : GetState → Type 0) (h : Host) (value : Bytes) (max : ℕ) (f : ℕ → Turn)
    → ((n : ℕ) → n ≤ max → OnNext P (f n))
    → OnNext P (with_num h value max f)
with_num_lem P h value max f k = on_num P max (num h value max) f (num-le h value max) k

pub put_last-IsGet :
    (st : GetState) (p : WgPeer) (last : Bool)
    → IsGet st
    → st.has_peer ≡ true
    → IsLinkedPeer (p, last)
    → IsGet (record st {
      dev = record (st.dev) { peers = update_last (λ _. p) st.dev.peers };
      has_allowedip = last;
    })
put_last-IsGet st p last v e q =
    let peers = st.dev.peers in
    (
      (v.0.0, v.0.1, v.0.2, All-update IsPeer p peers v.0.3 q.0),
      v.1 ∙ sym (non_empty-update (λ _. p) peers),
      q.1
          ∙ ap (λ (t : WgPeer). non_empty t.allowedips)
              (sym (last_update new_peer p peers (sym v.1 ∙ e))),
    )

pub get_peer-IsLinkedPeer :
    (st : GetState) → IsGet st → IsLinkedPeer (get_peer st, st.has_allowedip)
get_peer-IsLinkedPeer st v =
    (All-last IsPeer new_peer st.dev.peers v.0.3 (refl, refl, omega arith, tt), v.2)

pub put_allowed_ip-IsGet :
    (st : GetState) (cidr : ℕ) (end : Bytes) (addr : Option (Family × Bytes))
    → IsGet st
    → st.has_peer ≡ true
    → OnNext IsGet (put_allowed_ip st cidr end addr)
unfolding put_allowed_ip
put_allowed_ip-IsGet st cidr end none v e = tt
put_allowed_ip-IsGet st cidr end (some (family, ip)) v e =
    let peer = get_peer st in
    let linked = get_peer-IsLinkedPeer st v in
    let new : WgAllowedIp = record { family = family; ip = ip; cidr = cidr; flags = 0 } in
    either (OnNext IsGet) (not (length end == 0) || ltb (max_cidr family) cidr) _ _ (λ _. tt)
      (λ c.
        let le : cidr ≤ max_cidr family = ground arith in
        let l = link-IsEntry st.has_allowedip peer.allowedips new linked.0.3 le in
        put_last-IsGet st (record peer { allowedips = link st.has_allowedip peer.allowedips new })
          true v e ((linked.0.0, linked.0.1, linked.0.2, l.0), l.1))
