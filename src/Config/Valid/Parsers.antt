-- ===== src/Config/Valid/Parsers.antt =====
-- The parsers of config.c keep the promises of the device and the peer they change.
use wireguard_android_expres.Base.{
  ℕ, zero, suc, ◌+◌, ◌*◌, ◌≤◌, ◌<◌, ◌≡◌, refl, sym, arith, Bool, true, false, not, ◌&&◌, ◌>>=◌,
  ◌||◌, ◌==◌, ltb, if◌then◌else◌, Option, none, some, List, [], ◌∷◌, ◌++◌, Bytes, length, char_at,
  All, All-append, codes, caseless_eq,
}
use wireguard_android_expres.Encoding.{
  Decoded, unset, decoded, key_from_base64, key_from_base64_loop,
}
use wireguard_android_expres.Containers.{Family, WgAllowedIp, WgPeer, WgDevice, zero_key}
use wireguard_android_expres.Host.{
  Host, Resolved, found, eai_noname, eai_fail, eai_nodata, eai_other,
}
use wireguard_android_expres.Config.Number.{strtoul}
use wireguard_android_expres.Config.Fields.{
  first_is_digit, parse_port, parse_ip, parse_fwmark, parse_persistent_keepalive, parse_key,
  is_inet_addr, set_fwmark, set_keepalive,
}
use wireguard_android_expres.Config.AllowedIps.{
  max_cidr, parse_cidr, parse_entry, entry, with_cidr, before_slash, behind_slash, parse_ip_prefix,
  allowedips_loop, parse_allowedips, link,
}
use wireguard_android_expres.Config.Valid.{
  OnSome, either, IsEntry, IsPeer, IsDevice, HasBytePorts, non_empty,
}

-- A base64 text of the right length fills a key, whatever its characters are.
loop-length :
    (s : Bool) (n ret : ℕ) (t : Bytes)
    → length t ≡ n * 4 + 4
    → length (key_from_base64_loop s n ret t).1 ≡ n * 3 + 2
unfolding key_from_base64_loop
loop-length s zero ret (a ∷ b ∷ c ∷ t) e = refl
loop-length s (suc n) ret (a ∷ b ∷ c ∷ d ∷ t) e = omega (arith, loop-length s n _ t (omega arith))
loop-length _ _ _ _ e = absurd (omega arith)

-- What `parse_key` makes of a decoder's result.
abbrev taken : Decoded → Bool × Bytes
taken d = elim d [ decoded true key ↦ (true, key) | _ ↦ (false, zero_key) ]

taken-length : (b : Bool) (key : Bytes) → length key ≡ 32 → length (taken (decoded b key)).1 ≡ 32
taken-length true key e = e
taken-length false key e = refl

-- The key that `parse_key` leaves has 32 bytes.
pub parse_key-length : (h : Host) (value : Bytes) → length (parse_key h value).1 ≡ 32
unfolding parse_key key_from_base64
parse_key-length h value =
    either (λ d. length (taken d).1 ≡ 32)
      (not (length value == 44) || not (char_at value 43 == b'=')) unset _ (λ e. refl)
      (λ e.
        let len : length value ≡ 10 * 4 + 4 = ground arith in
        taken-length _ _ (loop-length h.signed_char 10 0 value len))

-- A number behind its tests is no more than the limit.
pub limited {ℓ} :
    {A : Type ℓ} (P : A → Type 0) (f : ℕ → A) (limit ret : ℕ) (bad : Bool)
    → ((n : ℕ) → n ≤ limit → P (f n))
    → OnSome P (if bad || ltb limit ret then none else some (f ret))
limited P f limit ret bad h =
    either (OnSome P) (bad || ltb limit ret) none (some (f ret)) (λ e. tt)
      (λ e. h ret (let le : ret ≤ limit = ground arith in le))

-- A device over the same peers.
abbrev pub Over : List WgPeer → WgDevice → Type 0
Over peers d = IsDevice d × (d.peers ≡ peers)

-- A peer, and whether the pointer to its last entry is set.
abbrev pub IsLinkedPeer : WgPeer × Bool → Type 0
IsLinkedPeer r = IsPeer r.0 × (r.1 ≡ non_empty r.0.allowedips)

abbrev pub With : Bool → WgPeer → Type 0
With last p = IsLinkedPeer (p, last)

pub parse_fwmark-Over :
    (h : Host) (dev : WgDevice) (value : Bytes)
    → IsDevice dev
    → OnSome (Over dev.peers) (parse_fwmark h dev value)
unfolding parse_fwmark
parse_fwmark-Over h dev value d =
    let base : ℕ =
      if ltb 2 (length value) && char_at value 0 == b'0' && char_at value 1 == b'x'
      then 16
      else 10 in
    let r = strtoul h.ulong_max base value in
    either (OnSome (Over dev.peers)) (caseless_eq value (codes "off")) _ _
      (λ e. ((d.0, omega arith, d.2, d.3), refl))
      (λ e.
        either (OnSome (Over dev.peers)) (not (first_is_digit h value)) _ _ (λ e. tt)
          (λ e.
            limited (Over dev.peers) (set_fwmark dev) 0xffff_ffff r.0 (not (length r.1 == 0))
              (λ n le. ((d.0, le, d.2, d.3), refl))))

pub parse_persistent_keepalive-With :
    (h : Host) (peer : WgPeer) (last : Bool) (value : Bytes)
    → IsLinkedPeer (peer, last)
    → OnSome (With last) (parse_persistent_keepalive h peer value)
unfolding parse_persistent_keepalive
parse_persistent_keepalive-With h peer last value p =
    let r = strtoul h.ulong_max 10 value in
    either (OnSome (With last)) (caseless_eq value (codes "off")) _ _
      (λ e. ((p.0.0, p.0.1, omega arith, p.0.3), p.1))
      (λ e.
        either (OnSome (With last)) (not (first_is_digit h value)) _ _ (λ e. tt)
          (λ e.
            limited (With last) (set_keepalive peer) 65535 r.0 (not (length r.1 == 0))
              (λ n le. ((p.0.0, p.0.1, le, p.0.3), p.1))))

-- The port of an answer, where `getaddrinfo` gives one.
port_of-le : (a b : ℕ) → a < 256 → b < 256 → a * 256 + b ≤ 65535
port_of-le a b h k = omega arith

parse_port_turn :
    (h : Host) (dev : WgDevice) (value : Bytes) (r : Resolved)
    → h.getaddrinfo_port value ≡ r
    → HasBytePorts h
    → IsDevice dev
    → OnSome (Over dev.peers) (parse_port h dev value)
unfolding parse_port
parse_port_turn h dev value (found a) e bytes d =
    rw (e, parse_port)
      (either (OnSome (Over dev.peers)) (length value == 0) _ _ (λ e. tt)
        (λ _.
          either (OnSome (Over dev.peers)) (is_inet_addr a) _ _
            (λ _.
              let b = bytes value a e in
              (
                (d.0, d.1, port_of-le (char_at a.ai_addr 2) (char_at a.ai_addr 3) b.0 b.1, d.3),
                refl,
              ))
            (λ _. tt)))
parse_port_turn h dev value eai_noname e bytes d =
    rw (e, parse_port)
      (either (OnSome (Over dev.peers)) (length value == 0) _ _ (λ _. tt) (λ _. tt))
parse_port_turn h dev value eai_fail e bytes d =
    rw (e, parse_port)
      (either (OnSome (Over dev.peers)) (length value == 0) _ _ (λ _. tt) (λ _. tt))
parse_port_turn h dev value eai_nodata e bytes d =
    rw (e, parse_port)
      (either (OnSome (Over dev.peers)) (length value == 0) _ _ (λ _. tt) (λ _. tt))
parse_port_turn h dev value (eai_other c) e bytes d =
    rw (e, parse_port)
      (either (OnSome (Over dev.peers)) (length value == 0) _ _ (λ _. tt) (λ _. tt))

pub parse_port-Over :
    (h : Host) (dev : WgDevice) (value : Bytes)
    → HasBytePorts h
    → IsDevice dev
    → OnSome (Over dev.peers) (parse_port h dev value)
parse_port-Over h dev value bytes d =
    parse_port_turn h dev value (h.getaddrinfo_port value) refl bytes d

-- The entries of `AllowedIPs`.
parse_cidr-le :
    (h : Host) (family : Family) (mask : Option Bytes)
    → OnSome (λ cidr. cidr ≤ max_cidr family) (parse_cidr h family mask)
unfolding parse_cidr
parse_cidr-le h family none = omega arith
parse_cidr-le h family (some mask) =
    let r = strtoul h.ulong_max 10 mask in
    either (OnSome (λ cidr. cidr ≤ max_cidr family)) (not (first_is_digit h mask)) _ _ (λ e. tt)
      (λ e.
        limited (λ cidr. cidr ≤ max_cidr family) (λ n. n) (max_cidr family) r.0
          (not (length r.1 == 0)) (λ n le. le))

-- A chain of two parsers keeps what the second one promises.
pub OnSome-bind {ℓ κ} :
    {A : Type ℓ} {B : Type κ} (P : A → Type 0) (Q : B → Type 0) (o : Option A) (f : A → Option B)
    → OnSome P o
    → ((a : A) → P a → OnSome Q (f a))
    → OnSome Q (o >>= f)
OnSome-bind P Q none f p h = tt
OnSome-bind P Q (some a) f p h = h a p

pub OnSome-any {ℓ κ} :
    {A : Type ℓ} {B : Type κ} (Q : B → Type 0) (o : Option A) (f : A → Option B)
    → ((a : A) → OnSome Q (f a))
    → OnSome Q (o >>= f)
OnSome-any Q none f h = tt
OnSome-any Q (some a) f h = h a

with_cidr-IsEntry :
    (h : Host) (flags : ℕ) (mask : Option Bytes) (addr : Family × Bytes)
    → OnSome IsEntry (with_cidr h flags mask addr)
with_cidr-IsEntry h flags mask addr =
    OnSome-bind (λ cidr. cidr ≤ max_cidr addr.0) IsEntry (parse_cidr h addr.0 mask)
      (λ cidr. some (entry addr flags cidr)) (parse_cidr-le h addr.0 mask) (λ cidr le. le)

parse_entry-IsEntry :
    (h : Host) (flags : ℕ) (text : Bytes) → OnSome IsEntry (parse_entry h flags text)
unfolding parse_entry
parse_entry-IsEntry h flags text =
    OnSome-any IsEntry (parse_ip h (before_slash text)) (with_cidr h flags (behind_slash text))
      (with_cidr-IsEntry h flags (behind_slash text))

-- The loop of `parse_allowedips` adds entries to a peer whose last entry is known.
pub non_empty-append {ℓ} : {A : Type ℓ} (xs : List A) (a : A) → non_empty (xs ++ (a ∷ [])) ≡ true
non_empty-append [] a = refl
non_empty-append (x ∷ xs) a = refl

pub link-IsEntry :
    (last : Bool) (ips : List WgAllowedIp) (new : WgAllowedIp)
    → All IsEntry ips
    → IsEntry new
    → All IsEntry (link last ips new) × (true ≡ non_empty (link last ips new))
link-IsEntry true ips new h e =
    (All-append IsEntry ips (new ∷ []) h (e, tt), sym (non_empty-append ips new))
link-IsEntry false ips new h e = ((e, tt), refl)

allowedips_loop-IsLinkedPeer :
    (h : Host) (peer : WgPeer) (last : Bool) (pieces : List Bytes)
    → IsLinkedPeer (peer, last)
    → OnSome IsLinkedPeer (allowedips_loop h peer last pieces)
unfolding allowedips_loop
allowedips_loop-IsLinkedPeer h peer last [] p = p
allowedips_loop-IsLinkedPeer h peer last (piece ∷ pieces) p =
    let q = parse_ip_prefix peer.flags piece in
    OnSome-bind IsEntry IsLinkedPeer (parse_entry h q.flags q.mask)
      (λ new.
        allowedips_loop h
          (record peer { flags = q.peer_flags; allowedips = link last peer.allowedips new }) true
          pieces)
      (parse_entry-IsEntry h q.flags q.mask)
      (λ new e.
        let l = link-IsEntry last peer.allowedips new p.0.3 e in
        allowedips_loop-IsLinkedPeer h
          (record peer { flags = q.peer_flags; allowedips = link last peer.allowedips new }) true
          pieces ((p.0.0, p.0.1, p.0.2, l.0), l.1))

pub parse_allowedips-IsLinkedPeer :
    (h : Host) (peer : WgPeer) (last : Bool) (value : Bytes)
    → IsLinkedPeer (peer, last)
    → OnSome IsLinkedPeer (parse_allowedips h peer last value)
unfolding parse_allowedips
parse_allowedips-IsLinkedPeer h peer last value p =
    either (OnSome IsLinkedPeer) (length value == 0) _ _ (λ e. p)
      (λ e. allowedips_loop-IsLinkedPeer h _ last _ p)
