-- ===== src/Config/Incremental.antt =====
-- The prefixes `+` and `-` of `AllowedIPs`, and the flag of the peer that they take back.
use wireguard_android_expres.Base.{
  ℕ, ◌-◌, ◌≡◌, ◌≢◌, refl, sym, ap, ◌∙◌, arith, Bool, true, false, not, ◌&&◌, ◌||◌, ◌==◌, Option,
  none, some, List, [], ◌∷◌, Bytes, length, char_at, Bool-cases, inl, inr, bit_and, bit_or,
}
use wireguard_android_expres.Containers.{
  WgPeer, WgAllowedIp, has_flag, set_flag, clear_flag, wgpeer_replace_allowedips,
}
use wireguard_android_expres.Containers.Flags.{bit, bit-bit_or, bit-bit_and, bit-lt, bit_and-bit}
use wireguard_android_expres.Host.{Host}
use wireguard_android_expres.Config.AllowedIps.{
  parse_ip_prefix, parse_entry, split_all, link, allowedips_loop, parse_allowedips,
}
use wireguard_android_expres.Config.Valid.{OnSome, either}
use wireguard_android_expres.Config.Valid.Parsers.{OnSome-any}

-- Whether `AllowedIPs` replaces what the peer had.
abbrev pub replaces : ℕ → Bool
replaces flags = has_flag flags wgpeer_replace_allowedips

-- Whether an entry has one of the two prefixes, and whether one of a list has.
abbrev pub is_incremental : Bytes → Bool
is_incremental piece = char_at piece 0 == b'-' || char_at piece 0 == b'+'

abbrev pub some_incremental : List Bytes → Bool
some_incremental [] = false
some_incremental (p ∷ ps) = is_incremental p || some_incremental ps

replaces-set_flag : (flags : ℕ) → replaces (set_flag flags wgpeer_replace_allowedips) ≡ true
replaces-set_flag flags =
    let one = bit-bit_or 1 flags 2 in
    let lt = bit-lt 1 flags in
    let b : bit 1 (bit_or flags 2) ≡ 1 = omega (arith, one, lt) in
    let m = bit_and-bit 1 (bit_or flags 2) in
    let e : bit_and (bit_or flags 2) 2 ≡ 2 = omega (arith, m, b) in rw e refl

replaces-clear_flag : (flags : ℕ) → replaces (clear_flag flags wgpeer_replace_allowedips) ≡ false
replaces-clear_flag flags =
    let one = bit-bit_and 1 flags (0xffff_ffff - 2) in
    let b : bit 1 (bit_and flags (0xffff_ffff - 2)) ≡ 0 = omega (arith, one) in
    let m = bit_and-bit 1 (bit_and flags (0xffff_ffff - 2)) in
    let e : bit_and (bit_and flags (0xffff_ffff - 2)) 2 ≡ 0 = omega (arith, m, b) in rw e refl

and-false : (b : Bool) → (b && false) ≡ false
and-false true = refl
and-false false = refl

and-true : (b : Bool) → (b && true) ≡ b
and-true true = refl
and-true false = refl

-- One entry takes the flag back where it has a prefix, and leaves it otherwise.
prefix-replaces :
    (flags : ℕ) (piece : Bytes)
    → replaces (parse_ip_prefix flags piece).peer_flags
      ≡ (replaces flags && not (is_incremental piece))
unfolding parse_ip_prefix
prefix-replaces flags piece = elim (Bool-cases (char_at piece 0 == b'-')) [
  | inl m ↦ rw m (replaces-clear_flag flags ∙ sym (and-false (replaces flags)))
  | inr n ↦ elim (Bool-cases (char_at piece 0 == b'+')) [
    | inl p ↦ rw (n, p) (replaces-clear_flag flags ∙ sym (and-false (replaces flags)))
    | inr q ↦ rw (n, q) (sym (and-true (replaces flags)))
  ]
]

not-or : (a b c : Bool) → ((a && not b) && not c) ≡ (a && not (b || c))
not-or a b c = ground arith

-- What the peer of a result shows.
abbrev Shows : Bool → WgPeer × Bool → Type 0
Shows b r = replaces r.0.flags ≡ b

shown : (a b : Bool) (o : Option (WgPeer × Bool)) → a ≡ b → OnSome (Shows a) o → OnSome (Shows b) o
shown a b none e s = tt
shown a b (some r) e s = s ∙ e

loop-replaces :
    (h : Host) (peer : WgPeer) (last : Bool) (pieces : List Bytes)
    → OnSome
        (Shows (replaces peer.flags && not (some_incremental pieces)))
        (allowedips_loop h peer last pieces)
unfolding allowedips_loop
loop-replaces h peer last [] = sym (and-true (replaces peer.flags))
loop-replaces h peer last (piece ∷ pieces) =
    let q = parse_ip_prefix peer.flags piece in
    let after = replaces peer.flags && not (some_incremental (piece ∷ pieces)) in
    let e : (replaces q.peer_flags && not (some_incremental pieces)) ≡ after =
      ap (λ (t : Bool). t && not (some_incremental pieces)) (prefix-replaces peer.flags piece)
      ∙ not-or (replaces peer.flags) (is_incremental piece) (some_incremental pieces) in
    let next : WgAllowedIp → WgPeer =
      λ new. record peer { flags = q.peer_flags; allowedips = link last peer.allowedips new } in
    OnSome-any (Shows after) (parse_entry h q.flags q.mask)
      (λ new. allowedips_loop h (next new) true pieces)
      (λ new.
        shown (replaces q.peer_flags && not (some_incremental pieces)) after
          (allowedips_loop h (next new) true pieces) e (loop-replaces h (next new) true pieces))

empty_length : (value : Bytes) → (length value == 0) ≡ true → value ≡ []
empty_length [] e = refl
empty_length (x ∷ value) e = absurd (ground arith)

-- The empty list of entries has one entry, which is empty.
empty_value : (value : Bytes) → value ≡ [] → true ≡ not (some_incremental (split_all b',' value))
unfolding split_all
empty_value [] e = refl
empty_value (x ∷ value) e = absurd (cons-ne-nil e)
  where
    cons-ne-nil : (x ∷ value) ≢ []
    cons-ne-nil e = cc

-- A list of `AllowedIPs` that is accepted replaces what the peer had exactly where no entry of it
-- has the prefix `+` or `-`.
pub parse_allowedips-replaces :
    (h : Host) (peer : WgPeer) (last : Bool) (value : Bytes)
    → OnSome
        (λ r. replaces r.0.flags ≡ not (some_incremental (split_all b',' value)))
        (parse_allowedips h peer last value)
unfolding parse_allowedips
parse_allowedips-replaces h peer last value =
    let set = replaces-set_flag peer.flags in
    let peer' : WgPeer = record peer { flags = set_flag peer.flags wgpeer_replace_allowedips } in
    let after = not (some_incremental (split_all b',' value)) in
    either (OnSome (Shows after)) (length value == 0) _ _
      (λ e. set ∙ empty_value value (empty_length value e))
      (λ _.
        shown (replaces peer'.flags && after) after
          (allowedips_loop h peer' last (split_all b',' value)) (ap (λ (t : Bool). t && after) set)
          (loop-replaces h peer' last (split_all b',' value)))
