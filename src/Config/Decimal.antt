-- ===== src/Config/Decimal.antt =====
-- The parsers of numbers in config.c against the plain reading of a text as digits.
use wireguard_android_expres.Base.{
  ℕ, ◌<◌, ◌≡◌, refl, sym, ◌∙◌, arith, Bool, true, false, not, ◌==◌, ◌&&◌, ◌||◌, leb, ltb,
  if◌then◌else◌, Option, some, none, [], ◌∷◌, Bytes, length, codes, caseless_eq, Bool-cases, inl,
  inr, All,
}
use wireguard_android_expres.Encoding.Hex.{IsByte}
use wireguard_android_expres.Ctype.Laws.{is_digit, char_is_digit-is_digit}
use wireguard_android_expres.Containers.{Family, af_inet, af_inet6, af_unspec, WgPeer}
use wireguard_android_expres.Host.{Host}
use wireguard_android_expres.Config.Number.{scan_digits, strtoul}
use wireguard_android_expres.Config.Number.Digits.{
  all_digits, false-ne-true, number, scan_digits_lem, strtoul_digit, all_digits-none,
  is_digit_of-none, digit_value-other,
}
use wireguard_android_expres.Config.Fields.{
  first_is_digit, parse_persistent_keepalive, set_keepalive,
}
use wireguard_android_expres.Config.AllowedIps.{parse_cidr, max_cidr}

-- The number that a text writes in decimal: digits only, one at least, and no more than `limit`.
unfoldable pub decimal_up_to : ℕ → Bytes → Option ℕ
decimal_up_to limit [] = none
decimal_up_to limit (c ∷ cs) =
    if all_digits 10 (c ∷ cs) && leb (number 10 0 (c ∷ cs)) limit
    then some (number 10 0 (c ∷ cs))
    else none

-- The code's way to the same number: a digit first, `strtoul`, no text left, the limit.
abbrev read_number : Host → ℕ → Bytes → Option ℕ
read_number h limit value =
    if not (first_is_digit h value)
    then none
    else let (ret, end) = strtoul h.ulong_max 10 value in
      if not (length end == 0) || ltb limit ret then none else some ret

-- What is left of `strtoul` when it clamps a scan.
pub clamped :
    (max limit n m : ℕ) (whole : Bool)
    → limit < max
    → (whole ≡ true → n ≡ m)
    → (if not whole || ltb limit (if ltb max n then max else n)
        then none
        else some (if ltb max n then max else n))
      ≡ (if whole && leb m limit then some m else none)
clamped max limit n m false lt e = refl
clamped max limit n m true lt e = ground arith

-- A text of digits begins with one.
pub is_digit-all_digits : (c : ℕ) (cs : Bytes) → all_digits 10 (c ∷ cs) ≡ true → is_digit c ≡ true
is_digit-all_digits c cs a = elim (Bool-cases (is_digit c)) [
  | inl d ↦ d
  | inr d ↦ absurd (
      false-ne-true
        (sym (all_digits-none 10 c cs (is_digit_of-none 10 c (digit_value-other c d))) ∙ a))
]

read_number_digit :
    (h : Host) (limit c : ℕ) (cs : Bytes)
    → limit < h.ulong_max
    → is_digit c ≡ true
    → c < 256
    → read_number h limit (c ∷ cs) ≡ decimal_up_to limit (c ∷ cs)
unfolding decimal_up_to
read_number_digit h limit c cs lt d b =
    let s = scan_digits_lem 10 0 (c ∷ cs) in
    rw (char_is_digit-is_digit h.signed_char c b, d, strtoul_digit h.ulong_max c cs d, s.0)
      (clamped h.ulong_max limit (scan_digits 10 0 (c ∷ cs)).0 (number 10 0 (c ∷ cs))
        (all_digits 10 (c ∷ cs)) lt s.1)

read_number_other :
    (h : Host) (limit c : ℕ) (cs : Bytes)
    → is_digit c ≡ false
    → c < 256
    → read_number h limit (c ∷ cs) ≡ decimal_up_to limit (c ∷ cs)
unfolding decimal_up_to
read_number_other h limit c cs d b =
    rw
      (
        char_is_digit-is_digit h.signed_char c b,
        d,
        all_digits-none 10 c cs (is_digit_of-none 10 c (digit_value-other c d)),
      )
      refl

read_number_nil : (h : Host) (limit : ℕ) → read_number h limit [] ≡ decimal_up_to limit []
unfolding decimal_up_to
read_number_nil h limit = rw (char_is_digit-is_digit h.signed_char 0 (omega arith)) refl

pub read_number_lem :
    (h : Host) (limit : ℕ) (value : Bytes)
    → limit < h.ulong_max
    → All IsByte value
    → read_number h limit value ≡ decimal_up_to limit value
read_number_lem h limit [] lt b = read_number_nil h limit
read_number_lem h limit (c ∷ cs) lt b = elim (Bool-cases (is_digit c)) [
  | inl d ↦ read_number_digit h limit c cs lt d b.0
  | inr d ↦ read_number_other h limit c cs d b.0
]

-- `parse_persistent_keepalive` on a text of bytes, where an `unsigned long` holds more than 65535:
-- `off` in any case stores 0, a decimal number of digits only and up to 65535 stores that number,
-- and every other text is refused.
pub parse_persistent_keepalive_lem :
    (h : Host) (peer : WgPeer) (value : Bytes)
    → 65535 < h.ulong_max
    → All IsByte value
    → parse_persistent_keepalive h peer value ≡ (
        if caseless_eq value (codes "off")
        then some (set_keepalive peer 0)
        else elim (decimal_up_to 65535 value) [
          | none ↦ none
          | some interval ↦ some (set_keepalive peer interval)
        ])
unfolding parse_persistent_keepalive
parse_persistent_keepalive_lem h peer value lt b =
    let r = sym (read_number_lem h 65535 value lt b) in rw r (ground arith)

max_cidr-lt : (family : Family) (m : ℕ) → 128 < m → max_cidr family < m
max_cidr-lt af_inet m lt = omega arith
max_cidr-lt af_inet6 m lt = omega arith
max_cidr-lt af_unspec m lt = omega arith

-- `parse_cidr` behind a slash, where an `unsigned long` holds more than 128: a decimal number of
-- digits only, up to the address length of the family, and nothing else.
pub parse_cidr_lem :
    (h : Host) (family : Family) (mask : Bytes)
    → 128 < h.ulong_max
    → All IsByte mask
    → parse_cidr h family (some mask) ≡ decimal_up_to (max_cidr family) mask
unfolding parse_cidr
parse_cidr_lem h family mask lt b =
    read_number_lem h (max_cidr family) mask (max_cidr-lt family h.ulong_max lt) b
