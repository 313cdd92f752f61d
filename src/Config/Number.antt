-- ===== src/Config/Number.antt =====
-- `strtoul` and `strtoull` of the C library, as config.c and ipc-uapi.h call them.
pub mod Digits
use wireguard_android_expres.Base.{
  ℕ, suc, ◌+◌, ◌-◌, ◌*◌, ◌%◌, Bool, true, false, ◌&&◌, ◌==◌, leb, ltb, if◌then◌else◌, Option, none,
  some, [], ◌∷◌, Bytes, to_lower, char_at, drop,
}
use wireguard_android_expres.Ctype.Laws.{is_space, is_digit}

-- The value of a digit in a base up to 16.
unfoldable pub digit_value : ℕ → ℕ → Option ℕ
digit_value base c =
    let v =
      if is_digit c
      then c - b'0'
      else if leb b'a' (to_lower c) && leb (to_lower c) b'f'
      then to_lower c - b'a' + 10
      else 99 in
    if ltb v base then some v else none

-- The longest run of digits: its value onto `acc`, and the text behind it.
unfoldable pub scan_digits : ℕ → ℕ → Bytes → ℕ × Bytes
scan_digits base acc [] = (acc, [])
scan_digits base acc (c ∷ cs) = elim (digit_value base c) [
  | some v ↦ scan_digits base (acc * base + v) cs
  | none ↦ (acc, c ∷ cs)
]

unfoldable pub skip_spaces : Bytes → Bytes
skip_spaces [] = []
skip_spaces (c ∷ cs) = let rest = skip_spaces cs in if is_space c then rest else c ∷ cs

unfoldable pub begins_digit : ℕ → Bytes → Bool
begins_digit base [] = false
begins_digit base (c ∷ cs) = elim (digit_value base c) [ some v ↦ true | none ↦ false ]

-- The optional sign: whether it is `-`, and the text behind it.
unfoldable pub take_sign : Bytes → Bool × Bytes
take_sign [] = (false, [])
take_sign (c ∷ cs) =
    if c == b'-' then (true, cs) else if c == b'+' then (false, cs) else (false, c ∷ cs)

-- The optional `0x` of base 16, where a digit follows it.
unfoldable pub skip_prefix : ℕ → Bytes → Bytes
skip_prefix base s =
    if base == 16
      && char_at s 0 == b'0'
      && to_lower (char_at s 1) == b'x'
      && begins_digit 16 (drop 2 s)
    then drop 2 s
    else s

-- The value, held at `max` where it is too large, and the unread text; all of it without a digit.
unfoldable pub strtoul : ℕ → ℕ → Bytes → ℕ × Bytes
strtoul max base s =
    let (negative, t) = take_sign (skip_spaces s) in
    let digits = skip_prefix base t in
    let (n, rest) = scan_digits base 0 digits in
    if begins_digit base digits
    then ((if ltb max n then max else if negative then (suc max - n) % suc max else n), rest)
    else (0, s)
