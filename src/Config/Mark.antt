-- ===== src/Config/Mark.antt =====
-- `parse_fwmark` of config.c against the plain reading of a mark, in hexadecimal or decimal.
use wireguard_android_expres.Base.{
  ℕ, ◌<◌, ◌≤◌, ◌≡◌, refl, ap₂, subst, sym, arith, Bool, true, false, not, ◌==◌, ◌&&◌, ◌||◌, leb,
  ltb, if◌then◌else◌, Option, some, none, [], ◌∷◌, Bytes, length, codes, char_at, drop, to_lower,
  caseless_eq, Bool-cases, inl, inr, All,
}
use wireguard_android_expres.Encoding.Hex.{IsByte}
use wireguard_android_expres.Ctype.Laws.{is_digit, char_is_digit-is_digit}
use wireguard_android_expres.Containers.{WgDevice}
use wireguard_android_expres.Host.{Host}
use wireguard_android_expres.Config.Number.{
  scan_digits, strtoul, skip_spaces, skip_prefix, begins_digit, digit_value,
}
use wireguard_android_expres.Config.Number.Digits.{
  all_digits, false-ne-true, is_digit_of, skip_spaces_digit, take_sign_digit,
  begins_digit-is_digit_of, number, scan_digits_lem, strtoul_digit, all_digits-none,
}
use wireguard_android_expres.Config.Fields.{first_is_digit, parse_fwmark, set_fwmark}
use wireguard_android_expres.Config.Decimal.{
  decimal_up_to, clamped, read_number_lem, is_digit-all_digits,
}

-- Whether the text is longer than `0x` and begins so.
abbrev pub has_0x : Bytes → Bool
has_0x value = ltb 2 (length value) && char_at value 0 == b'0' && char_at value 1 == b'x'

-- The number that a mark writes, in hexadecimal behind `0x` and in decimal otherwise.
unfoldable pub mark_up_to : ℕ → Bytes → Option ℕ
mark_up_to limit value =
    if has_0x value
    then (if all_digits 16 (drop 2 value) && leb (number 16 0 (drop 2 value)) limit
        then some (number 16 0 (drop 2 value))
        else none)
    else decimal_up_to limit value

skip_spaces-zero : (cs : Bytes) → skip_spaces (b'0' ∷ cs) ≡ b'0' ∷ cs
skip_spaces-zero cs = skip_spaces_digit b'0' cs refl

skip_prefix_hex :
    (d : ℕ) (ds : Bytes)
    → skip_prefix 16 (b'0' ∷ b'x' ∷ d ∷ ds)
      ≡ (if is_digit_of 16 d then d ∷ ds else b'0' ∷ b'x' ∷ d ∷ ds)
unfolding skip_prefix begins_digit is_digit_of
skip_prefix_hex d ds = refl

-- Behind `0x`, `strtoul` in base 16 reads the digits; without one it stops before the `x`.
strtoul_hex :
    (max d : ℕ) (ds : Bytes)
    → is_digit_of 16 d ≡ true
    → strtoul max 16 (b'0' ∷ b'x' ∷ d ∷ ds) ≡ (
      (if ltb max (scan_digits 16 0 (d ∷ ds)).0 then max else (scan_digits 16 0 (d ∷ ds)).0),
      (scan_digits 16 0 (d ∷ ds)).1,
    )
unfolding strtoul
strtoul_hex max d ds e =
    let b : begins_digit 16 (d ∷ ds) ≡ true = rw begins_digit-is_digit_of e in
    rw
      (
        skip_spaces-zero (b'x' ∷ d ∷ ds),
        take_sign_digit b'0' (b'x' ∷ d ∷ ds) refl,
        skip_prefix_hex d ds,
        e,
        b,
      )
      refl

scan_digits_0x : (t : Bytes) → scan_digits 16 0 (b'0' ∷ b'x' ∷ t) ≡ (0, b'x' ∷ t)
unfolding scan_digits digit_value
scan_digits_0x t = refl

begins_digit-zero : (t : Bytes) → begins_digit 16 (b'0' ∷ t) ≡ true
unfolding begins_digit digit_value
begins_digit-zero t = refl

strtoul_no_hex :
    (max d : ℕ) (ds : Bytes)
    → is_digit_of 16 d ≡ false
    → strtoul max 16 (b'0' ∷ b'x' ∷ d ∷ ds) ≡ (0, b'x' ∷ d ∷ ds)
unfolding strtoul
strtoul_no_hex max d ds e =
    rw
      (
        skip_spaces-zero (b'x' ∷ d ∷ ds),
        take_sign_digit b'0' (b'x' ∷ d ∷ ds) refl,
        skip_prefix_hex d ds,
        e,
        scan_digits_0x (d ∷ ds),
        begins_digit-zero (b'x' ∷ d ∷ ds),
      )
      (ground arith)

-- What `strtoul` and the tests behind it leave of a text behind `0x`.
read_hex :
    (max limit d : ℕ) (ds : Bytes)
    → limit < max
    → (let (ret, end) = strtoul max 16 (b'0' ∷ b'x' ∷ d ∷ ds) in
        if not (length end == 0) || ltb limit ret then none else some ret)
      ≡ (if all_digits 16 (d ∷ ds) && leb (number 16 0 (d ∷ ds)) limit
          then some (number 16 0 (d ∷ ds))
          else none)
read_hex max limit d ds lt = elim (Bool-cases (is_digit_of 16 d)) [
  | inl e ↦
      let s = scan_digits_lem 16 0 (d ∷ ds) in
      rw (strtoul_hex max d ds e, s.0)
        (clamped max limit (scan_digits 16 0 (d ∷ ds)).0 (number 16 0 (d ∷ ds))
          (all_digits 16 (d ∷ ds)) lt s.1)
  | inr e ↦ rw (strtoul_no_hex max d ds e, all_digits-none 16 d ds e) (ground arith)
]

-- The number that the text of a mark gives in the code, behind the test of its first character.
abbrev read_mark : Host → ℕ → Bytes → Option ℕ
read_mark h limit value =
    if not (first_is_digit h value)
    then none
    else let (ret, end) = strtoul h.ulong_max (if has_0x value then 16 else 10) value in
      if not (length end == 0) || ltb limit ret then none else some ret

has_0x_eq :
    (c x d : ℕ) (ds : Bytes)
    → has_0x (c ∷ x ∷ d ∷ ds) ≡ true
    → (b'0' ∷ b'x' ∷ d ∷ ds) ≡ (c ∷ x ∷ d ∷ ds)
has_0x_eq c x d ds e =
    let c0 : b'0' ≡ c = ground arith in
    let x0 : b'x' ≡ x = ground arith in ap₂ (λ (u v : ℕ). u ∷ v ∷ d ∷ ds) c0 x0

read_mark_literal :
    (h : Host) (limit d : ℕ) (ds : Bytes)
    → limit < h.ulong_max
    → read_mark h limit (b'0' ∷ b'x' ∷ d ∷ ds) ≡ mark_up_to limit (b'0' ∷ b'x' ∷ d ∷ ds)
unfolding mark_up_to
read_mark_literal h limit d ds lt =
    let e : has_0x (b'0' ∷ b'x' ∷ d ∷ ds) ≡ true = ground arith in
    rw (e, char_is_digit-is_digit h.signed_char b'0' (omega arith))
      (read_hex h.ulong_max limit d ds lt)

read_mark_0x :
    (h : Host) (limit : ℕ) (value : Bytes)
    → limit < h.ulong_max
    → has_0x value ≡ true
    → read_mark h limit value ≡ mark_up_to limit value
read_mark_0x h limit [] lt e = absurd (false-ne-true e)
read_mark_0x h limit (c ∷ []) lt e = absurd (false-ne-true e)
read_mark_0x h limit (c ∷ x ∷ []) lt e = absurd (false-ne-true e)
read_mark_0x h limit (c ∷ x ∷ d ∷ ds) lt e =
    subst (λ (s : Bytes). read_mark h limit s ≡ mark_up_to limit s) (has_0x_eq c x d ds e)
      (read_mark_literal h limit d ds lt)

read_mark_lem :
    (h : Host) (limit : ℕ) (value : Bytes)
    → limit < h.ulong_max
    → All IsByte value
    → read_mark h limit value ≡ mark_up_to limit value
unfolding mark_up_to
read_mark_lem h limit value lt b = elim (Bool-cases (has_0x value)) [
  | inl e ↦ read_mark_0x h limit value lt e
  | inr e ↦ rw e (read_number_lem h limit value lt b)
]

-- `parse_fwmark` on a text of bytes, where an `unsigned long` has more than 32 bits: `off` in any
-- case stores 0, hexadecimal digits of either case behind `0x` or decimal digits alone store the
-- number that they write, where it has 32 bits, and every other text is refused.
pub parse_fwmark_lem :
    (h : Host) (dev : WgDevice) (value : Bytes)
    → 0xffff_ffff < h.ulong_max
    → All IsByte value
    → parse_fwmark h dev value ≡ (
        if caseless_eq value (codes "off")
        then some (set_fwmark dev 0)
        else elim (mark_up_to 0xffff_ffff value) [
          | none ↦ none
          | some mark ↦ some (set_fwmark dev mark)
        ])
unfolding parse_fwmark
parse_fwmark_lem h dev value lt b =
    let r = sym (read_mark_lem h 0xffff_ffff value lt b) in rw r (ground arith)

pub not_off : (c : ℕ) (cs : Bytes) → is_digit c ≡ true → caseless_eq (c ∷ cs) (codes "off") ≡ false
unfolding caseless_eq
not_off c cs d = let o : (to_lower c == b'o') ≡ false = ground arith in rw o refl

not_0x : (c : ℕ) (cs : Bytes) → all_digits 10 (c ∷ cs) ≡ true → has_0x (c ∷ cs) ≡ false
not_0x c [] a = refl
not_0x c (x ∷ []) a = refl
not_0x c (x ∷ y ∷ cs) a =
    let tail : all_digits 10 (x ∷ y ∷ cs) ≡ true = ground arith in
    let d = is_digit-all_digits x (y ∷ cs) tail in
    let nx : (x == b'x') ≡ false = ground arith in ground arith

saturated {ℓ} :
    {A : Type ℓ} (f : ℕ → A) (n m : ℕ) (whole : Bool)
    → whole ≡ true
    → (whole ≡ true → n ≡ m)
    → (let r = if ltb 0xffff_ffff n then 0xffff_ffff else n in
        if not whole || ltb 0xffff_ffff r then none else some (f r))
      ≡ some (f (if ltb 0xffff_ffff m then 0xffff_ffff else m))
saturated f n m whole w e =
    rw (w, e w)
      (elim (Bool-cases (ltb 0xffff_ffff m)) [ inl l ↦ rw l refl | inr l ↦ rw l (rw l refl) ])

-- Where an `unsigned long` has 32 bits, `parse_fwmark` refuses no text of decimal digits: a number
-- that is too large is stored as 0xffffffff.
pub parse_fwmark_saturated :
    (h : Host) (dev : WgDevice) (c : ℕ) (cs : Bytes)
    → h.ulong_max ≡ 0xffff_ffff
    → All IsByte (c ∷ cs)
    → all_digits 10 (c ∷ cs) ≡ true
    → parse_fwmark h dev (c ∷ cs)
      ≡ some (
          set_fwmark dev
            (if ltb 0xffff_ffff (number 10 0 (c ∷ cs)) then 0xffff_ffff else number 10 0 (c ∷ cs)))
unfolding parse_fwmark
parse_fwmark_saturated h dev c cs m b a =
    let d = is_digit-all_digits c cs a in
    let s = scan_digits_lem 10 0 (c ∷ cs) in
    rw
      (
        not_off c cs d,
        char_is_digit-is_digit h.signed_char c b.0,
        d,
        not_0x c cs a,
        m,
        strtoul_digit 0xffff_ffff c cs d,
        s.0,
      )
      (saturated (set_fwmark dev) (scan_digits 10 0 (c ∷ cs)).0 (number 10 0 (c ∷ cs))
        (all_digits 10 (c ∷ cs)) a s.1)

-- A mark in hexadecimal that fits is stored, for an `unsigned long` of 32 bits and more.
pub parse_fwmark_hex :
    (h : Host) (dev : WgDevice) (d : ℕ) (ds : Bytes)
    → 0xffff_ffff ≤ h.ulong_max
    → is_digit_of 16 d ≡ true
    → all_digits 16 (d ∷ ds) ≡ true
    → number 16 0 (d ∷ ds) ≤ 0xffff_ffff
    → parse_fwmark h dev (b'0' ∷ b'x' ∷ d ∷ ds) ≡ some (set_fwmark dev (number 16 0 (d ∷ ds)))
unfolding parse_fwmark
parse_fwmark_hex h dev d ds m e a le =
    let s = scan_digits_lem 16 0 (d ∷ ds) in
    let x : has_0x (b'0' ∷ b'x' ∷ d ∷ ds) ≡ true = ground arith in
    let small : ltb h.ulong_max (number 16 0 (d ∷ ds)) ≡ false = ground (arith, m, le) in
    let fits : ltb 0xffff_ffff (number 16 0 (d ∷ ds)) ≡ false = ground (arith, le) in
    rw
      (
        not_off b'0' (b'x' ∷ d ∷ ds) refl,
        char_is_digit-is_digit h.signed_char b'0' (omega arith),
        x,
        strtoul_hex h.ulong_max d ds e,
        s.0,
        a,
        s.1 a,
        small,
        fits,
      )
      refl
