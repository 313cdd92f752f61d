-- ===== src/Config/Number/Digits.antt =====
-- `strtoul` on a text that begins with a digit, the one kind of text that the parsers hand to it.
use wireguard_android_expres.Base.{
  ℕ, ◌+◌, ◌-◌, ◌*◌, ◌≡◌, ◌≢◌, refl, sym, ◌∙◌, arith, Bool, true, false, ◌==◌, ◌&&◌, ltb,
  if◌then◌else◌, Option, some, none, [], ◌∷◌, Bytes, length,
}
use wireguard_android_expres.Ctype.Laws.{is_space, is_digit}
use wireguard_android_expres.Config.Number.{
  digit_value, scan_digits, skip_spaces, begins_digit, take_sign, skip_prefix, strtoul,
}

-- Whether every character is a digit of the base, and the number that the digits make.
unfoldable pub is_digit_of : ℕ → ℕ → Bool
is_digit_of base c = elim (digit_value base c) [ some v ↦ true | none ↦ false ]

unfoldable pub digit_or : ℕ → ℕ → ℕ
digit_or base c = elim (digit_value base c) [ some v ↦ v | none ↦ 0 ]

abbrev pub all_digits : ℕ → Bytes → Bool
all_digits base [] = true
all_digits base (c ∷ cs) = is_digit_of base c && all_digits base cs

abbrev pub number : ℕ → ℕ → Bytes → ℕ
number base acc [] = acc
number base acc (c ∷ cs) = number base (acc * base + digit_or base c) cs

-- What the scan shows of a text.
abbrev pub Scanned : ℕ → ℕ → Bytes → ℕ × Bytes → Type 0
Scanned base acc s r =
    ((length r.1 == 0) ≡ all_digits base s) × (all_digits base s ≡ true → r.0 ≡ number base acc s)

pub is_digit_of-none : (base c : ℕ) → digit_value base c ≡ none → is_digit_of base c ≡ false
unfolding is_digit_of
is_digit_of-none base c e = rw (e, is_digit_of) refl

pub is_digit_of-some : (base c v : ℕ) → digit_value base c ≡ some v → is_digit_of base c ≡ true
unfolding is_digit_of
is_digit_of-some base c v e = rw (e, is_digit_of) refl

pub digit_or-some : (base c v : ℕ) → digit_value base c ≡ some v → digit_or base c ≡ v
unfolding digit_or
digit_or-some base c v e = rw (e, digit_or) refl

pub all_digits-none :
    (base c : ℕ) (cs : Bytes) → is_digit_of base c ≡ false → all_digits base (c ∷ cs) ≡ false
all_digits-none base c cs e = rw e refl

pub false-ne-true : false ≢ true
false-ne-true e = cc

scan_step :
    (base acc c : ℕ) (cs : Bytes) (v : Option ℕ)
    → digit_value base c ≡ v
    → ((v' : ℕ) → Scanned base (acc * base + v') cs (scan_digits base (acc * base + v') cs))
    → Scanned base acc (c ∷ cs) (scan_digits base acc (c ∷ cs))
unfolding scan_digits
scan_step base acc c cs none e h =
    let no = is_digit_of-none base c e in
    rw (e, scan_digits)
      (
        (let s : (length (c ∷ cs) == 0) ≡ all_digits base (c ∷ cs) = rw no (ground arith) in s),
        λ f. absurd (false-ne-true (sym (all_digits-none base c cs no) ∙ f)),
      )
scan_step base acc c cs (some v) e h =
    rw (e, scan_digits, is_digit_of-some base c v e, digit_or-some base c v e) (h v)

-- The scan reads the text whole exactly when it has digits only, and then gives its number.
pub scan_digits_lem : (base acc : ℕ) (s : Bytes) → Scanned base acc s (scan_digits base acc s)
unfolding scan_digits
scan_digits_lem base acc [] = (refl, λ e. refl)
scan_digits_lem base acc (c ∷ cs) =
    scan_step base acc c cs (digit_value base c) refl
      (λ v. scan_digits_lem base (acc * base + v) cs)

pub digit_value-decimal : (c : ℕ) → is_digit c ≡ true → digit_value 10 c ≡ some (c - b'0')
unfolding digit_value
digit_value-decimal c h = ground arith

pub digit_value-other : (c : ℕ) → is_digit c ≡ false → digit_value 10 c ≡ none
unfolding digit_value
digit_value-other c h = ground arith

begins_decimal : (c : ℕ) (cs : Bytes) → is_digit c ≡ true → begins_digit 10 (c ∷ cs) ≡ true
unfolding begins_digit
begins_decimal c cs h = rw (digit_value-decimal c h, begins_digit) refl

pub skip_spaces_digit : (c : ℕ) (cs : Bytes) → is_digit c ≡ true → skip_spaces (c ∷ cs) ≡ c ∷ cs
unfolding skip_spaces
skip_spaces_digit c cs h = let space : is_space c ≡ false = ground arith in rw space refl

pub take_sign_digit :
    (c : ℕ) (cs : Bytes) → is_digit c ≡ true → take_sign (c ∷ cs) ≡ (false, c ∷ cs)
unfolding take_sign
take_sign_digit c cs h =
    let minus : (c == b'-') ≡ false = ground arith in
    let plus : (c == b'+') ≡ false = ground arith in rw (minus, plus) refl

pub begins_digit-is_digit_of :
    (base c : ℕ) (cs : Bytes) → begins_digit base (c ∷ cs) ≡ is_digit_of base c
unfolding begins_digit is_digit_of
begins_digit-is_digit_of base c cs = refl

skip_prefix-decimal : (s : Bytes) → skip_prefix 10 s ≡ s
unfolding skip_prefix
skip_prefix-decimal s = refl

-- A text that begins with a decimal digit has no space, sign or prefix to skip.
pub strtoul_digit :
    (max c : ℕ) (cs : Bytes)
    → is_digit c ≡ true
    → strtoul max 10 (c ∷ cs) ≡ (
      (if ltb max (scan_digits 10 0 (c ∷ cs)).0 then max else (scan_digits 10 0 (c ∷ cs)).0),
      (scan_digits 10 0 (c ∷ cs)).1,
    )
unfolding strtoul
strtoul_digit max c cs h =
    rw
      (
        skip_spaces_digit c cs h,
        take_sign_digit c cs h,
        skip_prefix-decimal (c ∷ cs),
        begins_decimal c cs h,
      )
      refl
