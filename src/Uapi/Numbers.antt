-- ===== src/Uapi/Numbers.antt =====
-- Numbers of the protocol: what `printf` writes is what `NUM` reads, in any line that carries it.
use wireguard_android_expres.Base.{
  ℕ, zero, suc, ◌+◌, ◌-◌, ◌*◌, ◌/◌, ◌%◌, ◌^◌, ◌≤◌, ◌<◌, ◌≡◌, ◌≢◌, refl, ap, ◌∙◌, arith, true, leb,
  ltb, some, [], ◌∷◌, Bytes, All, Bool-cases, inl, inr, le→leb, ltb→lt,
}
use wireguard_android_expres.Encoding.Hex.{IsByte}
use wireguard_android_expres.Ctype.Laws.{is_digit}
use wireguard_android_expres.Host.{Host}
use wireguard_android_expres.Config.Number.Digits.{
  all_digits, number, is_digit_of, digit_or, digit_value-decimal, is_digit_of-some, digit_or-some,
}
use wireguard_android_expres.Config.Decimal.{decimal_up_to, read_number_lem}
use wireguard_android_expres.Uapi.Print.{decimal_loop, decimal}
use wireguard_android_expres.Uapi.Get.{num}

digit_of : (d : ℕ) → d < 10 → (is_digit_of 10 (d + b'0') ≡ true) × (digit_or 10 (d + b'0') ≡ d)
digit_of d h =
    let e : is_digit (d + b'0') ≡ true = ground arith in
    let v = digit_value-decimal (d + b'0') e in
    let m : d + b'0' - b'0' ≡ d = omega arith in
    (
      is_digit_of-some 10 (d + b'0') (d + b'0' - b'0') v,
      digit_or-some 10 (d + b'0') (d + b'0' - b'0') v ∙ m,
    )

-- The digits of a number, in front of a text: digits where the text is digits, and that number.
abbrev pub Written : ℕ → Bytes → Bytes → Type 0
Written n rest s =
    (all_digits 10 s ≡ all_digits 10 rest)
    × (number 10 0 s ≡ number 10 n rest)
    × (All IsByte rest → All IsByte s)
    × (s ≢ [])

cons-ne : (c : ℕ) (s : Bytes) → (c ∷ s) ≢ []
cons-ne c s e = cc

-- One digit in front of a text.
digit_front :
    (d : ℕ) (rest : Bytes)
    → d < 10
    → (all_digits 10 ((d + b'0') ∷ rest) ≡ all_digits 10 rest)
      × ((acc : ℕ) → number 10 acc ((d + b'0') ∷ rest) ≡ number 10 (acc * 10 + d) rest)
      × (All IsByte rest → All IsByte ((d + b'0') ∷ rest))
digit_front d rest h =
    let e = digit_of d h in
    (
      (let s : all_digits 10 ((d + b'0') ∷ rest) ≡ all_digits 10 rest = rw e.0 refl in s),
      (λ acc. ap (λ (t : ℕ). number 10 (acc * 10 + t) rest) e.1),
      λ b. ((let s : d + b'0' < 256 = omega arith in s), b),
    )

decimal_loop-Written : (f n : ℕ) (rest : Bytes) → n < f → Written n rest (decimal_loop f n rest)
unfolding decimal_loop
decimal_loop-Written zero n rest h = absurd (omega arith)
decimal_loop-Written (suc f) n rest h = elim (Bool-cases (ltb n 10)) [
  | inl e ↦
      let d = digit_front n rest (ltb→lt n 10 e) in
      let z : 0 * 10 + n ≡ n = omega arith in
      rw e (d.0, d.1 0 ∙ ap (λ (t : ℕ). number 10 t rest) z, d.2, cons-ne (n + b'0') rest)
  | inr e ↦
      let d = digit_front (n % 10) rest (omega arith) in
      let smaller : n / 10 < f = ground arith in
      let w = decimal_loop-Written f (n / 10) ((n % 10 + b'0') ∷ rest) smaller in
      let same : n / 10 * 10 + n % 10 ≡ n = omega arith in
      rw e (
        w.0 ∙ d.0,
        w.1 ∙ d.1 (n / 10) ∙ ap (λ (t : ℕ). number 10 t rest) same,
        (λ b. w.2 (d.2 b)),
        w.3,
      )
]

pub decimal-Written : (n : ℕ) → Written n [] (decimal n)
unfolding decimal
decimal-Written n = decimal_loop-Written (suc n) n [] (omega arith)

-- A text of digits is the number that it writes, where that is not too large.
decimal_up_to-Written :
    (limit n : ℕ) (s : Bytes) → n ≤ limit → Written n [] s → decimal_up_to limit s ≡ some n
unfolding decimal_up_to
decimal_up_to-Written limit n [] h w = absurd (w.3 refl)
decimal_up_to-Written limit n (c ∷ cs) h w =
    let small : leb n limit ≡ true = le→leb n limit h in rw (w.0, w.1, small) refl

-- Every number is written in decimal digits that read as that number up to any limit above it.
pub decimal_up_to-decimal : (limit n : ℕ) → n ≤ limit → decimal_up_to limit (decimal n) ≡ some n
decimal_up_to-decimal limit n h = decimal_up_to-Written limit n (decimal n) h (decimal-Written n)

pub decimal-IsByte : (n : ℕ) → All IsByte (decimal n)
decimal-IsByte n = (decimal-Written n).2 tt

num_lem :
    (h : Host) (limit : ℕ) (value : Bytes)
    → limit < 2 ^ 64 - 1
    → All IsByte value
    → num h value limit ≡ decimal_up_to limit value
unfolding num
num_lem h limit value lt b = read_number_lem (record h { ulong_max = 2 ^ 64 - 1 }) limit value lt b

-- The macro `NUM` reads a number back that was written in decimal, where it is no more than the
-- limit of the field and that limit is below the largest 64-bit number.
pub num-decimal :
    (h : Host) (limit n : ℕ) → limit < 2 ^ 64 - 1 → n ≤ limit → num h (decimal n) limit ≡ some n
num-decimal h limit n lt le =
    num_lem h limit (decimal n) lt (decimal-IsByte n) ∙ decimal_up_to-decimal limit n le
