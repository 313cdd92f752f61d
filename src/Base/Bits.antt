-- ===== src/Base/Bits.antt =====
-- The lowest digit of `bit_and` and `bit_or`, and with it the laws of fields and masks.
use Prim.Native.Nat.{
  ℕ, zero, suc, ◌+◌, ◌-◌, ◌*◌, ◌/◌, ◌%◌, ◌^◌, ◌≤◌, ◌<◌, min, max, bit_and, bit_or, digits, bitwise,
  bit_and-bitwise, bit_or-bitwise,
}
use mathlib.Core.Path.{◌≡◌, refl, ap, ◌∙◌}
use native.Mathlib.Nat.{pow-suc, one-le-pow}
use native.Mathlib.Omega.{arith}

-- `extra` rounds on top of `n`.
abbrev above : ℕ → ℕ → ℕ
above zero n = n
above (suc extra) n = suc (above extra n)

above-add : (extra n : ℕ) → above extra n ≡ extra + n
above-add zero n = omega arith
above-add (suc extra) n = omega (arith, above-add extra n)

module _ (tail : ℕ → ℕ) (digit : ℕ → ℕ → ℕ) where
  -- Once the rounds cover the first number, one more changes nothing.
  one_more :
      (rounds x y : ℕ)
      → x ≤ rounds
      → digits tail digit (suc rounds) x y ≡ digits tail digit rounds x y
  one_more zero zero y covered = refl
  one_more (suc rounds) zero y covered = refl
  one_more zero (suc x) y covered = absurd (omega arith)
  one_more (suc rounds) (suc x) y covered =
      ap (λ (d : ℕ). d * 2 + digit (suc x % 2) (y % 2))
        (one_more rounds (suc x / 2) (y / 2) (omega arith))

  some_more : (extra x y : ℕ) → digits tail digit (above extra x) x y ≡ digits tail digit x x y
  some_more zero x y = refl
  some_more (suc extra) x y =
      one_more (above extra x) x y (omega (arith, above-add extra x)) ∙ some_more extra x y

  lowest_digit :
      (x y : ℕ)
      → bitwise tail digit (suc x) y
        ≡ bitwise tail digit (suc x / 2) (y / 2) * 2 + digit (suc x % 2) (y % 2)
  lowest_digit x y =
      let enough : x ≡ above (x - suc x / 2) (suc x / 2) =
        omega (arith, above-add (x - suc x / 2) (suc x / 2)) in
      ap (λ (r : ℕ). digits tail digit r (suc x / 2) (y / 2) * 2 + digit (suc x % 2) (y % 2)) enough
      ∙ ap (λ (d : ℕ). d * 2 + digit (suc x % 2) (y % 2))
          (some_more (x - suc x / 2) (suc x / 2) (y / 2))

pub bit_or_step : (x y : ℕ) → bit_or x y ≡ bit_or (x / 2) (y / 2) * 2 + max (x % 2) (y % 2)
bit_or_step zero y = omega (arith, bit_or-bitwise 0 y, bit_or-bitwise 0 (y / 2))
bit_or_step (suc x) y = omega (
  arith,
  bit_or-bitwise (suc x) y,
  bit_or-bitwise (suc x / 2) (y / 2),
  lowest_digit (λ d. d) max x y,
)

pub bit_and_step : (x y : ℕ) → bit_and x y ≡ bit_and (x / 2) (y / 2) * 2 + min (x % 2) (y % 2)
bit_and_step zero y = omega (arith, bit_and-bitwise 0 y, bit_and-bitwise 0 (y / 2))
bit_and_step (suc x) y = omega (
  arith,
  bit_and-bitwise (suc x) y,
  bit_and-bitwise (suc x / 2) (y / 2),
  lowest_digit (λ d. 0) min x y,
)

-- Nothing on the right: `|` keeps the left side, and `&` drops it.
right_zero : (bound x : ℕ) → x ≤ bound → (bit_or x 0 ≡ x) × (bit_and x 0 ≡ 0)
right_zero bound zero below = (refl, refl)
right_zero zero (suc x) below = absurd (omega arith)
right_zero (suc bound) (suc x) below =
    let halves = right_zero bound (suc x / 2) (omega arith) in
    (
      omega (arith, halves.0, bit_or_step (suc x) 0),
      omega (arith, halves.1, bit_and_step (suc x) 0),
    )

pub bit_and-zero : (x : ℕ) → bit_and x 0 ≡ 0
bit_and-zero x = (right_zero x x (omega arith)).1

-- The doubled power in a product.
product_step : (q k : ℕ) → q * 2 ^ suc k ≡ q * 2 ^ k + q * 2 ^ k
product_step q k = omega (arith, ap (λ (p : ℕ). q * p) (pow-suc 2 k))

-- `x | r` is a sum when `x` ends in `k` zeros and `r` fits there.
pub bit_or_sum : (k q x r : ℕ) → x ≡ q * 2 ^ k → r < 2 ^ k → bit_or x r ≡ x + r
bit_or_sum zero q x zero e fits = omega (arith, (right_zero x x (omega arith)).0)
bit_or_sum zero q x (suc r) e fits = absurd (omega arith)
bit_or_sum (suc k) q x r e fits =
    let two = product_step q k in
    omega (
      arith,
      bit_or_step x r,
      bit_or_sum k q (x / 2) (r / 2) (omega (arith, e, two)) (omega (arith, pow-suc 2 k)),
      e,
      two,
    )

low_part : (k q r x : ℕ) → x ≡ q * 2 ^ k + r → r < 2 ^ k → bit_and x (2 ^ k - 1) ≡ r
low_part zero q r x e fits = omega (arith, bit_and-zero x)
low_part (suc k) q r x e fits =
    let two = product_step q k in
    let pow = pow-suc 2 k in
    let one = one-le-pow k 2 in
    let rest = low_part k q (r / 2) (x / 2) (omega (arith, e, two)) (omega (arith, pow)) in
    let mask : (2 ^ suc k - 1) / 2 ≡ 2 ^ k - 1 = omega (arith, pow) in
    omega (
      arith,
      bit_and_step x (2 ^ suc k - 1),
      ap (λ (m : ℕ). bit_and (x / 2) m) mask,
      rest,
      e,
      two,
      pow,
      one,
    )

-- A mask of `k` low bits is the remainder by `2 ^ k`.
pub bit_and_mask : (k x : ℕ) → bit_and x (2 ^ k - 1) ≡ x % 2 ^ k
bit_and_mask k x =
    let one = one-le-pow k 2 in
    low_part k (x / 2 ^ k) (x % 2 ^ k) x (grind (arith, one)) (grind (arith, one))
