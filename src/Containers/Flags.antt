-- ===== src/Containers/Flags.antt =====
-- Single bits of a mask: setting one, clearing one, and testing one.
use native.Mathlib.Nat.{pow-suc}
use Prim.Native.Nat.{min, max}
use wireguard_android_expres.Base.{
  ℕ, zero, suc, ◌*◌, ◌/◌, ◌%◌, ◌^◌, ◌<◌, ◌≡◌, ap, ◌∙◌, arith, bit_and, bit_or, bit_and_step,
  bit_or_step, bit_and-zero,
}

abbrev pub bit : ℕ → ℕ → ℕ
bit zero n = n % 2
bit (suc k) n = bit k (n / 2)

pub bit-bit_or : (k a b : ℕ) → bit k (bit_or a b) ≡ max (bit k a) (bit k b)
bit-bit_or zero a b = omega (arith, bit_or_step a b)
bit-bit_or (suc k) a b = ap (bit k) (omega (arith, bit_or_step a b)) ∙ bit-bit_or k (a / 2) (b / 2)

pub bit-bit_and : (k a b : ℕ) → bit k (bit_and a b) ≡ min (bit k a) (bit k b)
bit-bit_and zero a b = omega (arith, bit_and_step a b)
bit-bit_and (suc k) a b =
    ap (bit k) (omega (arith, bit_and_step a b)) ∙ bit-bit_and k (a / 2) (b / 2)

pub bit-lt : (k n : ℕ) → bit k n < 2
bit-lt zero n = omega arith
bit-lt (suc k) n = bit-lt k (n / 2)

-- A mask of one bit tests that bit.
pub bit_and-bit : (k n : ℕ) → bit_and n (2 ^ k) ≡ bit k n * 2 ^ k
bit_and-bit zero n = omega (arith, bit_and_step n 1, bit_and-zero (n / 2))
bit_and-bit (suc k) n = omega (
  arith,
  bit_and_step n (2 ^ suc k),
  pow-suc 2 k,
  ap (λ (t : ℕ). bit_and (n / 2) t) (half k),
  bit_and-bit k (n / 2),
  ap (λ (t : ℕ). bit k (n / 2) * t) (pow-suc 2 k),
)
  where
    half : (k : ℕ) → 2 ^ suc k / 2 ≡ 2 ^ k
    half k = omega (arith, pow-suc 2 k)
