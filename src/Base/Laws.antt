-- ===== src/Base/Laws.antt =====
-- Bounds of `bit_or`: it keeps every bit of both sides and adds none.
use Prim.Native.Nat.{ℕ, zero, suc, ◌+◌, ◌/◌, ◌^◌, ◌≤◌, ◌<◌, bit_or, bit_or-bitwise}
use mathlib.Core.Path.{◌≡◌}
use native.Mathlib.Nat.{le_refl, pow-suc}
use native.Mathlib.Omega.{arith}
use wireguard_android_expres.Base.Bits.{bit_or_step}

zero-bit_or : (b : ℕ) → bit_or 0 b ≡ b
zero-bit_or b = bit_or-bitwise 0 b

bit_or_bounds_fuel :
    (n a b : ℕ) → a ≤ n → (a ≤ bit_or a b) × (b ≤ bit_or a b) × (bit_or a b ≤ a + b)
bit_or_bounds_fuel n zero b h = omega (arith, zero-bit_or b)
bit_or_bounds_fuel zero (suc a) b h = absurd (omega arith)
bit_or_bounds_fuel (suc n) (suc a) b h =
    omega (arith, bit_or_step (suc a) b, bit_or_bounds_fuel n (suc a / 2) (b / 2) (omega arith))

pub bit_or_bounds : (a b : ℕ) → (a ≤ bit_or a b) × (b ≤ bit_or a b) × (bit_or a b ≤ a + b)
bit_or_bounds a b = bit_or_bounds_fuel a a b (le_refl _)

pub bit_or-lt-pow : (k a b : ℕ) → a < 2 ^ k → b < 2 ^ k → bit_or a b < 2 ^ k
bit_or-lt-pow zero a b h k = omega (arith, bit_or_bounds a b)
bit_or-lt-pow (suc n) a b h k =
    omega (arith, pow-suc 2 n, bit_or_step a b, bit_or-lt-pow n (a / 2) (b / 2))
