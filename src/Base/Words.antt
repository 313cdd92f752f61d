-- ===== src/Base/Words.antt =====
-- Machine words as native numbers: `int` and `unsigned` are their 32-bit patterns.
use Prim.Native.Nat.{ℕ, ◌+◌, ◌-◌, ◌*◌, ◌/◌, ◌%◌, ◌^◌}
use mathlib.Core.Bool.{Bool, ◌&&◌}
use wireguard_android_expres.Base.Tests.{ltb, leb, if◌then◌else◌}

abbrev pub u8 : ℕ → ℕ
u8 n = n % 256

abbrev pub u16 : ℕ → ℕ
u16 n = n % 65536

abbrev pub u32_mod : ℕ
u32_mod = 2 ^ 32

abbrev pub add32 : ℕ → ℕ → ℕ
add32 a b = (a + b) % u32_mod

abbrev pub sub32 : ℕ → ℕ → ℕ
sub32 a b = (a + u32_mod - b) % u32_mod

-- `-1` as an `int`, and all ones as an `unsigned`.
abbrev pub minus_one : ℕ
minus_one = 0xffff_ffff

abbrev pub shl32 : ℕ → ℕ → ℕ
shl32 a k = a * 2 ^ k % u32_mod

abbrev pub shr : ℕ → ℕ → ℕ
shr a k = a / 2 ^ k

-- `>> 8` on an `int`: the sign is shifted in.
abbrev pub sar8 : ℕ → ℕ
sar8 a = if ltb a (2 ^ 31) then a / 256 else a / 256 + 0xff00_0000

-- A `char` promoted to `int`. Whether `char` is signed depends on the target, so it is an argument.
abbrev pub char_word : Bool → ℕ → ℕ
char_word signed_char c = if signed_char && leb 128 c then c + 0xffff_ff00 else c
