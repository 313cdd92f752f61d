-- ===== src/Ctype.antt =====
-- tunnel/tools/wireguard-tools/src/ctype.h: the character classes without branches.
-- An `int` argument is its 32-bit pattern; a `bool` result is true when the C value is not 0.
pub mod Laws
use wireguard_android_expres.Base.{
  ℕ, Bool, not, ◌==◌, ◌-◌, ◌+◌, ◌/◌, ◌%◌, ◌^◌, u8, sub32, shr, bit_and, bit_or,
}

unfoldable pub char_is_space : ℕ → Bool
char_is_space c =
    let d = u8 (sub32 c 9) in not (bit_and (shr 0x80001f (bit_and d 31)) (shr 1 (shr d 5)) == 0)

unfoldable pub char_is_digit : ℕ → Bool
char_is_digit c = not (shr (bit_and (sub32 (b'0' - 1) c) (sub32 c (b'9' + 1))) 31 == 0)

unfoldable pub char_is_alpha : ℕ → Bool
char_is_alpha c =
    not (shr (bit_and (sub32 (b'a' - 1) (bit_or c 32)) (sub32 (bit_or c 32) (b'z' + 1))) 31 == 0)
