-- ===== src/Ctype/Laws.antt =====
-- The character classes of ctype.h against plain ranges, by evaluation over a `char`.
use wireguard_android_expres.Base.{
  ℕ, ◌%◌, ◌<◌, ◌≡◌, refl, ap, ◌∙◌, arith, Bool, true, false, ◌&&◌, ◌||◌, ◌==◌, leb, all_below,
  all_below_sound, u8, sub32, shr, not, bit_and, char_word,
}
use wireguard_android_expres.Ctype.{char_is_space, char_is_digit, char_is_alpha}

-- The plain classes, on a byte.
abbrev pub is_space : ℕ → Bool
is_space c = (leb 9 c && leb c 13) || c == 32

abbrev pub is_digit : ℕ → Bool
is_digit c = leb b'0' c && leb c b'9'

abbrev pub is_alpha : ℕ → Bool
is_alpha c = (leb b'a' c && leb c b'z') || (leb b'A' c && leb c b'Z')

-- Equality of two truth values, as a truth value.
abbrev pub same : Bool → Bool → Bool
same true b = b
same false true = false
same false false = true

pub same-eq : (a b : Bool) → same a b ≡ true → a ≡ b
same-eq a b h = ground arith

space_table : all_below 256 (λ c. same (char_is_space c) (is_space c)) ≡ true
unfolding all_below char_is_space
space_table = refl

char_is_space-mod : (c : ℕ) → c < 0x1_0000_0000 → char_is_space c ≡ char_is_space (c % 256)
unfolding char_is_space
char_is_space-mod c h =
    let e : u8 (sub32 c 9) ≡ u8 (sub32 (c % 256) 9) = omega arith in
    ap (λ d. not (bit_and (shr 0x80001f (bit_and d 31)) (shr 1 (shr d 5)) == 0)) e

-- For every `int`, `char_is_space` looks at the low byte alone, and holds on the six spaces of C.
pub char_is_space-is_space : (c : ℕ) → c < 0x1_0000_0000 → char_is_space c ≡ is_space (c % 256)
char_is_space-is_space c h =
    char_is_space-mod c h
    ∙ same-eq _ _ (
        all_below_sound 256 (λ c. same (char_is_space c) (is_space c)) (c % 256) space_table
          (omega arith))

digit_table :
    (s : Bool) → all_below 256 (λ c. same (char_is_digit (char_word s c)) (is_digit c)) ≡ true
unfolding all_below char_is_digit
digit_table true = refl
digit_table false = refl

pub char_is_digit-is_digit :
    (s : Bool) (c : ℕ) → c < 256 → char_is_digit (char_word s c) ≡ is_digit c
char_is_digit-is_digit s c h = same-eq _ _ (
    all_below_sound 256 (λ c. same (char_is_digit (char_word s c)) (is_digit c)) c (digit_table s)
      h)

alpha_table :
    (s : Bool) → all_below 256 (λ c. same (char_is_alpha (char_word s c)) (is_alpha c)) ≡ true
unfolding all_below char_is_alpha
alpha_table true = refl
alpha_table false = refl

pub char_is_alpha-is_alpha :
    (s : Bool) (c : ℕ) → c < 256 → char_is_alpha (char_word s c) ≡ is_alpha c
char_is_alpha-is_alpha s c h = same-eq _ _ (
    all_below_sound 256 (λ c. same (char_is_alpha (char_word s c)) (is_alpha c)) c (alpha_table s)
      h)
