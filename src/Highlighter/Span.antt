-- ===== src/Highlighter/Span.antt =====
-- `string_span_t` and the tests of single characters. A span is a place in the text and a length,
-- and reads that text, beyond its own end too. A `char` above 127 fails every test, signed or not.
use wireguard_android_expres.Base.{
  ℕ, ◌+◌, Bool, true, ◌&&◌, ◌||◌, ◌==◌, leb, ltb, if◌then◌else◌, [], ◌∷◌, Bytes, length, char_at,
  bit_and, bit_or,
}

pub record StringSpan : Type 0 where
  pub start : ℕ
  pub len : ℕ

-- `s.s[i]` in a text.
abbrev pub at : Bytes → StringSpan → ℕ → ℕ
at text s i = char_at text (s.start + i)

-- The span `{ s.s + i, n }`.
abbrev pub sub_span : StringSpan → ℕ → ℕ → StringSpan
sub_span s i n = record { start = s.start + i; len = n }

abbrev pub is_decimal : ℕ → Bool
is_decimal c = leb b'0' c && leb c b'9'

unfoldable pub is_hexadecimal : ℕ → Bool
is_hexadecimal c = is_decimal c || (leb b'a' (bit_or c 32) && leb (bit_or c 32) b'f')

unfoldable pub is_alphabet : ℕ → Bool
is_alphabet c = leb b'a' (bit_or c 32) && leb (bit_or c 32) b'z'

-- `!memcmp(s.s, c, n)`, at the characters from `i` on.
unfoldable pub same_from : Bytes → StringSpan → ℕ → Bytes → Bool
same_from text s i [] = true
same_from text s i (c ∷ cs) = at text s i == c && same_from text s (i + 1) cs

unfoldable pub is_same : Bytes → StringSpan → Bytes → Bool
is_same text s c = length c == s.len && same_from text s 0 c

-- `a &= 95` on a lower-case letter.
abbrev pub upper : ℕ → ℕ
upper a = if leb b'a' a && ltb a (b'a' + 26) then bit_and a 95 else a

unfoldable pub caseless_from : Bytes → StringSpan → ℕ → Bytes → Bool
caseless_from text s i [] = true
caseless_from text s i (c ∷ cs) = upper c == upper (at text s i) && caseless_from text s (i + 1) cs

unfoldable pub is_caseless_same : Bytes → StringSpan → Bytes → Bool
is_caseless_same text s c = length c == s.len && caseless_from text s 0 c
