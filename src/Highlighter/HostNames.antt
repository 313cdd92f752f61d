-- ===== src/Highlighter/HostNames.antt =====
-- `is_valid_hostname` against a description of the text.
use wireguard_android_expres.Base.{
  ℕ, zero, suc, ◌+◌, ◌-◌, ◌≤◌, ◌≡◌, refl, ap, ap₂, ◌∙◌, arith, Bool, true, false, not, ◌&&◌, ◌||◌,
  ◌==◌, ltb, if◌then◌else◌, [], ◌∷◌, Bytes, length, char_at, drop,
}
use wireguard_android_expres.Highlighter.Span.{StringSpan, at, is_decimal, is_alphabet}
use wireguard_android_expres.Highlighter.Address.{hostname_loop, is_valid_hostname}
use wireguard_android_expres.Highlighter.Accepted.{drop-cons, whole_text}

-- The characters of a host name, and how many of a text are digits or dots.
unfoldable pub is_host_char : ℕ → Bool
is_host_char c = is_decimal c || c == b'.' || is_alphabet c || c == b'-'

abbrev pub all_host_chars : Bytes → Bool
all_host_chars [] = true
all_host_chars (c ∷ t) = is_host_char c && all_host_chars t

abbrev pub digits : Bytes → ℕ
digits [] = 0
digits (c ∷ t) = (if is_decimal c then 1 else 0) + digits t

abbrev pub dots : Bytes → ℕ
dots [] = 0
dots (c ∷ t) = (if c == b'.' then 1 else 0) + dots t

dots-le : (t : Bytes) → dots t ≤ length t
dots-le [] = omega arith
dots-le (c ∷ t) = ground (arith, dots-le t)

-- One round, by the tests of its character and the three ways in which the loop may go on. The
-- test for a second dot comes behind the one that has left the round at a dot.
round :
    (d p l h x y all n m k : Bool)
    → (if d
        then (all && n)
        else if p
        then (all && m)
        else if not l && not h
        then false
        else if x && p && y
        then false
        else (all && k))
      ≡ ((d || p || l || h) && all && (if d then n else if p then m else k))
round true p l h x y all n m k = ground arith
round false true l h x y all n m k = ground arith
round false false l h x y all n m k = ground arith

-- What is left to compare at a text's end, after the characters that were counted already.
abbrev unlike : ℕ → ℕ → Bytes → Bool
unlike num_digit num_entity t = not (num_digit + digits t == num_entity - dots t)

unlike-cons :
    (nd ne c : ℕ) (t : Bytes)
    → (is_decimal c ≡ true → (c == b'.') ≡ false)
    → (if is_decimal c
        then unlike (nd + 1) ne t
        else if c == b'.'
        then unlike nd (ne - 1) t
        else unlike nd ne t)
      ≡ unlike nd ne (c ∷ t)
unlike-cons nd ne c t h = ground arith

module _ (text : Bytes) (s : StringSpan) (whole : s.start ≡ 0) where
  hostname_loop_lem :
      (left i nd ne : ℕ) (t : Bytes)
      → drop i text ≡ t
      → length t ≡ left
      → hostname_loop text s left i nd ne ≡ (all_host_chars t && unlike nd ne t)
  unfolding hostname_loop is_host_char
  hostname_loop_lem zero i nd ne [] e h =
      ap₂ (λ (a b : ℕ). not (a == b)) (let z : nd ≡ nd + 0 = omega arith in z)
        (let z : ne ≡ ne - 0 = omega arith in z)
  hostname_loop_lem zero i nd ne (c ∷ t) e h = absurd (omega arith)
  hostname_loop_lem (suc left) i nd ne [] e h = absurd (omega arith)
  hostname_loop_lem (suc left) i nd ne (c ∷ t) e h =
      let d = drop-cons i text c t e in
      let place : s.start + i ≡ i = omega (arith, whole) in
      let char : char_at text (s.start + i) ≡ c = ap (char_at text) place ∙ d.0 in
      let len : length t ≡ left = omega arith in
      let digit = hostname_loop_lem left (i + 1) (nd + 1) ne t d.1 len in
      let dot = hostname_loop_lem left (i + 1) nd (ne - 1) t d.1 len in
      let other = hostname_loop_lem left (i + 1) nd ne t d.1 len in
      let apart : is_decimal c ≡ true → (c == b'.') ≡ false = λ q. ground arith in
      rw (char, digit, dot, other)
        (round (is_decimal c) (c == b'.') (is_alphabet c) (c == b'-') (not (i == 0))
            (at text s (i - 1) == b'.') (all_host_chars t) (unlike (nd + 1) ne t)
            (unlike nd (ne - 1) t) (unlike nd ne t)
          ∙ ap (λ (u : Bool). (is_host_char c && all_host_chars t) && u)
              (unlike-cons nd ne c t apart))

count_test : (d p n : ℕ) → p ≤ n → not (0 + d == n - p) ≡ not (d + p == n)
count_test d p n h = ground arith

-- The tests before the loop, and the loop.
ordered_tests :
    (a b c r : Bool)
    → (if a then false else if b then false else if c then false else r)
      ≡ (not a && not b && not c && r)
ordered_tests true b c r = refl
ordered_tests false true c r = refl
ordered_tests false false true r = refl
ordered_tests false false false r = refl

-- For a text, taken whole, `is_valid_hostname` holds exactly where it has 1 to 63 characters, all
-- of them letters, digits, dots and hyphens, where neither its first nor its last one is a hyphen
-- or a dot, and where not all of them are digits and dots. Dots may stand side by side.
pub is_valid_hostname_lem :
    (text : Bytes)
    → is_valid_hostname text (whole_text text) ≡ (
        not (ltb 63 (length text) || length text == 0)
        && not (char_at text 0 == b'-' || char_at text (length text - 1) == b'-')
        && not (char_at text 0 == b'.' || char_at text (length text - 1) == b'.')
        && (all_host_chars text && not (digits text + dots text == length text)))
unfolding is_valid_hostname
is_valid_hostname_lem text =
    let place : 0 + (length text - 1) ≡ length text - 1 = omega arith in
    let l =
      hostname_loop_lem text (whole_text text) refl (length text) 0 0 (length text) text refl
        refl in
    let n = count_test (digits text) (dots text) (length text) (dots-le text) in
    rw (place, l, n)
      (ordered_tests (ltb 63 (length text) || length text == 0)
        (char_at text 0 == b'-' || char_at text (length text - 1) == b'-')
        (char_at text 0 == b'.' || char_at text (length text - 1) == b'.')
        (all_host_chars text && not (digits text + dots text == length text)))
