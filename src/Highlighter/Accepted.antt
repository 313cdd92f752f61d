-- ===== src/Highlighter/Accepted.antt =====
-- The loop of `is_valid_key` over a whole text, and what it decides.
use wireguard_android_expres.Base.{
  ℕ, zero, suc, ◌+◌, ◌*◌, ◌≤◌, ◌≡◌, ◌≢◌, refl, sym, ap, ap₂, ◌∙◌, arith, Bool, true, false, not,
  ◌&&◌, ◌||◌, ◌==◌, if◌then◌else◌, [], ◌∷◌, Bytes, length, char_at, drop, All, Bool-cases, inl, inr,
}
use wireguard_android_expres.Encoding.{
  Decoded, unset, decoded, none_set, key_from_base64_loop, key_from_base64,
}
use wireguard_android_expres.Encoding.Hex.{IsByte, none_set_lem}
use wireguard_android_expres.Encoding.Base64.Sound.{Quads, last, quad, Quads-length}
use wireguard_android_expres.Highlighter.Span.{StringSpan, is_decimal, is_alphabet}
use wireguard_android_expres.Highlighter.Value.{key_loop, member, last_characters, is_valid_key}
use wireguard_android_expres.Highlighter.Keys.{is_key_char, ends_key, good, loop_good}

abbrev prefix_ok : ℕ → Bytes → Bool
prefix_ok zero t = true
prefix_ok (suc n) [] = false
prefix_ok (suc n) (c ∷ t) = is_key_char c && prefix_ok n t

pub drop-cons :
    (i : ℕ) (text : Bytes) (c : ℕ) (t : Bytes)
    → drop i text ≡ c ∷ t
    → (char_at text i ≡ c) × (drop (i + 1) text ≡ t)
drop-cons zero text c t e = rw e (refl, refl)
drop-cons (suc i) [] c t e = absurd (nil-ne-cons e)
  where
    nil-ne-cons : [] ≢ c ∷ t
    nil-ne-cons e = cc
drop-cons (suc i) (x ∷ text) c t e =
    let r = drop-cons i text c t e in
    let n : suc i + 1 ≡ suc (i + 1) = omega arith in
    (r.0, ap (λ (k : ℕ). drop k (x ∷ text)) n ∙ r.1)

test_char :
    (c : ℕ) (rest : Bool)
    → (if not (is_decimal c) && not (is_alphabet c) && not (c == b'/') && not (c == b'+')
        then false
        else rest)
      ≡ (is_key_char c && rest)
unfolding is_key_char
test_char c rest = tests (is_decimal c) (is_alphabet c) (c == b'/') (c == b'+') rest
  where
    tests :
        (a b d e r : Bool)
        → (if not a && not b && not d && not e then false else r) ≡ ((a || b || d || e) && r)
    tests a b d e r = ground arith

module _ (text : Bytes) (s : StringSpan) (whole : s.start ≡ 0) where
  key_loop-prefix :
      (left i : ℕ) (t : Bytes)
      → drop i text ≡ t
      → left ≤ length t
      → key_loop text s left i ≡ prefix_ok left t
  unfolding key_loop
  key_loop-prefix zero i t e h = refl
  key_loop-prefix (suc left) i [] e h = absurd (omega arith)
  key_loop-prefix (suc left) i (c ∷ t) e h =
      let d = drop-cons i text c t e in
      let place : s.start + i ≡ i = omega (arith, whole) in
      let char : char_at text (s.start + i) ≡ c = ap (char_at text) place ∙ d.0 in
      test_char (char_at text (s.start + i)) (key_loop text s left (i + 1))
      ∙ ap₂ (λ (x : ℕ) (r : Bool). is_key_char x && r) char
          (key_loop-prefix left (i + 1) t d.1 (omega arith))

regroup_last : (a b e : Bool) → ((a && (b && true)) && e) ≡ (a && b && e)
regroup_last a b e = ground arith

regroup_quad :
    (a b c d p e : Bool) → ((a && (b && (c && (d && p)))) && e) ≡ (a && b && c && d && (p && e))
regroup_quad a b c d p e = ground arith

prefix_ok-good :
    (n : ℕ) (t : Bytes)
    → Quads t n
    → (prefix_ok (n * 4 + 2) t && ends_key (char_at t (n * 4 + 2))) ≡ good n t
prefix_ok-good n t (last a b c) = regroup_last (is_key_char a) (is_key_char b) (ends_key c)
prefix_ok-good n t (quad {n = m} {rest} a b c d q) =
    let e : suc m * 4 + 2 ≡ suc (suc (suc (suc (m * 4 + 2)))) = omega arith in
    ap
      (λ (k : ℕ). prefix_ok k (a ∷ b ∷ c ∷ d ∷ rest) && ends_key (char_at (a ∷ b ∷ c ∷ d ∷ rest) k))
      e
    ∙ regroup_quad (is_key_char a) (is_key_char b) (is_key_char c) (is_key_char d)
        (prefix_ok (m * 4 + 2) rest) (ends_key (char_at rest (m * 4 + 2)))
    ∙ ap (λ (x : Bool). is_key_char a && is_key_char b && is_key_char c && is_key_char d && x)
        (prefix_ok-good m rest q)

-- Whether a decoder accepts.
abbrev pub accepts : Decoded → Bool
accepts unset = false
accepts (decoded b key) = b

abbrev pub whole_text : Bytes → StringSpan
whole_text text = record { start = 0; len = length text }

long_text :
    (s : Bool) (text : Bytes)
    → All IsByte text
    → length text ≡ 44
    → char_at text 43 ≡ b'='
    → (key_loop text (whole_text text) 42 0 && ends_key (char_at text 42))
      ≡ none_set (key_from_base64_loop s 10 0 text).0
long_text s text b len eq =
    let q = Quads-length 10 text len eq in
    let l = loop_good s 10 text 0 q b (omega arith) in
    ap (λ (x : Bool). x && ends_key (char_at text 42))
      (key_loop-prefix text (whole_text text) refl 42 0 text refl (omega (arith, len)))
    ∙ prefix_ok-good 10 text q
    ∙ sym l.1
    ∙ sym (none_set_lem (key_from_base64_loop s 10 0 text).0 l.0)

choose : (k : Bool) (m : Bool) → (if not k then false else m) ≡ (k && m)
choose true m = refl
choose false m = refl

-- For a text of bytes, taken whole, `is_valid_key` holds exactly where `key_from_base64` accepts it,
-- for a `char` of either sign.
pub is_valid_key-key_from_base64 :
    (s : Bool) (text : Bytes)
    → All IsByte text
    → is_valid_key text (whole_text text) ≡ accepts (key_from_base64 s text)
unfolding is_valid_key key_from_base64 ends_key
is_valid_key-key_from_base64 s text b =
    elim (Bool-cases (not (length text == 44) || not (char_at text 43 == b'='))) [
      | inl bad ↦ rw bad refl
      | inr fine ↦
          let len : length text ≡ 44 = ground arith in
          let eq : char_at text 43 ≡ b'=' = ground arith in
          rw fine (
            choose (key_loop text (whole_text text) 42 0) (member (char_at text 42) last_characters)
            ∙ long_text s text b len eq)
    ]
