-- ===== src/Highlighter/Keys.antt =====
-- `is_valid_key` of the highlighter against `key_from_base64`, which reads the key in the end.
use wireguard_android_expres.Base.{
  ℕ, zero, suc, ◌%◌, ◌<◌, ◌≡◌, refl, ap, ◌∙◌, arith, Bool, true, false, ◌&&◌, ◌||◌, ◌==◌, ltb, ◌∷◌,
  Bytes, All, all_below, all_below_sound, Bool-cases, inl, inr, u8, shr, bit_or, bit_and,
  bit_and_mask, bit_or_bounds,
}
use wireguard_android_expres.Ctype.Laws.{same, same-eq}
use wireguard_android_expres.Encoding.{decode_sextet, decode_base64, key_from_base64_loop}
use wireguard_android_expres.Encoding.Hex.{IsByte, u8-bit_or}
use wireguard_android_expres.Encoding.Base64.{join, or_sextets}
use wireguard_android_expres.Encoding.Base64.Sound.{
  Quads, last, quad, decode_base64_sign, decode_sextet_A, or_bit,
}
use wireguard_android_expres.Highlighter.Span.{is_decimal, is_alphabet}
use wireguard_android_expres.Highlighter.Value.{member, last_characters}

-- The characters that `is_valid_key` takes.
unfoldable pub is_key_char : ℕ → Bool
is_key_char c = is_decimal c || is_alphabet c || c == b'/' || c == b'+'

unfoldable pub ends_key : ℕ → Bool
ends_key c = member c last_characters

char_table :
    (s : Bool) → all_below 256 (λ c. same (is_key_char c) (ltb (decode_sextet s c) 64)) ≡ true
unfolding all_below is_key_char is_alphabet decode_sextet
char_table true = refl
char_table false = refl

-- They are the characters that have a value in base64.
is_key_char_lem : (s : Bool) (c : ℕ) → c < 256 → is_key_char c ≡ ltb (decode_sextet s c) 64
is_key_char_lem s c h = same-eq _ _ (
    all_below_sound 256 (λ c. same (is_key_char c) (ltb (decode_sextet s c) 64)) c (char_table s) h)

end_table :
    (s : Bool)
    → all_below 256
        (λ c. same (ends_key c) (ltb (decode_sextet s c) 64 && decode_sextet s c % 4 == 0))
      ≡ true
unfolding all_below ends_key decode_sextet
end_table true = refl
end_table false = refl

-- The last ones are those whose value has no bits beyond the key.
ends_key_lem :
    (s : Bool) (c : ℕ)
    → c < 256
    → ends_key c ≡ (ltb (decode_sextet s c) 64 && decode_sextet s c % 4 == 0)
ends_key_lem s c h = same-eq _ _ (
    all_below_sound 256
      (λ c. same (ends_key c) (ltb (decode_sextet s c) 64 && decode_sextet s c % 4 == 0)) c
      (end_table s) h)

-- A group of four has no sign exactly where its characters have values.
group_sign :
    (s : Bool) (a b c d : ℕ)
    → a < 256
    → b < 256
    → c < 256
    → d < 256
    → (shr (decode_base64 s a b c d) 31 == 0)
      ≡ (is_key_char a && is_key_char b && is_key_char c && is_key_char d)
unfolding decode_base64
group_sign s a b c d ha hb hc hd =
    let g = decode_base64_sign s a b c d ha hb hc hd in
    let j =
      or_sextets (decode_sextet s a) (decode_sextet s b) (decode_sextet s c) (decode_sextet s d) in
    ground (
      arith,
      is_key_char_lem s a ha,
      is_key_char_lem s b hb,
      is_key_char_lem s c hc,
      is_key_char_lem s d hd,
      g,
      j,
    )

or-zero : (x y : ℕ) → (bit_or x y == 0) ≡ (x == 0 && y == 0)
or-zero x y = ground (arith, bit_or_bounds x y)

-- The low byte of the last group, where its three characters have values.
low_byte :
    (s : Bool) (a b c : ℕ)
    → decode_sextet s a < 64
    → decode_sextet s b < 64
    → decode_sextet s c < 64
    → (bit_and (decode_base64 s a b c b'A') 255 == 0) ≡ (decode_sextet s c % 4 == 0)
unfolding decode_base64
low_byte s a b c ha hb hc =
    let j =
      or_sextets (decode_sextet s a) (decode_sextet s b) (decode_sextet s c) 0 ha hb hc
        (omega arith) in
    let m = bit_and_mask 8 (join (decode_sextet s a) (decode_sextet s b) (decode_sextet s c) 0) in
    rw (decode_sextet_A s) (rw j (ground (arith, m)))

A_is_key_char : is_key_char b'A' ≡ true
unfolding is_key_char is_alphabet
A_is_key_char = refl

-- The two tests of the last group, by the values `x`, `y` and `z` of its characters.
last_tests :
    (x y z : ℕ) (sign low a b c e : Bool)
    → a ≡ ltb x 64
    → b ≡ ltb y 64
    → c ≡ ltb z 64
    → e ≡ (ltb z 64 && z % 4 == 0)
    → sign ≡ (a && b && c && true)
    → (x < 64 → y < 64 → z < 64 → low ≡ (z % 4 == 0))
    → (sign && low) ≡ (a && b && e)
last_tests x y z sign low a b c e ha hb hc he hs hl = elim (Bool-cases sign) [
  | inl t ↦
      let px : x < 64 = ground arith in
      let py : y < 64 = ground arith in
      let pz : z < 64 = ground arith in let l = hl px py pz in ground arith
  | inr f ↦ ground arith
]

-- The last group adds nothing to `ret` exactly where its characters end a key.
last_group :
    (s : Bool) (a b c : ℕ)
    → a < 256
    → b < 256
    → c < 256
    → (bit_or (shr (decode_base64 s a b c b'A') 31) (bit_and (decode_base64 s a b c b'A') 255) == 0)
      ≡ (is_key_char a && is_key_char b && ends_key c)
last_group s a b c ha hb hc =
    let v = decode_base64 s a b c b'A' in
    or-zero (shr v 31) (bit_and v 255)
    ∙ last_tests (decode_sextet s a) (decode_sextet s b) (decode_sextet s c) (shr v 31 == 0)
        (bit_and v 255 == 0) (is_key_char a) (is_key_char b) (is_key_char c) (ends_key c)
        (is_key_char_lem s a ha) (is_key_char_lem s b hb) (is_key_char_lem s c hc)
        (ends_key_lem s c hc)
        (group_sign s a b c b'A' ha hb hc (omega arith)
          ∙ ap (λ (x : Bool). is_key_char a && is_key_char b && is_key_char c && x) A_is_key_char)
        (low_byte s a b c)

-- What `is_valid_key` asks of `n` groups of four and the last group.
abbrev pub good : ℕ → Bytes → Bool
good (suc n) (a ∷ b ∷ c ∷ d ∷ t) =
    is_key_char a && is_key_char b && is_key_char c && is_key_char d && good n t
good zero (a ∷ b ∷ c ∷ t) = is_key_char a && is_key_char b && ends_key c
good _ _ = false

u8-or : (a b : ℕ) → a < 256 → b < 256 → (u8 (bit_or a b) == 0) ≡ (a == 0 && b == 0)
u8-or a b h k = ground (arith, u8-bit_or a b h k)

regroup : (z a b c d r : Bool) → ((z && (a && b && c && d)) && r) ≡ (z && (a && b && c && d && r))
regroup z a b c d r = ground arith

pub loop_good :
    (s : Bool) (n : ℕ) (t : Bytes) (ret : ℕ)
    → Quads t n
    → All IsByte t
    → ret < 256
    → ((key_from_base64_loop s n ret t).0 < 256)
      × (((key_from_base64_loop s n ret t).0 == 0) ≡ (ret == 0 && good n t))
unfolding key_from_base64_loop
loop_good s n t ret (last a b c) h k =
    let v = decode_base64 s a b c b'A' in
    let g = last_group s a b c h.0 h.1.0 h.1.1.0 in
    let sign = decode_base64_sign s a b c b'A' h.0 h.1.0 h.1.1.0 (omega arith) in
    let w = (or_bit (shr v 31) (bit_and v 255) sign.0 (omega (arith, bit_and_mask 8 v))).0 in
    let u = u8-bit_or ret (bit_or (shr v 31) (bit_and v 255)) k w in
    (u.0, u8-or ret (bit_or (shr v 31) (bit_and v 255)) k w ∙ ap (λ (x : Bool). ret == 0 && x) g)
loop_good s n t ret (quad {n = m} {rest} a b c d q) h k =
    let v = decode_base64 s a b c d in
    let g = group_sign s a b c d h.0 h.1.0 h.1.1.0 h.1.1.1.0 in
    let sign = decode_base64_sign s a b c d h.0 h.1.0 h.1.1.0 h.1.1.1.0 in
    let w : shr v 31 < 256 = omega (arith, sign.0) in
    let u = u8-bit_or ret (shr v 31) k w in
    let r = loop_good s m rest (u8 (bit_or ret (shr v 31))) q h.1.1.1.1 u.0 in
    (
      r.0,
      r.1
          ∙ ap (λ (x : Bool). x && good m rest)
              (u8-or ret (shr v 31) k w ∙ ap (λ (x : Bool). ret == 0 && x) g)
          ∙ regroup (ret == 0) (is_key_char a) (is_key_char b) (is_key_char c) (is_key_char d)
              (good m rest),
    )
