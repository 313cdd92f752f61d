-- ===== src/Encoding/Base64/RoundTrip.antt =====
-- `key_to_base64` and `key_from_base64` against one another, both ways.
use wireguard_android_expres.Base.{
  ℕ, zero, suc, ◌+◌, ◌*◌, ◌<◌, ◌≡◌, refl, ap, sym, ◌∙◌, subst, arith, Bool, true, [], ◌∷◌, Bytes,
  length, All, bit_and, bit_and_mask, shr, char_at,
}
use wireguard_android_expres.Encoding.Hex.{IsByte}
use wireguard_android_expres.Encoding.Base64.{
  sext0, sext1, sext2, sext3, encode_base64_lem, byte_of_lem, decode_group,
}
use wireguard_android_expres.Encoding.{
  decoded, none_set, encode_sextet, key_to_base64_loop, key_to_base64, decode_base64, byte_of,
  key_from_base64_loop, key_from_base64,
}

-- `n` groups of three bytes, and two more.
pub data Triples : Bytes → ℕ → Type 0 where
  two : (a b : ℕ) → Triples (a ∷ b ∷ []) 0
  three : {n : ℕ} {rest : Bytes} (a b c : ℕ) → Triples rest n → Triples (a ∷ b ∷ c ∷ rest) (suc n)

pub Triples-length : (n : ℕ) (key : Bytes) → length key ≡ n * 3 + 2 → Triples key n
Triples-length zero (a ∷ b ∷ []) h = two a b
Triples-length zero (a ∷ b ∷ c ∷ key) h = absurd (omega arith)
Triples-length (suc n) (a ∷ b ∷ c ∷ key) h = three a b c (Triples-length n key (omega arith))
Triples-length n (a ∷ []) h = absurd (omega arith)
Triples-length n [] h = absurd (omega arith)
Triples-length (suc n) (a ∷ b ∷ []) h = absurd (omega arith)

-- The number that four characters stand for, from three bytes.
decode-encode :
    (s : Bool) (a b c : ℕ)
    → a < 256
    → b < 256
    → c < 256
    → decode_base64 s
        (encode_sextet (sext0 a))
        (encode_sextet (sext1 a b))
        (encode_sextet (sext2 b c))
        (encode_sextet (sext3 c))
      ≡ a * 65536 + b * 256 + c
decode-encode s a b c ha hb hc =
    decode_group s (sext0 a) (sext1 a b) (sext2 b c) (sext3 c) (omega arith) (omega arith)
      (omega arith) (omega arith)
    ∙ omega arith

pub encode_sextet_zero : encode_sextet 0 ≡ b'A'
unfolding encode_sextet
encode_sextet_zero = refl

-- The numbers of a group: its sign and its bytes.
group_bytes :
    (a b c : ℕ)
    → a < 256
    → b < 256
    → c < 256
    → let v = a * 65536 + b * 256 + c in
      (shr v 31 ≡ 0) × (byte_of v 16 ≡ a) × (byte_of v 8 ≡ b) × (byte_of v 0 ≡ c)
group_bytes a b c ha hb hc =
    let v = a * 65536 + b * 256 + c in
    (
      omega arith,
      omega (arith, byte_of_lem v 16),
      omega (arith, byte_of_lem v 8),
      omega (arith, byte_of_lem v 0),
    )

pub loop-key_to_base64 :
    (s : Bool) (n : ℕ) (key : Bytes)
    → Triples key n
    → All IsByte key
    → key_from_base64_loop s n 0 (key_to_base64_loop n key) ≡ (0, key)
unfolding key_to_base64_loop key_from_base64_loop
loop-key_to_base64 s n key (two a b) h =
    let g = group_bytes a b 0 h.0 h.1.0 (omega arith) in
    let e =
      ap
        (decode_base64 s (encode_sextet (sext0 a)) (encode_sextet (sext1 a b))
          (encode_sextet (sext2 b 0)))
        (sym encode_sextet_zero)
      ∙ decode-encode s a b 0 h.0 h.1.0 (omega arith) in
    let low : bit_and (a * 65536 + b * 256 + 0) 255 ≡ 0 =
      omega (arith, bit_and_mask 8 (a * 65536 + b * 256 + 0)) in
    rw (encode_base64_lem a b 0 h.0 h.1.0 (omega arith)) (rw (e, g.0, g.1, g.2, low) refl)
loop-key_to_base64 s n key (three {n = m} {rest} a b c t) h =
    let g = group_bytes a b c h.0 h.1.0 h.1.1.0 in
    rw (encode_base64_lem a b c h.0 h.1.0 h.1.1.0) (
      rw (decode-encode s a b c h.0 h.1.0 h.1.1.0, g.0, g.1, g.2, g.3)
        (ap (λ (p : ℕ × Bytes). (p.0, a ∷ b ∷ c ∷ p.1)) (loop-key_to_base64 s m rest t h.1.1.1)))

key_to_base64_text :
    (n : ℕ) (key : Bytes)
    → Triples key n
    → All IsByte key
    → (length (key_to_base64_loop n key) ≡ n * 4 + 4)
      × (char_at (key_to_base64_loop n key) (n * 4 + 3) ≡ b'=')
unfolding key_to_base64_loop
key_to_base64_text n key (two a b) h =
    rw (encode_base64_lem a b 0 h.0 h.1.0 (omega arith)) (refl, refl)
key_to_base64_text n key (three {n = m} {rest} a b c t) h =
    let (len, eq) = key_to_base64_text m rest t h.1.1.1 in
    rw (encode_base64_lem a b c h.0 h.1.0 h.1.1.0) (
      omega (arith, len),
      subst
          (λ i.
            char_at
              (encode_sextet (sext0 a)
                ∷ encode_sextet (sext1 a b)
                ∷ encode_sextet (sext2 b c)
                ∷ encode_sextet (sext3 c)
                ∷ key_to_base64_loop m rest)
              i
            ≡ b'=')
          {x = suc (suc (suc (suc (m * 4 + 3))))} (omega arith) eq,
    )

-- `key_from_base64` reads back what `key_to_base64` wrote, for every key of 32 bytes.
pub key_from_base64-key_to_base64 :
    (s : Bool) (key : Bytes)
    → length key ≡ 32
    → All IsByte key
    → key_from_base64 s (key_to_base64 key) ≡ decoded true key
unfolding key_from_base64 key_to_base64 none_set
key_from_base64-key_to_base64 s key l h =
    let t = Triples-length 10 key l in
    let (len, eq) = key_to_base64_text 10 key t h in
    rw (len, eq)
      (ap (λ (p : ℕ × Bytes). decoded (none_set p.0) p.1) (loop-key_to_base64 s 10 key t h))
