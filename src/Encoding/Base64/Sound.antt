-- ===== src/Encoding/Base64/Sound.antt =====
-- What `key_from_base64` accepts: the text that `key_to_base64` gives, and no other.
use wireguard_android_expres.Base.{
  ℕ, zero, suc, ◌+◌, ◌*◌, ◌^◌, ◌≤◌, ◌<◌, ◌≡◌, refl, ap, ap₂, sym, ◌∙◌, subst, arith, Bool, true,
  ==_iff, [], ◌∷◌, ◌++◌, Bytes, length, All, u8, bit_or, bit_or_bounds, bit_or-lt-pow, bit_and,
  bit_and_mask, shr, shl32, char_at, take,
}
use wireguard_android_expres.Encoding.Hex.{IsByte, u8-bit_or, none_set_lem}
use wireguard_android_expres.Encoding.Base64.{
  encode_lem, decode_lem, join, or_sextets, encode_base64_lem, byte_of_lem,
}
use wireguard_android_expres.Encoding.{
  decoded, none_set, encode_sextet, encode_base64, key_to_base64_loop, key_to_base64, decode_sextet,
  decode_base64, byte_of, key_from_base64_loop, key_from_base64,
}
use wireguard_android_expres.Encoding.Base64.RoundTrip.{encode_sextet_zero}

-- The text has a group of four for each group of bytes, and ends in `=`.
pub data Quads : Bytes → ℕ → Type 0 where
  last : (a b c : ℕ) → Quads (a ∷ b ∷ c ∷ b'=' ∷ []) 0
  quad : {n : ℕ} {rest : Bytes} (a b c d : ℕ) → Quads rest n → Quads (a ∷ b ∷ c ∷ d ∷ rest) (suc n)

pub Quads-length :
    (n : ℕ) (t : Bytes) → length t ≡ n * 4 + 4 → char_at t (n * 4 + 3) ≡ b'=' → Quads t n
Quads-length zero (a ∷ b ∷ c ∷ d ∷ []) h e =
    subst (λ x. Quads (a ∷ b ∷ c ∷ x ∷ []) 0) (sym e) (last a b c)
Quads-length (suc n) (a ∷ b ∷ c ∷ d ∷ t) h e = quad a b c d (
    Quads-length n t (omega arith) (
      subst (λ i. char_at (a ∷ b ∷ c ∷ d ∷ t) i ≡ b'=') {y = suc (suc (suc (suc (n * 4 + 3))))}
        (omega arith) e))
Quads-length _ _ h e = absurd (omega arith)

-- A character of the alphabet, by the value that it decodes to.
abbrev Valid : Bool → ℕ → Type 0
Valid s c = (decode_sextet s c < 64) × (encode_sextet (decode_sextet s c) ≡ c)

or4_bounds :
    (x y z w : ℕ)
    → let v = bit_or (bit_or (bit_or x y) z) w in (x ≤ v) × (y ≤ v) × (z ≤ v) × (w ≤ v)
or4_bounds x y z w = omega (
  arith,
  bit_or_bounds x y,
  bit_or_bounds (bit_or x y) z,
  bit_or_bounds (bit_or (bit_or x y) z) w,
)

or4-lt :
    (x y z w : ℕ)
    → bit_or (bit_or (bit_or (shl32 x 18) (shl32 y 12)) (shl32 z 6)) (shl32 w 0) < 2 ^ 32
or4-lt x y z w =
    bit_or-lt-pow 32 _ (shl32 w 0)
      (bit_or-lt-pow 32 _ (shl32 z 6)
        (bit_or-lt-pow 32 (shl32 x 18) (shl32 y 12) (omega arith) (omega arith)) (omega arith))
      (omega arith)

-- `val >> 31` is a bit, and is 0 only if no character gave -1.
pub decode_base64_sign :
    (s : Bool) (a b c d : ℕ)
    → a < 256
    → b < 256
    → c < 256
    → d < 256
    → (shr (decode_base64 s a b c d) 31 < 2)
      × (shr (decode_base64 s a b c d) 31 ≡ 0 → Valid s a × Valid s b × Valid s c × Valid s d)
unfolding decode_base64
decode_base64_sign s a b c d ha hb hc hd =
    let x = decode_sextet s a in
    let y = decode_sextet s b in
    let z = decode_sextet s c in
    let w = decode_sextet s d in
    let m = or4_bounds (shl32 x 18) (shl32 y 12) (shl32 z 6) (shl32 w 0) in
    let u = or4-lt x y z w in
    (
      omega arith,
      λ e. (
        ground (arith, decode_lem s a ha),
        ground (arith, decode_lem s b hb),
        ground (arith, decode_lem s c hc),
        ground (arith, decode_lem s d hd),
      ),
    )

-- The bytes of four valid characters are encoded as these characters again.
group_sound :
    (s : Bool) (a b c d : ℕ)
    → Valid s a
    → Valid s b
    → Valid s c
    → Valid s d
    → let v = decode_base64 s a b c d in
      encode_base64 (byte_of v 16) (byte_of v 8) (byte_of v 0) ≡ a ∷ b ∷ c ∷ d ∷ []
unfolding decode_base64
group_sound s a b c d (xa, ea) (xb, eb) (xc, ec) (xd, ed) =
    let j =
      or_sextets (decode_sextet s a) (decode_sextet s b) (decode_sextet s c) (decode_sextet s d) xa
        xb xc xd in
    rw j (
      let v =
        join (decode_sextet s a) (decode_sextet s b) (decode_sextet s c) (decode_sextet s d) in
      let p = byte_of_lem v 16 in
      let q = byte_of_lem v 8 in
      let r = byte_of_lem v 0 in
      encode_base64_lem (byte_of v 16) (byte_of v 8) (byte_of v 0) (omega (arith, p))
        (omega (arith, q)) (omega (arith, r))
      ∙ ap₂ ◌∷◌ (ap encode_sextet (omega (arith, p)) ∙ ea) (
          ap₂ ◌∷◌ (ap encode_sextet (omega (arith, p, q)) ∙ eb) (
            ap₂ ◌∷◌ (ap encode_sextet (omega (arith, q, r)) ∙ ec)
              (ap₂ ◌∷◌ (ap encode_sextet (omega (arith, r)) ∙ ed) refl))))

pub decode_sextet_A : (s : Bool) → decode_sextet s b'A' ≡ 0
decode_sextet_A s =
    subst (λ c. decode_sextet s c ≡ 0) encode_sextet_zero (encode_lem s 0 (omega arith)).0

byte_of-lt : (v k : ℕ) → byte_of v k < 256
byte_of-lt v k = omega (arith, byte_of_lem v k)

-- The last group adds its sign and its low byte.
pub or_bit : (a b : ℕ) → a < 2 → b < 256 → (bit_or a b < 256) × (bit_or a b ≡ 0 → (a ≡ 0) × (b ≡ 0))
or_bit a b h k = ground (arith, bit_or_bounds a b, bit_or-lt-pow 8 a b)

loop_sound :
    (s : Bool) (n : ℕ) (t : Bytes) (ret : ℕ)
    → Quads t n
    → All IsByte t
    → ret < 256
    → let (r, key) = key_from_base64_loop s n ret t in
      (r < 256)
      × (r ≡ 0
          → (ret ≡ 0) × (key_to_base64_loop n key ≡ t) × (length key ≡ n * 3 + 2) × All IsByte key)
unfolding key_from_base64_loop key_to_base64_loop
loop_sound s n t ret (last a b c) h k =
    let v = decode_base64 s a b c b'A' in
    let g = decode_base64_sign s a b c b'A' h.0 h.1.0 h.1.1.0 (omega arith) in
    let m = bit_and_mask 8 v in
    let o = or_bit (shr v 31) (bit_and v 255) (omega (arith, g.0)) (omega (arith, m)) in
    let u = u8-bit_or ret (bit_or (shr v 31) (bit_and v 255)) k o.0 in
    (
      u.0,
      λ e.
          let z = u.1.0 e in
          let y = o.1 z.1 in
          let w = g.1 y.0 in
          let low : byte_of v 0 ≡ 0 = omega (arith, m, y.1, byte_of_lem v 0) in
          let text =
            ap (encode_base64 (byte_of v 16) (byte_of v 8)) (sym low)
            ∙ group_sound s a b c b'A' w.0 w.1 w.2 w.3 in
          (
            z.0,
            ap (λ x. take 3 x ++ (b'=' ∷ [])) text,
            refl,
            (byte_of-lt v 16, (byte_of-lt v 8, tt)),
          ),
    )
loop_sound s n t ret (quad {n = m} {rest} a b c d q) h k =
    let v = decode_base64 s a b c d in
    let g = decode_base64_sign s a b c d h.0 h.1.0 h.1.1.0 h.1.1.1.0 in
    let u = u8-bit_or ret (shr v 31) k (omega (arith, g.0)) in
    let r = loop_sound s m rest (u8 (bit_or ret (shr v 31))) q h.1.1.1.1 u.0 in
    (
      r.0,
      λ e.
          let (z, text, len, bytes) = r.1 e in
          let p = u.1.0 z in
          let w = g.1 p.1 in
          (
            p.0,
            rw (group_sound s a b c d w.0 w.1 w.2 w.3) (ap (λ y. a ∷ b ∷ c ∷ d ∷ y) text),
            omega (arith, len),
            (byte_of-lt v 16, (byte_of-lt v 8, (byte_of-lt v 0, bytes))),
          ),
    )

key_from_base64_inv :
    (s : Bool) (base64 key : Bytes)
    → key_from_base64 s base64 ≡ decoded true key
    → (length base64 ≡ 44)
      × (char_at base64 43 ≡ b'=')
      × (none_set (key_from_base64_loop s 10 0 base64).0 ≡ true)
      × ((key_from_base64_loop s 10 0 base64).1 ≡ key)
unfolding key_from_base64
key_from_base64_inv s base64 key e = ground arith

-- A text that `key_from_base64` accepts is the one text that `key_to_base64` gives for the key,
-- which has 32 bytes: no other spelling of a key is accepted.
pub key_to_base64-key_from_base64 :
    (s : Bool) (base64 key : Bytes)
    → All IsByte base64
    → key_from_base64 s base64 ≡ decoded true key
    → (key_to_base64 key ≡ base64) × (length key ≡ 32) × All IsByte key
unfolding key_to_base64
key_to_base64-key_from_base64 s base64 key h e =
    let (len, eq, good, k) = key_from_base64_inv s base64 key e in
    let (lt, r) = loop_sound s 10 base64 0 (Quads-length 10 base64 len eq) h (omega arith) in
    let (z, text, n, bytes) = r ((==_iff _ 0).0 (sym (none_set_lem _ lt) ∙ good)) in
    let f = λ (x : Bytes). (key_to_base64_loop 10 x ≡ base64) × (length x ≡ 32) × All IsByte x in
    subst f k (text, n, bytes)
