-- ===== src/Encoding/Base64.antt =====
-- Facts about the base64 text of keys.
pub mod Sound
pub mod RoundTrip
use wireguard_android_expres.Base.{
  ℕ, zero, suc, ◌+◌, ◌-◌, ◌*◌, ◌/◌, ◌%◌, ◌^◌, ◌≤◌, ◌<◌, ◌≡◌, ◌≢◌, refl, ap, ap₂, sym, ◌∙◌, subst,
  arith, Bool, true, false, ◌&&◌, ◌||◌, not, ◌==◌, ==_iff, leb, ltb, if◌then◌else◌, List, [], ◌∷◌,
  ◌++◌, Bytes, length, All, all_below, all_below_sound, u8, bit_or, bit_or_bounds, bit_or-lt-pow,
  bit_or_sum, bit_and, bit_and_mask, shr, shl32, inl, inr, ◌⊎◌, Bool-cases, minus_one, char_at,
}
use wireguard_android_expres.Encoding.Hex.{IsByte, u8-bit_or, none_set_lem}
use wireguard_android_expres.Encoding.{
  Decoded, unset, decoded, none_set, encode_sextet, encode_base64, key_to_base64_loop,
  key_to_base64, decode_sextet, decode_base64, byte_of, key_from_base64_loop, key_from_base64,
}

encode_table :
    (s : Bool)
    → all_below 64 (λ v. (decode_sextet s (encode_sextet v) == v) && ltb (encode_sextet v) 256)
      ≡ true
unfolding all_below encode_sextet decode_sextet
encode_table true = refl
encode_table false = refl

decode_table :
    (s : Bool)
    → all_below 256 (λ c.
      (decode_sextet s c == minus_one)
      || (ltb (decode_sextet s c) 64 && (encode_sextet (decode_sextet s c) == c)))
      ≡ true
unfolding all_below encode_sextet decode_sextet
decode_table true = refl
decode_table false = refl

-- The alphabet's 64 characters are read back, whether `char` is signed or not.
pub encode_lem :
    (s : Bool) (v : ℕ) → v < 64 → (decode_sextet s (encode_sextet v) ≡ v) × (encode_sextet v < 256)
encode_lem s v h =
    let t =
      all_below_sound 64
        (λ v. (decode_sextet s (encode_sextet v) == v) && ltb (encode_sextet v) 256) v
        (encode_table s) h in
    ground arith

-- Any other character gives -1.
pub decode_lem :
    (s : Bool) (c : ℕ)
    → c < 256
    → (decode_sextet s c ≡ minus_one)
      ⊎ ((decode_sextet s c < 64) × (encode_sextet (decode_sextet s c) ≡ c))
decode_lem s c h =
    let t =
      all_below_sound 256
        (λ c.
          (decode_sextet s c == minus_one)
          || (ltb (decode_sextet s c) 64 && (encode_sextet (decode_sextet s c) == c)))
        c (decode_table s) h in
    ground arith

-- Four 6-bit values side by side.
abbrev pub join : ℕ → ℕ → ℕ → ℕ → ℕ
join x y z w = x * 262144 + y * 4096 + z * 64 + w

pub or_sextets :
    (x y z w : ℕ)
    → x < 64
    → y < 64
    → z < 64
    → w < 64
    → bit_or (bit_or (bit_or (shl32 x 18) (shl32 y 12)) (shl32 z 6)) (shl32 w 0) ≡ join x y z w
or_sextets x y z w hx hy hz hw =
    let e1 = bit_or_sum 18 x (shl32 x 18) (shl32 y 12) (omega arith) (omega arith) in
    let a = bit_or (shl32 x 18) (shl32 y 12) in
    let e2 = bit_or_sum 12 (x * 64 + y) a (shl32 z 6) (omega (arith, e1)) (omega arith) in
    let b = bit_or a (shl32 z 6) in
    let e3 =
      bit_or_sum 6 (x * 4096 + y * 64 + z) b (shl32 w 0) (omega (arith, e1, e2)) (omega arith) in
    omega (arith, e1, e2, e3)

-- The sextets that `encode_base64` cuts three bytes into.
abbrev pub sext0 : ℕ → ℕ
sext0 a = a / 4

abbrev pub sext1 : ℕ → ℕ → ℕ
sext1 a b = a % 4 * 16 + b / 16

abbrev pub sext2 : ℕ → ℕ → ℕ
sext2 b c = b % 16 * 4 + c / 64

abbrev pub sext3 : ℕ → ℕ
sext3 c = c % 64

pub encode_base64_lem :
    (a b c : ℕ)
    → a < 256
    → b < 256
    → c < 256
    → encode_base64 a b c
      ≡ encode_sextet (sext0 a)
        ∷ encode_sextet (sext1 a b)
        ∷ encode_sextet (sext2 b c)
        ∷ encode_sextet (sext3 c)
        ∷ []
unfolding encode_base64
encode_base64_lem a b c ha hb hc =
    let m0 = bit_and_mask 6 (shr a 2) in
    let o1 = bit_or_sum 4 a (shl32 a 4) (shr b 4) (omega arith) (omega arith) in
    let m1 = bit_and_mask 6 (bit_or (shl32 a 4) (shr b 4)) in
    let o2 = bit_or_sum 2 b (shl32 b 2) (shr c 6) (omega arith) (omega arith) in
    let m2 = bit_and_mask 6 (bit_or (shl32 b 2) (shr c 6)) in
    let m3 = bit_and_mask 6 c in
    ap₂ ◌∷◌ (ap encode_sextet (omega (arith, m0))) (
      ap₂ ◌∷◌ (ap encode_sextet (omega (arith, m1, o1))) (
        ap₂ ◌∷◌ (ap encode_sextet (omega (arith, m2, o2)))
          (ap₂ ◌∷◌ (ap encode_sextet (omega (arith, m3))) refl)))

pub byte_of_lem : (val k : ℕ) → byte_of val k ≡ val / 2 ^ k % 256
byte_of_lem val k = bit_and_mask 8 (val / 2 ^ k)

-- Decoding a group of four characters of the alphabet.
pub decode_group :
    (s : Bool) (x y z w : ℕ)
    → x < 64
    → y < 64
    → z < 64
    → w < 64
    → decode_base64 s (encode_sextet x) (encode_sextet y) (encode_sextet z) (encode_sextet w)
      ≡ join x y z w
unfolding decode_base64
decode_group s x y z w hx hy hz hw =
    rw ((encode_lem s x hx).0, (encode_lem s y hy).0, (encode_lem s z hz).0, (encode_lem s w hw).0)
      (or_sextets x y z w hx hy hz hw)
