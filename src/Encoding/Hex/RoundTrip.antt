-- ===== src/Encoding/Hex/RoundTrip.antt =====
-- `key_to_hex` and `key_from_hex` against one another, both ways.
use wireguard_android_expres.Base.{
  ℕ, zero, suc, ◌+◌, ◌*◌, ◌%◌, ◌<◌, ◌≡◌, ◌≢◌, subst, refl, ap, ap₂, sym, ◌∙◌, arith, ◌↔◌, Bool,
  true, ◌&&◌, ◌==◌, [], ◌∷◌, map, Bytes, length, All, u8, bit_or, bit_and, bit_and_mask, shr,
}
use native.Mathlib.Decide.{ℕ_discrete}
use wireguard_android_expres.Encoding.{
  unset, decoded, none_set, encode_nibble, key_to_hex, decode_nibble, key_from_hex_loop,
  key_from_hex,
}
use wireguard_android_expres.Encoding.Hex.{
  IsByte, none_set_lem, u8-bit_or, is_hex, hex_value, lower_hex, bad_lem, val_lem, lower_lem,
  nibble_lem, pair_lem,
}

-- Twice as many characters as there are bytes, in the form that the loop consumes.
pub data Pairs : Bytes → ℕ → Type 0 where
  none_left : Pairs [] 0
  pair : {n : ℕ} {rest : Bytes} (c d : ℕ) → Pairs rest n → Pairs (c ∷ d ∷ rest) (suc n)

pub Pairs-length : (n : ℕ) (hex : Bytes) → length hex ≡ n * 2 → Pairs hex n
Pairs-length zero [] h = none_left
Pairs-length zero (c ∷ hex) h = absurd (omega arith)
Pairs-length (suc n) [] h = absurd (omega arith)
Pairs-length (suc n) (c ∷ []) h = absurd (omega arith)
Pairs-length (suc n) (c ∷ d ∷ hex) h = pair c d (Pairs-length n hex (omega arith))

abbrev pub all_hex : Bytes → Bool
all_hex [] = true
all_hex (c ∷ hex) = is_hex c && all_hex hex

-- What the loop leaves in `ret`: 0 exactly when it was 0 and every character is a digit.
loop_ret :
    (n : ℕ) (hex : Bytes) (ret : ℕ)
    → Pairs hex n
    → ret < 256
    → All IsByte hex
    → ((key_from_hex_loop ret hex).0 < 256)
      × (((key_from_hex_loop ret hex).0 == 0) ≡ ((ret == 0) && all_hex hex))
unfolding key_from_hex_loop
loop_ret n hex ret none_left h b = ground arith
loop_ret n hex ret (pair {n = m} {rest} c d p) h b =
    let e = bad_lem c b.0 in
    let f = bad_lem d b.1.0 in
    let hi = u8-bit_or ret (decode_nibble c).bad h (ground arith) in
    let lo =
      u8-bit_or (u8 (bit_or ret (decode_nibble c).bad)) (decode_nibble d).bad hi.0 (ground arith) in
    let r =
      loop_ret m rest (u8 (bit_or (u8 (bit_or ret (decode_nibble c).bad)) (decode_nibble d).bad)) p
        lo.0 b.1.1 in
    (r.0, ground arith)

pub pair_digits :
    (h l : ℕ)
    → h < 16
    → l < 16
    → let k = u8 (bit_or (u8 (h * 16)) l) in (k < 256) × (shr k 4 ≡ h) × (bit_and k 0xf ≡ l)
pair_digits h l p q =
    let e = pair_lem h l p q in
    rw e (omega arith, omega arith, omega (arith, bit_and_mask 4 (h * 16 + l)))

byte_lem :
    (c d : ℕ)
    → c < 256
    → d < 256
    → is_hex c ≡ true
    → is_hex d ≡ true
    → let k = u8 (bit_or (u8 ((decode_nibble c).val * 16)) (decode_nibble d).val) in
      (k < 256)
      × (encode_nibble (shr k 4) ≡ lower_hex c)
      × (encode_nibble (bit_and k 0xf) ≡ lower_hex d)
byte_lem c d bc bd hc hd =
    let vc = lower_lem c bc hc in
    let vd = lower_lem d bd hd in
    let k = pair_digits (hex_value c) (hex_value d) vc.0 vd.0 in
    rw (val_lem c bc hc, val_lem d bd hd)
      (k.0, ap encode_nibble k.1 ∙ vc.1, ap encode_nibble k.2 ∙ vd.1)

-- On digits alone, the loop's bytes are in range and print as the text in lower case.
loop_key :
    (n : ℕ) (hex : Bytes) (ret : ℕ)
    → Pairs hex n
    → All IsByte hex
    → all_hex hex ≡ true
    → let key = (key_from_hex_loop ret hex).1 in
      (length key ≡ n) × All IsByte key × (key_to_hex key ≡ map lower_hex hex)
unfolding key_from_hex_loop key_to_hex
loop_key n hex ret none_left b a = (refl, tt, refl)
loop_key n hex ret (pair {n = m} {rest} c d p) b a =
    let hc : is_hex c ≡ true = ground arith in
    let hd : is_hex d ≡ true = ground arith in
    let hr : all_hex rest ≡ true = ground arith in
    let k = byte_lem c d b.0 b.1.0 hc hd in
    let r =
      loop_key m rest (u8 (bit_or (u8 (bit_or ret (decode_nibble c).bad)) (decode_nibble d).bad)) p
        b.1.1 hr in
    (ap suc r.0, (k.0, r.1), ap₂ ◌∷◌ k.1 (ap₂ ◌∷◌ k.2 r.2))

-- A key's text has two characters for each byte, all of them digits.
key_to_hex_text :
    (key : Bytes)
    → All IsByte key
    → (length (key_to_hex key) ≡ length key * 2)
      × All IsByte (key_to_hex key)
      × (all_hex (key_to_hex key) ≡ true)
unfolding key_to_hex
key_to_hex_text [] b = (refl, tt, refl)
key_to_hex_text (k ∷ key) b =
    let r = key_to_hex_text key b.1 in
    let hi = nibble_lem (shr k 4) (omega arith) in
    let lo = nibble_lem (bit_and k 0xf) (omega (arith, bit_and_mask 4 k)) in
    (omega (arith, r.0), (hi.2, (lo.2, r.1)), rw (hi.0, lo.0) r.2)

nibble_val : (v : ℕ) → v < 16 → (decode_nibble (encode_nibble v)).val ≡ v
nibble_val v h = let n = nibble_lem v h in val_lem (encode_nibble v) n.2 n.0 ∙ n.1

loop-key_to_hex :
    (key : Bytes) (ret : ℕ) → All IsByte key → (key_from_hex_loop ret (key_to_hex key)).1 ≡ key
unfolding key_from_hex_loop key_to_hex
loop-key_to_hex [] ret b = refl
loop-key_to_hex (k ∷ key) ret b =
    let lo : bit_and k 0xf ≡ k % 16 = bit_and_mask 4 k in
    let e = pair_lem (shr k 4) (bit_and k 0xf) (omega arith) (omega (arith, lo)) in
    ap₂ ◌∷◌
      (rw (nibble_val (shr k 4) (omega arith), nibble_val (bit_and k 0xf) (omega (arith, lo)))
        (omega (arith, e, lo)))
      (loop-key_to_hex key _ b.1)

-- `key_from_hex` reads back what `key_to_hex` wrote, for every key of 32 bytes.
pub key_from_hex-key_to_hex :
    (key : Bytes)
    → length key ≡ 32
    → All IsByte key
    → key_from_hex (key_to_hex key) ≡ decoded true key
unfolding key_from_hex
key_from_hex-key_to_hex key l b =
    let t = key_to_hex_text key b in
    let n : length (key_to_hex key) ≡ 64 = omega (arith, t.0) in
    let r =
      loop_ret 32 (key_to_hex key) 0 (Pairs-length 32 (key_to_hex key) (omega arith)) (omega arith)
        t.1 in
    let good : none_set (key_from_hex_loop 0 (key_to_hex key)).0 ≡ true =
      none_set_lem _ r.0 ∙ r.1 ∙ rw t.2 in
    rw n (ap₂ decoded good (loop-key_to_hex key 0 b))

key_from_hex_long :
    (hex : Bytes)
    → All IsByte hex
    → length hex ≡ 64
    → key_from_hex hex ≡ decoded (all_hex hex) (key_from_hex_loop 0 hex).1
unfolding key_from_hex
key_from_hex_long hex b n =
    let r = loop_ret 32 hex 0 (Pairs-length 32 hex (omega arith)) (omega arith) b in
    rw n (ap (λ t. decoded t (key_from_hex_loop 0 hex).1) (none_set_lem _ r.0 ∙ r.1))

key_from_hex_short : (hex : Bytes) → length hex ≢ 64 → key_from_hex hex ≡ unset
unfolding key_from_hex
key_from_hex_short hex n = ground arith

decoded-injective : {a b : Bool} {k l : Bytes} → decoded a k ≡ decoded b l → (a ≡ b) × (k ≡ l)
decoded-injective e = (cc, cc)

-- What a successful `key_from_hex` read: 64 digits, and a key of 32 bytes that prints as that
-- text in lower case.
pub key_to_hex-key_from_hex :
    (hex key : Bytes)
    → All IsByte hex
    → key_from_hex hex ≡ decoded true key
    → (length hex ≡ 64)
      × (all_hex hex ≡ true)
      × (length key ≡ 32)
      × All IsByte key
      × (key_to_hex key ≡ map lower_hex hex)
key_to_hex-key_from_hex hex key b e = elim (ℕ_discrete (length hex) 64) [
  | no n ↦ absurd (unset≢decoded (sym (key_from_hex_short hex n) ∙ e))
  | yes n ↦
      let q = decoded-injective (sym (key_from_hex_long hex b n) ∙ e) in
      let r = loop_key 32 hex 0 (Pairs-length 32 hex (omega arith)) b q.0 in
      let f = λ (k : Bytes). (length k ≡ 32) × All IsByte k × (key_to_hex k ≡ map lower_hex hex) in
      let g = subst f q.1 r in (n, q.0, g.0, g.1, g.2)
]
  where
    unset≢decoded : unset ≢ decoded true key
    unset≢decoded x = cc

-- `key_from_hex` on any text: it accepts exactly the 64 hexadecimal digits, of either case.
pub key_from_hex_iff :
    (hex : Bytes)
    → All IsByte hex
    → ((key : Bytes) × (key_from_hex hex ≡ decoded true key))
      ↔ ((length hex ≡ 64) × (all_hex hex ≡ true))
key_from_hex_iff hex b = (
  (λ k. let r = key_to_hex-key_from_hex hex k.0 b k.1 in (r.0, r.1)),
  λ h. (
    (key_from_hex_loop 0 hex).1,
    key_from_hex_long hex b h.0 ∙ ap (λ t. decoded t (key_from_hex_loop 0 hex).1) h.1,
  ),
)
