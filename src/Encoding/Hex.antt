-- ===== src/Encoding/Hex.antt =====
-- Facts about the hexadecimal text of keys, and about the accumulated error byte.
pub mod RoundTrip
use wireguard_android_expres.Base.{
  ℕ, zero, suc, ◌+◌, ◌-◌, ◌*◌, ◌/◌, ◌%◌, ◌^◌, ◌≤◌, ◌<◌, ◌≡◌, ◌≢◌, subst, refl, ap, ap₂, sym, ◌∙◌,
  arith, ◌↔◌, Bool, true, false, ◌&&◌, ◌||◌, not, ◌==◌, ==_iff, leb, if◌then◌else◌, List, [], ◌∷◌,
  map, Bytes, length, All, all_below, all_below_sound, u8, bit_or, bit_or_bounds, bit_or-lt-pow,
  bit_or_sum, bit_and, bit_and_mask, shr, inl, inr, ◌⊎◌, Bool-cases,
}
use native.Mathlib.Decide.{ℕ_discrete}
use wireguard_android_expres.Ctype.Laws.{same, same-eq}
use wireguard_android_expres.Encoding.{
  Decoded, unset, decoded, none_set, encode_nibble, key_to_hex, decode_nibble, key_from_hex_loop,
  key_from_hex, or_bytes, key_is_zero, wg_key_len_hex,
}

abbrev pub IsByte : ℕ → Type 0
IsByte c = c < 256

none_set_table : all_below 256 (λ r. same (none_set r) (r == 0)) ≡ true
unfolding all_below none_set
none_set_table = refl

pub none_set_lem : (r : ℕ) → r < 256 → none_set r ≡ (r == 0)
none_set_lem r h =
    same-eq _ _ (all_below_sound 256 (λ r. same (none_set r) (r == 0)) r none_set_table h)

-- The error byte stays a byte, and is 0 exactly when nothing was added to it.
pub u8-bit_or :
    (a b : ℕ)
    → a < 256
    → b < 256
    → (u8 (bit_or a b) < 256) × ((u8 (bit_or a b) ≡ 0) ↔ ((a ≡ 0) × (b ≡ 0)))
u8-bit_or a b h k = ground (arith, bit_or_bounds a b, bit_or-lt-pow 8 a b h k)

-- `key_is_zero` holds exactly when each byte of the key is 0.
or_bytes-zero :
    (key : Bytes) (acc : ℕ)
    → acc < 256
    → All IsByte key
    → (or_bytes acc key < 256) × ((or_bytes acc key ≡ 0) ↔ ((acc ≡ 0) × All (λ k. k ≡ 0) key))
unfolding or_bytes
or_bytes-zero [] acc h b = (h, ((λ e. (e, tt)), λ e. e.0))
or_bytes-zero (k ∷ key) acc h b =
    let step = u8-bit_or acc k h b.0 in
    let rest = or_bytes-zero key (u8 (bit_or acc k)) step.0 b.1 in
    (
      rest.0,
      (
        (λ e. let r = rest.1.0 e in let q = step.1.0 r.0 in (q.0, (q.1, r.1))),
        λ e. rest.1.1 (step.1.1 (e.0, e.1.0), e.1.1),
      ),
    )

pub key_is_zero_iff :
    (key : Bytes) → All IsByte key → (key_is_zero key ≡ true) ↔ All (λ k. k ≡ 0) key
unfolding key_is_zero
key_is_zero_iff key b =
    let z = or_bytes-zero key 0 (omega arith) b in
    let t = ==_iff (or_bytes 0 key) 0 in
    (
      (λ e. (z.1.0 (t.0 (sym (none_set_lem _ z.0) ∙ e))).1),
      λ a. none_set_lem _ z.0 ∙ t.1 (z.1.1 (refl, a)),
    )

-- What the two digits of a byte look like, by plain ranges.
abbrev pub is_hex : ℕ → Bool
is_hex c = (leb b'0' c && leb c b'9') || (leb b'a' c && leb c b'f') || (leb b'A' c && leb c b'F')

abbrev pub hex_value : ℕ → ℕ
hex_value c =
    if leb b'0' c && leb c b'9'
    then c - b'0'
    else if leb b'a' c
    then c - b'a' + 10
    else c - b'A' + 10

abbrev pub lower_hex : ℕ → ℕ
lower_hex c = if leb b'A' c && leb c b'F' then c + 32 else c

bad_table : all_below 256 (λ c. (decode_nibble c).bad == (if is_hex c then 0 else 255)) ≡ true
unfolding all_below decode_nibble
bad_table = refl

val_table : all_below 256 (λ c. not (is_hex c) || ((decode_nibble c).val == hex_value c)) ≡ true
unfolding all_below decode_nibble
val_table = refl

nibble_table :
    all_below 16 (λ v.
      is_hex (encode_nibble v)
      && (hex_value (encode_nibble v) == v)
      && (lower_hex (encode_nibble v) == encode_nibble v)
      && leb (encode_nibble v) 255)
    ≡ true
unfolding all_below encode_nibble
nibble_table = refl

lower_table :
    all_below 256 (λ c.
      not (is_hex c) || (leb (hex_value c) 15 && (encode_nibble (hex_value c) == lower_hex c)))
    ≡ true
unfolding all_below encode_nibble
lower_table = refl

pub bad_lem : (c : ℕ) → c < 256 → (decode_nibble c).bad ≡ (if is_hex c then 0 else 255)
bad_lem c h = (==_iff _ _).0 (
    all_below_sound 256 (λ c. (decode_nibble c).bad == (if is_hex c then 0 else 255)) c bad_table h)

pub val_lem : (c : ℕ) → c < 256 → is_hex c ≡ true → (decode_nibble c).val ≡ hex_value c
val_lem c h k =
    let t =
      all_below_sound 256 (λ c. not (is_hex c) || ((decode_nibble c).val == hex_value c)) c
        val_table h in
    ground arith

pub lower_lem :
    (c : ℕ)
    → c < 256
    → is_hex c ≡ true
    → (hex_value c < 16) × (encode_nibble (hex_value c) ≡ lower_hex c)
lower_lem c h k =
    let t =
      all_below_sound 256
        (λ c.
          not (is_hex c) || (leb (hex_value c) 15 && (encode_nibble (hex_value c) == lower_hex c)))
        c lower_table h in
    ground arith

pub nibble_lem :
    (v : ℕ)
    → v < 16
    → (is_hex (encode_nibble v) ≡ true)
      × (hex_value (encode_nibble v) ≡ v)
      × (encode_nibble v < 256)
nibble_lem v h =
    let t =
      all_below_sound 16
        (λ v.
          is_hex (encode_nibble v)
          && (hex_value (encode_nibble v) == v)
          && (lower_hex (encode_nibble v) == encode_nibble v)
          && leb (encode_nibble v) 255)
        v nibble_table h in
    ground arith

-- A byte from its two digits, and back.
pub pair_lem : (h l : ℕ) → h < 16 → l < 16 → u8 (bit_or (u8 (h * 16)) l) ≡ h * 16 + l
pair_lem h l p q = omega (arith, bit_or_sum 4 h (u8 (h * 16)) l (omega arith) q)
