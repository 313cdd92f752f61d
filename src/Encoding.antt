-- ===== src/Encoding.antt =====
-- tunnel/tools/wireguard-tools/src/encoding.c: keys as hexadecimal and as base64 text, without
-- branches on secret bytes. Words are 32-bit patterns; `signed_char` says how a `char` promotes.
pub mod Base64
pub mod Hex
use wireguard_android_expres.Base.{
  ℕ, zero, suc, ◌+◌, ◌-◌, ◌*◌, ◌/◌, ◌%◌, ◌^◌, Bool, true, false, not, ◌&&◌, ◌==◌, if◌then◌else◌,
  List, [], ◌∷◌, ◌++◌, Bytes, length, char_at, take, ◌||◌, u8, add32, sub32, shl32, shr, sar8,
  minus_one, bit_and, bit_or, bit_xor, char_word, ltb,
}

-- A decoder's `bool` and the key it leaves behind; `unset` where it returns before writing.
pub data Decoded : Type 0 where
  unset : Decoded
  decoded : Bool → Bytes → Decoded

-- `1 & ((ret - 1) >> 8)`: true exactly when the accumulated byte is 0.
unfoldable pub none_set : ℕ → Bool
none_set ret = bit_and 1 (sar8 (sub32 ret 1)) == 1

-- The loop body of `encode_base64`, for one 6-bit value.
unfoldable pub encode_sextet : ℕ → ℕ
encode_sextet v = u8 (
    add32
      (sub32
        (sub32 (add32 (v + b'A') (bit_and (sar8 (sub32 25 v)) 6)) (bit_and (sar8 (sub32 51 v)) 75))
        (bit_and (sar8 (sub32 61 v)) 15))
      (bit_and (sar8 (sub32 62 v)) 3))

unfoldable pub encode_base64 : ℕ → ℕ → ℕ → Bytes
encode_base64 s0 s1 s2 =
    encode_sextet (bit_and (shr s0 2) 63)
    ∷ encode_sextet (bit_and (bit_or (shl32 s0 4) (shr s1 4)) 63)
    ∷ encode_sextet (bit_and (bit_or (shl32 s1 2) (shr s2 6)) 63)
    ∷ encode_sextet (bit_and s2 63)
    ∷ []

-- `key_to_base64`: the groups of three bytes that are left, and then the last group of two bytes,
-- with `=` for its fourth character.
unfoldable pub key_to_base64_loop : ℕ → Bytes → Bytes
key_to_base64_loop (suc n) (a ∷ b ∷ c ∷ rest) = encode_base64 a b c ++ key_to_base64_loop n rest
key_to_base64_loop zero (a ∷ b ∷ rest) = take 3 (encode_base64 a b 0) ++ (b'=' ∷ [])
key_to_base64_loop _ _ = []

abbrev pub wg_key_len : ℕ
wg_key_len = 32

unfoldable pub key_to_base64 : Bytes → Bytes
key_to_base64 key = key_to_base64_loop (wg_key_len / 3) key

-- One of the five terms of `decode_base64`: `value` where the character lies in `lo` to `hi`.
abbrev in_range : ℕ → ℕ → ℕ → ℕ → ℕ
in_range lo hi c value = bit_and (sar8 (bit_and (sub32 (lo - 1) c) (sub32 c (hi + 1)))) value

-- The loop body of `decode_base64`, before its shift: the 6-bit value of a character, or -1.
unfoldable pub decode_sextet : Bool → ℕ → ℕ
decode_sextet signed_char char =
    let c = char_word signed_char char in
    add32
      (add32
        (add32
          (add32 (add32 minus_one (in_range b'A' b'Z' c (sub32 c 64)))
            (in_range b'a' b'z' c (sub32 c 70)))
          (in_range b'0' b'9' c (add32 c 5)))
        (in_range b'+' b'+' c 63))
      (in_range b'/' b'/' c 64)

unfoldable pub decode_base64 : Bool → ℕ → ℕ → ℕ → ℕ → ℕ
decode_base64 s a b c d =
    bit_or
      (bit_or (bit_or (shl32 (decode_sextet s a) 18) (shl32 (decode_sextet s b) 12))
        (shl32 (decode_sextet s c) 6))
      (shl32 (decode_sextet s d) 0)

-- A byte of a decoded group. The mask takes off what an arithmetic shift brings in.
abbrev pub byte_of : ℕ → ℕ → ℕ
byte_of val k = bit_and (shr val k) 0xff

-- `key_from_base64`: the groups of four characters that are left, then the last group of three,
-- which is completed by `A`. The result is `ret` with the bytes written.
unfoldable pub key_from_base64_loop : Bool → ℕ → ℕ → Bytes → ℕ × Bytes
key_from_base64_loop s (suc n) ret (a ∷ b ∷ c ∷ d ∷ rest) =
    let val = decode_base64 s a b c d in
    let next = key_from_base64_loop s n (u8 (bit_or ret (shr val 31))) rest in
    (next.0, byte_of val 16 ∷ byte_of val 8 ∷ byte_of val 0 ∷ next.1)
key_from_base64_loop s zero ret (a ∷ b ∷ c ∷ rest) =
    let val = decode_base64 s a b c b'A' in
    (u8 (bit_or ret (bit_or (shr val 31) (bit_and val 0xff))), byte_of val 16 ∷ byte_of val 8 ∷ [])
key_from_base64_loop s _ ret _ = (ret, [])

abbrev pub wg_key_len_base64 : ℕ
wg_key_len_base64 = (wg_key_len + 2) / 3 * 4 + 1

unfoldable pub key_from_base64 : Bool → Bytes → Decoded
key_from_base64 s base64 =
    if not (length base64 == wg_key_len_base64 - 1)
      || not (char_at base64 (wg_key_len_base64 - 2) == b'=')
    then unset
    else let (ret, key) = key_from_base64_loop s (wg_key_len / 3) 0 base64 in
      decoded (none_set ret) key

-- One hexadecimal digit of `key_to_hex`.
unfoldable pub encode_nibble : ℕ → ℕ
encode_nibble v = u8 (add32 (add32 87 v) (bit_and (shr (sub32 v 10) 8) (0xffff_ffff - 38)))

unfoldable pub key_to_hex : Bytes → Bytes
key_to_hex [] = []
key_to_hex (k ∷ key) = encode_nibble (shr k 4) ∷ encode_nibble (bit_and k 0xf) ∷ key_to_hex key

-- One character of `key_from_hex`: what it adds to `ret`, and its value. The variables are bytes.
unfoldable pub decode_nibble : ℕ → record { bad : ℕ; val : ℕ }
decode_nibble c =
    let c_num = u8 (bit_xor c 48) in
    let c_num0 = u8 (shr (sub32 c_num 10) 8) in
    let c_alpha = u8 (sub32 (bit_and c (0xffff_ffff - 32)) 55) in
    let c_alpha0 = u8 (shr (bit_xor (sub32 c_alpha 10) (sub32 c_alpha 16)) 8) in
    record {
      bad = u8 (sar8 (sub32 (bit_or c_num0 c_alpha0) 1));
      val = u8 (bit_or (bit_and c_num0 c_num) (bit_and c_alpha0 c_alpha));
    }

-- The loop of `key_from_hex` over pairs of characters.
unfoldable pub key_from_hex_loop : ℕ → Bytes → ℕ × Bytes
key_from_hex_loop ret (c ∷ d ∷ rest) =
    let hi = decode_nibble c in
    let lo = decode_nibble d in
    let next = key_from_hex_loop (u8 (bit_or (u8 (bit_or ret hi.bad)) lo.bad)) rest in
    (next.0, u8 (bit_or (u8 (hi.val * 16)) lo.val) ∷ next.1)
key_from_hex_loop ret _ = (ret, [])

abbrev pub wg_key_len_hex : ℕ
wg_key_len_hex = wg_key_len * 2 + 1

unfoldable pub key_from_hex : Bytes → Decoded
key_from_hex hex =
    if not (length hex == wg_key_len_hex - 1)
    then unset
    else let (ret, key) = key_from_hex_loop 0 hex in decoded (none_set ret) key

-- The accumulator of `key_is_zero`.
unfoldable pub or_bytes : ℕ → Bytes → ℕ
or_bytes acc [] = acc
or_bytes acc (k ∷ key) = or_bytes (u8 (bit_or acc k)) key

unfoldable pub key_is_zero : Bytes → Bool
key_is_zero key = none_set (or_bytes 0 key)
