-- ===== src/Tests.antt =====
-- Runs of the model on concrete inputs, and each property at an input where its conditions hold.
mod Config
mod Uapi
mod Setconf
mod Showconf
mod Kernel
mod Ipc
mod Show
use wireguard_android_expres.Base.{
  ◌+◌, ◌==◌, ◌&&◌, ◌||◌, not, ltb, ◌≡◌, refl, arith, true, false, ◌↔◌, Bytes, replicate, length,
  map, codes, All,
}
use wireguard_android_expres.Ctype.{char_is_space, char_is_digit}
use wireguard_android_expres.Ctype.Laws.{
  is_space, is_digit, char_is_space-is_space, char_is_digit-is_digit,
}
use wireguard_android_expres.Encoding.{
  decoded, decode_nibble, key_from_hex_loop, none_set, decode_base64, decode_sextet,
  key_from_base64_loop, key_to_hex, key_from_hex, key_to_base64, key_from_base64, key_is_zero,
}
use wireguard_android_expres.Encoding.Hex.{IsByte, lower_hex, key_is_zero_iff}
use wireguard_android_expres.Encoding.Hex.RoundTrip.{
  all_hex, key_from_hex-key_to_hex, key_to_hex-key_from_hex, key_from_hex_iff,
}
use wireguard_android_expres.Encoding.Base64.RoundTrip.{key_from_base64-key_to_base64}
use wireguard_android_expres.Encoding.Base64.Sound.{key_to_base64-key_from_base64}
use wireguard_android_expres.Highlighter.Config.{highlight_spans}
use wireguard_android_expres.Highlighter.Value.{is_valid_key}
use wireguard_android_expres.Highlighter.Accepted.{
  accepts, whole_text, is_valid_key-key_from_base64,
}
use wireguard_android_expres.Highlighter.Address.{is_valid_hostname}
use wireguard_android_expres.Highlighter.HostNames.{
  all_host_chars, digits, dots, is_valid_hostname_lem,
}
use wireguard_android_expres.Highlighter.Ordered.{IsOrdered}
use wireguard_android_expres.Highlighter.Machine.{highlight_spans-IsOrdered}

char_is_space-is_space_example : char_is_space 0xffff_ff0d ≡ is_space 13
char_is_space-is_space_example = char_is_space-is_space 0xffff_ff0d (omega arith)

abbrev key_of_ones : Bytes
key_of_ones = replicate 32 1

key_from_hex-key_to_hex_example : key_from_hex (key_to_hex key_of_ones) ≡ decoded true key_of_ones
key_from_hex-key_to_hex_example = key_from_hex-key_to_hex key_of_ones refl (omega arith)

abbrev hex_of_ones : Bytes
hex_of_ones = codes "0101010101010101010101010101010101010101010101010101010101010101"

key_from_hex_run : key_from_hex hex_of_ones ≡ decoded true key_of_ones
unfolding key_from_hex key_from_hex_loop decode_nibble none_set
key_from_hex_run = refl

key_to_hex-key_from_hex_example :
    (length hex_of_ones ≡ 64)
    × (all_hex hex_of_ones ≡ true)
    × (length key_of_ones ≡ 32)
    × All IsByte key_of_ones
    × (key_to_hex key_of_ones ≡ map lower_hex hex_of_ones)
key_to_hex-key_from_hex_example =
    key_to_hex-key_from_hex hex_of_ones key_of_ones (omega arith) key_from_hex_run

key_from_hex_iff_example :
    ((key : Bytes) × (key_from_hex hex_of_ones ≡ decoded true key))
    ↔ ((length hex_of_ones ≡ 64) × (all_hex hex_of_ones ≡ true))
key_from_hex_iff_example = key_from_hex_iff hex_of_ones (omega arith)

key_is_zero_iff_example : (key_is_zero key_of_ones ≡ true) ↔ All (λ k. k ≡ 0) key_of_ones
key_is_zero_iff_example = key_is_zero_iff key_of_ones (omega arith)

key_from_base64-key_to_base64_example :
    key_from_base64 true (key_to_base64 key_of_ones) ≡ decoded true key_of_ones
key_from_base64-key_to_base64_example =
    key_from_base64-key_to_base64 true key_of_ones refl (omega arith)

abbrev base64_of_ones : Bytes
base64_of_ones = codes "AQEBAQEBAQEBAQEBAQEBAQEBAQEBAQEBAQEBAQEBAQE="

key_from_base64_run : key_from_base64 false base64_of_ones ≡ decoded true key_of_ones
unfolding key_from_base64 key_from_base64_loop decode_base64 decode_sextet none_set
key_from_base64_run = refl

key_to_base64-key_from_base64_example :
    (key_to_base64 key_of_ones ≡ base64_of_ones)
    × (length key_of_ones ≡ 32)
    × All IsByte key_of_ones
key_to_base64-key_from_base64_example =
    key_to_base64-key_from_base64 false base64_of_ones key_of_ones (omega arith) key_from_base64_run

abbrev small_config : Bytes
small_config = codes "[Interface]\nMTU = 1280 # fits\n"

highlight_spans-IsOrdered_example : IsOrdered 0 (length small_config) (highlight_spans small_config)
highlight_spans-IsOrdered_example = highlight_spans-IsOrdered small_config

is_valid_key-key_from_base64_example :
    is_valid_key base64_of_ones (whole_text base64_of_ones)
    ≡ accepts (key_from_base64 true base64_of_ones)
is_valid_key-key_from_base64_example =
    is_valid_key-key_from_base64 true base64_of_ones (omega arith)

abbrev two_dots : Bytes
two_dots = codes "a..b"

is_valid_hostname_lem_example : is_valid_hostname two_dots (whole_text two_dots) ≡ (
    not (ltb 63 4 || 4 == 0)
    && not (b'a' == b'-' || b'b' == b'-')
    && not (b'a' == b'.' || b'b' == b'.')
    && (all_host_chars two_dots && not (digits two_dots + dots two_dots == 4)))
is_valid_hostname_lem_example = is_valid_hostname_lem two_dots
