-- ===== src/Tests/Uapi.antt =====
-- The protocol of ipc-uapi.h on concrete lines.
use wireguard_android_expres.Base.{
  ℕ, Option, none, map, bytes_eq, ◌≡◌, refl, arith, true, false, some, ◌>>=◌, [], ◌∷◌, ◌++◌, Bytes,
  List, codes, replicate, split_first,
}
use wireguard_android_expres.Ctype.{char_is_digit}
use wireguard_android_expres.Encoding.{
  key_to_hex, key_from_hex, key_from_hex_loop, encode_nibble, decode_nibble, none_set,
}
use wireguard_android_expres.Containers.{WgDevice, new_device}
use wireguard_android_expres.Config.Fields.{has_char, parse_ip}
use wireguard_android_expres.Config.Number.{
  strtoul, skip_spaces, take_sign, skip_prefix, begins_digit, scan_digits, digit_value,
}
use wireguard_android_expres.Config.Endpoint.{split_endpoint}
use wireguard_android_expres.Uapi.Print.{decimal}
use wireguard_android_expres.Uapi.Set.{chomp, line, minus, eproto, print_named, cut_line}
use wireguard_android_expres.Uapi.Get.{
  GetState, num, get_allowed_ip, put_allowed_ip, get_public_key, get_peer_line, get_device_line,
  get_line, get_loop, userspace_get_device,
}
use wireguard_android_expres.Uapi.Endpoints.{split_endpoint-print_named}
use wireguard_android_expres.Uapi.Numbers.{num-decimal}
use wireguard_android_expres.Uapi.Reply.{cut_line-line, userspace_get_device_lines}
use wireguard_android_expres.Config.Valid.{OnSome, IsDevice}
use wireguard_android_expres.Uapi.Valid.Loop.{userspace_get_device-IsDevice}
use wireguard_android_expres.Uapi.Cidr.{get_allowed_ip-mod}
use wireguard_android_expres.Tests.Config.{test_host}

no_bracket : has_char b']' (codes "fe80::1") ≡ false
unfolding has_char split_first
no_bracket = refl

no_colon : has_char b':' (codes "51820") ≡ false
unfolding has_char split_first
no_colon = refl

split_endpoint-print_named_example :
    (print_named true (some (codes "fe80::1", codes "51820")) >>= split_endpoint)
    ≡ some (codes "fe80::1", codes "51820")
split_endpoint-print_named_example =
    split_endpoint-print_named true (codes "fe80::1") (codes "51820") no_bracket refl no_colon
      (λ e. cc)

num-decimal_example : num test_host (decimal 51820) 0xffff ≡ some 51820
num-decimal_example = num-decimal test_host 0xffff 51820 (omega arith) (omega arith)

no_equals : has_char b'=' (codes "endpoint") ≡ false
unfolding has_char split_first
no_equals = refl

cut_line-line_example :
    cut_line (line (codes "endpoint") (codes "a=b")) ≡ some (codes "endpoint", codes "a=b")
cut_line-line_example = cut_line-line (codes "endpoint") (codes "a=b") no_equals

abbrev key_of_twos : Bytes
key_of_twos = replicate 32 2

userspace_get_device_lines_example :
    userspace_get_device test_host
      (λ key. key)
      0
      (codes "wg0")
      (some (
        line (codes "private_key") (key_to_hex key_of_twos)
        ∷ line (codes "listen_port") (decimal 51820)
        ∷ line (codes "fwmark") (decimal 7)
        ∷ line (codes "errno") (decimal 0)
        ∷ (b'\n' ∷ [])
        ∷ []))
    ≡ record {
      ret = minus 0;
      out = some (record new_device {
        name = codes "wg0";
        private_key = key_of_twos;
        public_key = key_of_twos;
        listen_port = 51820;
        fwmark = 7;
        flags = 30;
      });
    }
userspace_get_device_lines_example =
    userspace_get_device_lines test_host (λ key. key) 0 51820 7 (codes "wg0") key_of_twos refl
      (omega arith) (omega arith) (omega arith)

abbrev start : GetState
start = record { dev = new_device; has_peer = false; has_allowedip = false; ret = minus eproto }

no_slash : has_char b'/' (codes "10.0.0.0") ≡ false
unfolding has_char split_first
no_slash = refl

get_allowed_ip-mod_example :
    get_allowed_ip test_host start (codes "10.0.0.0" ++ (b'/' ∷ decimal 264))
    ≡ get_allowed_ip test_host start (codes "10.0.0.0" ++ (b'/' ∷ decimal 8))
get_allowed_ip-mod_example =
    get_allowed_ip-mod test_host start (codes "10.0.0.0") 264 no_slash (omega arith)

abbrev reply : List Bytes
reply =
    line (codes "public_key") (key_to_hex key_of_twos)
    ∷ line (codes "allowed_ip") (codes "10.0.0.0/8")
    ∷ line (codes "errno") (codes "0")
    ∷ (b'\n' ∷ [])
    ∷ []

-- A device of one peer, with one entry of 8 bits.
abbrev entries : Option WgDevice → List (List ℕ)
entries none = []
entries (some d) = map (λ p. map (λ a. a.cidr) p.allowedips) d.peers

reply_run :
    entries (userspace_get_device test_host (λ key. key) 0 (codes "wg0") (some reply)).out
    ≡ (8 ∷ []) ∷ []
unfolding userspace_get_device get_loop get_line get_device_line get_peer_line get_public_key
    get_allowed_ip put_allowed_ip num strtoul skip_spaces take_sign skip_prefix begins_digit
    scan_digits digit_value key_to_hex key_from_hex key_from_hex_loop encode_nibble decode_nibble
    none_set bytes_eq has_char split_first cut_line chomp char_is_digit parse_ip
reply_run = refl

userspace_get_device-IsDevice_example :
    OnSome IsDevice (userspace_get_device test_host (λ key. key) 0 (codes "wg0") (some reply)).out
userspace_get_device-IsDevice_example =
    userspace_get_device-IsDevice test_host (λ key. key) 0 (codes "wg0") (some reply)
