-- ===== src/Tests/Config.antt =====
-- The configuration reader on concrete files, lines and answers of the host.
use wireguard_android_expres.Base.{
  ℕ, ◌-◌, ◌^◌, ◌≡◌, ◌≢◌, refl, ap, arith, true, false, not, ◌==◌, if◌then◌else◌, Option, none, some,
  List, [], ◌∷◌, Bytes, codes, All, map, get_last_or, split_first, split_last, caseless_prefix,
  char_at, caseless_eq, ◌%◌, bytes_eq,
}
use wireguard_android_expres.Containers.{
  af_inet, af_unspec, WgAllowedIp, WgDevice, new_peer, new_device, has_flag, wgpeer_has_public_key,
}
use wireguard_android_expres.Host.{Host, Addrinfo, Resolved, found, eai_other}
use wireguard_android_expres.Config.Number.Digits.{all_digits, is_digit_of, digit_or}
use wireguard_android_expres.Config.Number.{
  digit_value, strtoul, skip_spaces, take_sign, skip_prefix, begins_digit, scan_digits,
}
use wireguard_android_expres.Config.Fields.{
  parse_persistent_keepalive, parse_fwmark, set_keepalive, set_fwmark, get_value, parse_port,
  parse_key, parse_ip, has_char,
}
use wireguard_android_expres.Config.AllowedIps.{
  parse_cidr, validate_netmask, parse_allowedips, allowedips_loop, split_all, parse_ip_prefix,
  parse_entry,
}
use wireguard_android_expres.Config.Endpoint.{
  bounded, resolve_loop, parse_endpoint, parse_dns_retries, split_endpoint, split_plain,
}
use wireguard_android_expres.Config.Endpoint.Resolve.{EndsWithin, resolve_loop-EndsWithin}
use wireguard_android_expres.Config.Netmask.{words, validate_netmask_low_bits}
use wireguard_android_expres.Config.Decimal.{
  decimal_up_to, parse_persistent_keepalive_lem, parse_cidr_lem,
}
use wireguard_android_expres.Config.Mark.{mark_up_to, parse_fwmark_lem, parse_fwmark_saturated}
use wireguard_android_expres.Config.Line.{
  config_read_line, config_read_init, config_read_lines, config_read_finish, uncomment,
  strip_spaces, process_line, device_line, peer_line, begin_peer,
}
use wireguard_android_expres.Ctype.{char_is_space, char_is_digit}
use wireguard_android_expres.Encoding.{
  key_from_base64, key_from_base64_loop, decode_base64, decode_sextet, none_set,
}
use wireguard_android_expres.Config.Blanks.{config_read_line_comment, config_read_line_space}
use wireguard_android_expres.Config.Valid.{OnSome, OnOk, IsDevice, IsValid, HasBytePorts}
use wireguard_android_expres.Config.Incremental.{
  replaces, some_incremental, parse_allowedips-replaces,
}
use wireguard_android_expres.Config.Valid.File.{
  read_file, read_file-IsDevice, config_read_lines-IsValid,
}

abbrev pub here : Addrinfo
here = record {
  ai_family = af_inet;
  ai_addrlen = 16;
  ai_addr = 2 ∷ 0 ∷ 202 ∷ 108 ∷ 10 ∷ 0 ∷ 0 ∷ 1 ∷ [];
}

-- A host that knows one address, and finds it at the third attempt.
abbrev pub test_host : Host
test_host = record {
  signed_char = true;
  ulong_max = 2 ^ 64 - 1;
  inet_pton =
      λ family text. if bytes_eq text (codes "10.0.0.0") then some (10 ∷ 0 ∷ 0 ∷ 0 ∷ []) else none;
  getaddrinfo_port = λ port. found here;
  getaddrinfo = λ attempt host service. if attempt == 2 then found here else eai_other 3;
  getenv_retries = none;
  fopen = λ path. none;
}

abbrev answer_byte : ℕ → Resolved → ℕ
answer_byte i (found a) = char_at a.ai_addr i
answer_byte i _ = 0

pub test_host-HasBytePorts : HasBytePorts test_host
test_host-HasBytePorts value a e =
    (omega (arith, ap (answer_byte 2) e), omega (arith, ap (answer_byte 3) e))

abbrev file : List Bytes
file =
    codes "[Interface]"
    ∷ codes "ListenPort = 51820 # the usual one"
    ∷ codes "[Peer]"
    ∷ codes "PublicKey = AQEBAQEBAQEBAQEBAQEBAQEBAQEBAQEBAQEBAQEBAQE="
    ∷ codes "AllowedIPs = 10.0.0.0/8"
    ∷ codes "Endpoint = example.org:51820"
    ∷ codes "PersistentKeepalive = 25"
    ∷ []

read_file-IsDevice_example :
    OnSome
      (λ d. IsDevice d × All (λ p. has_flag p.flags wgpeer_has_public_key ≡ true) d.peers)
      (read_file test_host 20 false file)
read_file-IsDevice_example = read_file-IsDevice test_host 20 false file test_host-HasBytePorts

-- The entries that the file leaves, with their prefix lengths.
abbrev entries : Option WgDevice → List ℕ
entries none = []
entries (some d) = map (λ a. a.cidr) (get_last_or new_peer d.peers).allowedips

file_run : entries (read_file test_host 20 false file) ≡ 8 ∷ []
unfolding config_read_init config_read_lines config_read_line config_read_finish uncomment
    split_first strip_spaces char_is_space process_line device_line peer_line begin_peer get_value
    caseless_eq caseless_prefix parse_port parse_key key_from_base64 key_from_base64_loop
    decode_base64 decode_sextet none_set parse_allowedips allowedips_loop split_all parse_ip_prefix
    parse_entry parse_ip parse_cidr has_char char_is_digit strtoul skip_spaces take_sign skip_prefix
    begins_digit digit_value scan_digits parse_endpoint parse_dns_retries split_endpoint split_plain
    split_last resolve_loop parse_persistent_keepalive bytes_eq
file_run = refl

config_read_lines-IsValid_example :
    OnOk IsValid (config_read_lines test_host 20 (config_read_init true) file)
config_read_lines-IsValid_example =
    config_read_lines-IsValid test_host 20 true file test_host-HasBytePorts

abbrev network : WgAllowedIp
network = record { family = af_inet; ip = 10 ∷ 0 ∷ 0 ∷ 0 ∷ []; cidr = 8; flags = 0 }

af_inet-ne : af_inet ≢ af_unspec
af_inet-ne e = cc

validate_netmask_low_bits_example :
    validate_netmask network ≡ (words network.ip 1 % 2 ^ (32 - 8) == 0)
validate_netmask_low_bits_example =
    validate_netmask_low_bits network af_inet-ne (omega arith) (omega arith)

resolve_loop-EndsWithin_example :
    EndsWithin 15
      (resolve_loop test_host (codes "example.org") (codes "51820") 16 0 (bounded 15) 1000000)
resolve_loop-EndsWithin_example =
    resolve_loop-EndsWithin test_host (codes "example.org") (codes "51820") 16 15 0 1000000
      (omega arith) (omega arith)

parse_persistent_keepalive_lem_example :
    parse_persistent_keepalive test_host new_peer (codes "25") ≡ (
      if caseless_eq (codes "25") (codes "off")
      then some (set_keepalive new_peer 0)
      else elim (decimal_up_to 65535 (codes "25")) [
        | none ↦ none
        | some interval ↦ some (set_keepalive new_peer interval)
      ])
parse_persistent_keepalive_lem_example =
    parse_persistent_keepalive_lem test_host new_peer (codes "25") (omega arith) (omega arith)

parse_cidr_lem_example :
    parse_cidr test_host af_inet (some (codes "33")) ≡ decimal_up_to 32 (codes "33")
parse_cidr_lem_example = parse_cidr_lem test_host af_inet (codes "33") (omega arith) (omega arith)

parse_fwmark_lem_example : parse_fwmark test_host new_device (codes "0xCa6c") ≡ (
    if caseless_eq (codes "0xCa6c") (codes "off")
    then some (set_fwmark new_device 0)
    else elim (mark_up_to 0xffff_ffff (codes "0xCa6c")) [
      | none ↦ none
      | some mark ↦ some (set_fwmark new_device mark)
    ])
parse_fwmark_lem_example =
    parse_fwmark_lem test_host new_device (codes "0xCa6c") (omega arith) (omega arith)

-- The same host with an `unsigned long` of 32 bits.
abbrev small_host : Host
small_host = record test_host { ulong_max = 0xffff_ffff }

all_nines : all_digits 10 (codes "9999999999") ≡ true
unfolding is_digit_of digit_value
all_nines = refl

parse_fwmark_saturated_example :
    parse_fwmark small_host new_device (codes "9999999999")
    ≡ some (set_fwmark new_device 0xffff_ffff)
unfolding digit_or digit_value
parse_fwmark_saturated_example =
    parse_fwmark_saturated small_host new_device b'9' (codes "999999999") refl (omega arith)
      all_nines

config_read_line_comment_example :
    config_read_line test_host 20 (config_read_init false) (codes "[Peer]#home")
    ≡ config_read_line test_host 20 (config_read_init false) (codes "[Peer]")
config_read_line_comment_example =
    config_read_line_comment test_host 20 (config_read_init false) (codes "[Peer]") (codes "home")

config_read_line_space_example :
    config_read_line test_host 20 (config_read_init false) (codes "[Pe er]")
    ≡ config_read_line test_host 20 (config_read_init false) (codes "[Peer]")
config_read_line_space_example =
    config_read_line_space test_host 20 (config_read_init false) b' ' (codes "[Pe") (codes "er]")
      refl

abbrev pub arguments : List Bytes
arguments =
    codes "listen-port"
    ∷ codes "51820"
    ∷ codes "peer"
    ∷ codes "AQEBAQEBAQEBAQEBAQEBAQEBAQEBAQEBAQEBAQEBAQE="
    ∷ codes "allowed-ips"
    ∷ codes "10.0.0.0/8, 10.0.0.0/32"
    ∷ codes "remove"
    ∷ []

parse_allowedips-replaces_example :
    OnSome
      (λ r.
        replaces r.0.flags ≡ not (some_incremental (split_all b',' (codes "10.0.0.0,+10.0.0.0/8"))))
      (parse_allowedips test_host new_peer false (codes "10.0.0.0,+10.0.0.0/8"))
parse_allowedips-replaces_example =
    parse_allowedips-replaces test_host new_peer false (codes "10.0.0.0,+10.0.0.0/8")
