-- ===== src/Config/Fields.antt =====
-- The parsers of single values in config.c.
use wireguard_android_expres.Base.{
  ℕ, ◌+◌, ◌*◌, Bool, true, false, ◌&&◌, ◌||◌, not, ◌==◌, leb, ltb, if◌then◌else◌, Option, none,
  some, ◌>>=◌, [], ◌∷◌, Bytes, length, char_at, take, drop, codes, caseless_eq, caseless_prefix,
  split_first, char_word,
}
use wireguard_android_expres.Ctype.{char_is_space, char_is_digit}
use wireguard_android_expres.Encoding.{decoded, key_from_base64}
use wireguard_android_expres.Containers.{
  Family, af_unspec, af_inet, af_inet6, WgPeer, WgDevice, set_flag, zero_key,
  wgdevice_has_listen_port, wgdevice_has_fwmark, wgpeer_has_persistent_keepalive_interval,
}
use wireguard_android_expres.Host.{Host, Addrinfo, found}
use wireguard_android_expres.Config.Number.{strtoul}

-- The value behind `key`, where the line has one: not empty, and the key in any case.
unfoldable pub get_value : Bytes → Bytes → Option Bytes
get_value line key =
    if leb (length line) (length key)
    then none
    else if not (caseless_prefix line key)
    then none
    else some (drop (length key) line)

abbrev pub first_is_digit : Host → Bytes → Bool
first_is_digit h value = char_is_digit (char_word h.signed_char (char_at value 0))

-- `ntohs` of the port in a `struct sockaddr_in` or `sockaddr_in6`.
abbrev pub port_of : Bytes → ℕ
port_of addr = char_at addr 2 * 256 + char_at addr 3

abbrev pub sizeof_sockaddr_in : ℕ
sizeof_sockaddr_in = 16

abbrev pub sizeof_sockaddr_in6 : ℕ
sizeof_sockaddr_in6 = 28

-- Whether a resolved address has a family and a length that the code takes.
abbrev pub has_inet_len : Family → ℕ → Bool
has_inet_len af_inet len = len == sizeof_sockaddr_in
has_inet_len af_inet6 len = len == sizeof_sockaddr_in6
has_inet_len af_unspec len = false

abbrev pub is_inet_addr : Addrinfo → Bool
is_inet_addr a = has_inet_len a.ai_family a.ai_addrlen

unfoldable pub parse_port : Host → WgDevice → Bytes → Option WgDevice
parse_port h dev value = if length value == 0 then none else elim (h.getaddrinfo_port value) [
  | found a ↦
      if is_inet_addr a
      then some (record dev {
        listen_port = port_of a.ai_addr;
        flags = set_flag dev.flags wgdevice_has_listen_port;
      })
      else none
  | _ ↦ none
]

abbrev pub set_fwmark : WgDevice → ℕ → WgDevice
set_fwmark dev mark = record dev { fwmark = mark; flags = set_flag dev.flags wgdevice_has_fwmark }

unfoldable pub parse_fwmark : Host → WgDevice → Bytes → Option WgDevice
parse_fwmark h dev value =
    if caseless_eq value (codes "off")
    then some (set_fwmark dev 0)
    else if not (first_is_digit h value)
    then none
    else let base =
        if ltb 2 (length value) && char_at value 0 == b'0' && char_at value 1 == b'x'
        then 16
        else 10 in
      let (ret, end) = strtoul h.ulong_max base value in
      if not (length end == 0) || ltb 0xffff_ffff ret then none else some (set_fwmark dev ret)

abbrev pub set_keepalive : WgPeer → ℕ → WgPeer
set_keepalive peer interval = record peer {
  persistent_keepalive_interval = interval;
  flags = set_flag peer.flags wgpeer_has_persistent_keepalive_interval;
}

unfoldable pub parse_persistent_keepalive : Host → WgPeer → Bytes → Option WgPeer
parse_persistent_keepalive h peer value =
    if caseless_eq value (codes "off")
    then some (set_keepalive peer 0)
    else if not (first_is_digit h value)
    then none
    else let (ret, end) = strtoul h.ulong_max 10 value in
      if not (length end == 0) || ltb 65535 ret then none else some (set_keepalive peer ret)

-- The `bool` of `parse_key`, with the key that it leaves behind: zeroed where it fails.
unfoldable pub parse_key : Host → Bytes → Bool × Bytes
parse_key h value = elim (key_from_base64 h.signed_char value) [
  | decoded true key ↦ (true, key)
  | _ ↦ (false, zero_key)
]

-- The loop of `parse_keyfile` over what follows the key.
unfoldable pub only_spaces : Bytes → Bool
only_spaces [] = true
only_spaces (c ∷ cs) = char_is_space c && only_spaces cs

-- `parse_keyfile`: the key where it returns true. An empty file stands for the zero key.
unfoldable pub parse_keyfile : Host → Bytes → Option Bytes
parse_keyfile h path = elim (h.fopen path) [
  | none ↦ none
  | some f ↦
      if ltb (length f.contents) 44
      then (if not f.ferror && length f.contents == 0 then some zero_key else none)
      else if not (only_spaces (drop 44 f.contents))
      then none
      else if f.ferror
      then none
      else let (ret, key) = parse_key h (take 44 f.contents) in if ret then some key else none
]

unfoldable pub has_char : ℕ → Bytes → Bool
has_char c s = elim (split_first c s) [ none ↦ false | some _ ↦ true ]

-- `parse_ip`: the family and the address that it stores.
unfoldable pub parse_ip : Host → Bytes → Option (Family × Bytes)
parse_ip h value =
    let family = if has_char b':' value then af_inet6 else af_inet in
    h.inet_pton family value >>= λ ip. some (family, ip)
