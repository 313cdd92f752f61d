-- ===== src/Uapi/Set.antt =====
-- `userspace_set_device`: the request that is written, and the reply that is read.
use wireguard_android_expres.Base.{
  ℕ, Bool, true, false, ◌&&◌, ◌||◌, not, ◌==◌, ltb, if◌then◌else◌, Option, none, some, List, [],
  ◌∷◌, ◌++◌, Bytes, length, char_at, codes, bytes_eq, split_first, char_word,
}
use wireguard_android_expres.Ctype.{char_is_digit}
use wireguard_android_expres.Encoding.{key_to_hex}
use wireguard_android_expres.Containers.{
  Family, af_unspec, af_inet, af_inet6, WgAllowedIp, WgPeer, WgDevice, Sockaddr, has_flag,
  wgallowedip_remove_me, wgpeer_remove_me, wgpeer_replace_allowedips, wgpeer_has_preshared_key,
  wgpeer_has_persistent_keepalive_interval, wgdevice_replace_peers, wgdevice_has_private_key,
  wgdevice_has_listen_port, wgdevice_has_fwmark,
}
use wireguard_android_expres.Config.Number.{skip_spaces, take_sign, scan_digits}
use wireguard_android_expres.Config.Fields.{has_char}
use wireguard_android_expres.Uapi.Print.{decimal, Names}

-- A line `key=value` of the protocol, with its newline.
abbrev pub line : Bytes → Bytes → Bytes
line key value = key ++ (b'=' ∷ (value ++ (b'\n' ∷ [])))

abbrev pub when : Bool → Bytes → Bytes
when true s = s
when false s = []

-- `[host]:service` for an IPv6 address whose name has a colon, `host:service` for any other.
unfoldable pub print_named : Bool → Option (Bytes × Bytes) → Option Bytes
print_named six none = none
print_named six (some (host, service)) = some (
    if six && has_char b':' host
    then b'[' ∷ (host ++ (b']' ∷ (b':' ∷ service)))
    else host ++ (b':' ∷ service))

abbrev pub print_by_family : Names → Sockaddr → Family → Option Bytes
print_by_family n e af_unspec = none
print_by_family n e af_inet = print_named false (n.getnameinfo e)
print_by_family n e af_inet6 = print_named true (n.getnameinfo e)

abbrev pub print_endpoint : Names → Sockaddr → Option Bytes
print_endpoint n e = print_by_family n e e.sa_family

-- `inet_ntop` for the two families that the loops print.
abbrev pub print_ip : Names → Family → Bytes → Option Bytes
print_ip n af_unspec ip = none
print_ip n af_inet ip = n.inet_ntop af_inet ip
print_ip n af_inet6 ip = n.inet_ntop af_inet6 ip

-- One turn of the loop over allowed addresses; one that does not print is skipped.
unfoldable pub set_allowedip : Names → WgAllowedIp → Bytes
set_allowedip n a = elim (print_ip n a.family a.ip) [
  | none ↦ []
  | some ip ↦
      line (codes "allowed_ip") (
        when (has_flag a.flags wgallowedip_remove_me) (codes "-")
        ++ (ip ++ (b'/' ∷ decimal a.cidr)))
]

unfoldable pub set_allowedips : Names → List WgAllowedIp → Bytes
set_allowedips n [] = []
set_allowedips n (a ∷ rest) = set_allowedip n a ++ set_allowedips n rest

abbrev pub endpoint_line : Option Bytes → Bytes
endpoint_line none = []
endpoint_line (some e) = line (codes "endpoint") e

-- What is written for one peer. One that is removed has no further lines.
unfoldable pub set_peer : Names → WgPeer → Bytes
set_peer n p =
    line (codes "public_key") (key_to_hex p.public_key)
    ++ (if has_flag p.flags wgpeer_remove_me
        then line (codes "remove") (codes "true")
        else when (has_flag p.flags wgpeer_has_preshared_key)
            (line (codes "preshared_key") (key_to_hex p.preshared_key))
          ++ (endpoint_line (print_endpoint n p.endpoint)
              ++ (when (has_flag p.flags wgpeer_has_persistent_keepalive_interval) (
                    line (codes "persistent_keepalive_interval")
                      (decimal p.persistent_keepalive_interval))
                  ++ (when (has_flag p.flags wgpeer_replace_allowedips)
                        (line (codes "replace_allowed_ips") (codes "true"))
                      ++ set_allowedips n p.allowedips))))

unfoldable pub set_peers : Names → List WgPeer → Bytes
set_peers n [] = []
set_peers n (p ∷ ps) = set_peer n p ++ set_peers n ps

-- The whole request, up to the empty line that ends it.
unfoldable pub set_request : Names → WgDevice → Bytes
set_request n d =
    line (codes "set") (codes "1")
    ++ (when (has_flag d.flags wgdevice_has_private_key)
          (line (codes "private_key") (key_to_hex d.private_key))
        ++ (when (has_flag d.flags wgdevice_has_listen_port)
              (line (codes "listen_port") (decimal d.listen_port))
            ++ (when (has_flag d.flags wgdevice_has_fwmark)
                  (line (codes "fwmark") (decimal d.fwmark))
                ++ (when (has_flag d.flags wgdevice_replace_peers)
                      (line (codes "replace_peers") (codes "true"))
                    ++ (set_peers n d.peers ++ (b'\n' ∷ []))))))

-- The result of the C function: a number, of either sign.
pub data Ret : Type 0 where
  plus : ℕ → Ret
  minus : ℕ → Ret

abbrev pub eproto : ℕ
eproto = 71

-- A text without its last character, where that is a newline.
unfoldable pub chomp : Bytes → Option Bytes
chomp [] = none
chomp (c ∷ []) = if c == b'\n' then some [] else none
chomp (c ∷ d ∷ cs) = elim (chomp (d ∷ cs)) [ none ↦ none | some v ↦ some (c ∷ v) ]

-- One line of a reply cut at `=`; `none` has no `=`, or no newline at its end.
unfoldable pub cut_line : Bytes → Option (Bytes × Bytes)
cut_line l = elim (split_first b'=' l) [
  | none ↦ none
  | some (key, value) ↦ elim (chomp value) [ none ↦ none | some v ↦ some (key, v) ]
]

-- `strtoll` with the test behind it: an `int`, or nothing.
unfoldable pub parse_errno : Bool → Bytes → Option Ret
parse_errno s value =
    if not (char_at value 0 == b'-') && not (char_is_digit (char_word s (char_at value 0)))
    then none
    else let (negative, digits) = take_sign (skip_spaces value) in
      let (n, rest) = scan_digits 10 0 digits in
      if not (length rest == 0) || length digits == 0
      then none
      else if negative
      then (if ltb 0x8000_0000 n then none else some (minus n))
      else (if ltb 0x7fff_ffff n then none else some (plus n))

-- The reply loop over the lines; `errno` is the C variable where the input ends early.
unfoldable pub set_reply : Bool → ℕ → Ret → List Bytes → Ret
set_reply s errno set_errno [] = if errno == 0 then minus eproto else minus errno
set_reply s errno set_errno (l ∷ ls) =
    let rest = set_reply s errno set_errno ls in
    let stop = if errno == 0 then minus eproto else minus errno in
    if bytes_eq l (b'\n' ∷ []) then set_errno else elim (cut_line l) [
      | none ↦ stop
      | some (key, value) ↦
          if bytes_eq key (codes "errno")
          then elim (parse_errno s value) [ none ↦ stop | some r ↦ set_reply s errno r ls ]
          else rest
    ]

-- `userspace_set_device`, from the lines of the reply; `none` is an interface that does not open.
unfoldable pub userspace_set_device : Bool → ℕ → Option (List Bytes) → Ret
userspace_set_device s errno none = minus errno
userspace_set_device s errno (some reply) = set_reply s errno (minus eproto) reply
