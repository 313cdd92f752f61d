-- ===== src/Config/AllowedIps.antt =====
-- `parse_allowedips`, `parse_ip_prefix` and `validate_netmask` of config.c.
use wireguard_android_expres.Base.{
  ℕ, zero, suc, ◌+◌, ◌-◌, ◌*◌, Bool, true, false, ◌||◌, not, ◌==◌, leb, ltb, if◌then◌else◌, Option,
  none, some, ◌>>=◌, List, [], ◌∷◌, ◌++◌, Bytes, length, char_at, drop, split_first, minus_one, shr,
  bit_and,
}
use wireguard_android_expres.Containers.{
  Family, af_unspec, af_inet, af_inet6, WgAllowedIp, WgPeer, set_flag, clear_flag,
  wgallowedip_remove_me, wgpeer_replace_allowedips,
}
use wireguard_android_expres.Host.{Host}
use wireguard_android_expres.Config.Number.{strtoul}
use wireguard_android_expres.Config.Fields.{first_is_digit, parse_ip}

-- `ntohl(ip[i])`
abbrev pub word_at : Bytes → ℕ → ℕ
word_at ip i =
    char_at ip (4 * i) * 0x100_0000
    + char_at ip (4 * i + 1) * 0x1_0000
    + char_at ip (4 * i + 2) * 0x100
    + char_at ip (4 * i + 3)

-- The loop of `validate_netmask`, with `i + 1` words left to look at.
unfoldable pub netmask_loop : Bytes → ℕ → ℕ → Bool
netmask_loop ip cidr zero = true
netmask_loop ip cidr (suc i) =
    let rest = netmask_loop ip cidr i in
    let mask = if ltb (32 * i) cidr then shr minus_one (cidr - 32 * i) else minus_one in
    if leb (32 * (i + 1)) cidr
    then true
    else if not (bit_and (word_at ip i) mask == 0)
    then false
    else rest

abbrev pub netmask_ok : Family → Bytes → ℕ → Bool
netmask_ok af_inet ip cidr = netmask_loop ip cidr 1
netmask_ok af_inet6 ip cidr = netmask_loop ip cidr 4
netmask_ok af_unspec ip cidr = true

-- `parse_allowedips` only warns where this is false.
unfoldable pub validate_netmask : WgAllowedIp → Bool
validate_netmask a = netmask_ok a.family a.ip a.cidr

-- `parse_ip_prefix`: the flags of the entry, those of the peer, and the text behind the prefix.
unfoldable pub parse_ip_prefix : ℕ → Bytes → record { flags : ℕ; peer_flags : ℕ; mask : Bytes }
parse_ip_prefix peer_flags mask =
    if char_at mask 0 == b'-'
    then record {
      flags = wgallowedip_remove_me;
      peer_flags = clear_flag peer_flags wgpeer_replace_allowedips;
      mask = drop 1 mask;
    }
    else if char_at mask 0 == b'+'
    then record {
      flags = 0;
      peer_flags = clear_flag peer_flags wgpeer_replace_allowedips;
      mask = drop 1 mask;
    }
    else record { flags = 0; peer_flags = peer_flags; mask = mask }

-- `strsep` in a loop: the pieces of a text between separators, one at least.
unfoldable pub split_all : ℕ → Bytes → List Bytes
split_all c [] = [] ∷ []
split_all c (x ∷ xs) = elim (split_all c xs) [
  | [] ↦ []
  | p ∷ ps ↦ if x == c then [] ∷ p ∷ ps else (x ∷ p) ∷ ps
]

abbrev pub max_cidr : Family → ℕ
max_cidr af_inet = 32
max_cidr af_inet6 = 128
max_cidr af_unspec = 0

-- The prefix length of an entry: the digits behind the slash, or all bits without one.
unfoldable pub parse_cidr : Host → Family → Option Bytes → Option ℕ
parse_cidr h family none = some (max_cidr family)
parse_cidr h family (some mask) =
    if not (first_is_digit h mask)
    then none
    else let (cidr, end) = strtoul h.ulong_max 10 mask in
      if not (length end == 0) || ltb (max_cidr family) cidr then none else some cidr

abbrev pub entry : Family × Bytes → ℕ → ℕ → WgAllowedIp
entry addr flags cidr = record { family = addr.0; ip = addr.1; cidr = cidr; flags = flags }

abbrev pub with_cidr : Host → ℕ → Option Bytes → Family × Bytes → Option WgAllowedIp
with_cidr h flags mask addr = parse_cidr h addr.0 mask >>= λ cidr. some (entry addr flags cidr)

-- The text before the slash, and the text behind it, where there is one.
abbrev pub before_slash : Bytes → Bytes
before_slash text = elim (split_first b'/' text) [ none ↦ text | some (a, _) ↦ a ]

abbrev pub behind_slash : Bytes → Option Bytes
behind_slash text = elim (split_first b'/' text) [ none ↦ none | some (_, m) ↦ some m ]

-- One piece of `parse_allowedips`, behind its prefix.
unfoldable pub parse_entry : Host → ℕ → Bytes → Option WgAllowedIp
parse_entry h flags text = parse_ip h (before_slash text) >>= with_cidr h flags (behind_slash text)

-- The peer, and whether the caller's `last_allowedip` is set: the new entry is linked behind that
-- one, or becomes the first.
abbrev pub link : Bool → List WgAllowedIp → WgAllowedIp → List WgAllowedIp
link true ips new = ips ++ (new ∷ [])
link false ips new = new ∷ []

unfoldable pub allowedips_loop : Host → WgPeer → Bool → List Bytes → Option (WgPeer × Bool)
allowedips_loop h peer last [] = some (peer, last)
allowedips_loop h peer last (piece ∷ pieces) =
    let p = parse_ip_prefix peer.flags piece in
    parse_entry h p.flags p.mask >>= λ new.
    allowedips_loop h
      (record peer { flags = p.peer_flags; allowedips = link last peer.allowedips new }) true pieces

unfoldable pub parse_allowedips : Host → WgPeer → Bool → Bytes → Option (WgPeer × Bool)
parse_allowedips h peer last value =
    let peer' = record peer { flags = set_flag peer.flags wgpeer_replace_allowedips } in
    if length value == 0
    then some (peer', last)
    else allowedips_loop h peer' last (split_all b',' value)
