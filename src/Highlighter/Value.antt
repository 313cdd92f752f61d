-- ===== src/Highlighter/Value.antt =====
-- The tests of keys, numbers, endpoints and the other values of a configuration file.
use wireguard_android_expres.Base.{
  ℕ, zero, suc, ◌+◌, ◌-◌, ◌*◌, Bool, true, false, ◌&&◌, ◌||◌, not, ◌==◌, leb, ltb, if◌then◌else◌,
  Option, none, some, [], ◌∷◌, Bytes, codes, bit_or,
}
use wireguard_android_expres.Highlighter.Span.{
  StringSpan, at, sub_span, is_decimal, is_alphabet, is_same,
}
use wireguard_android_expres.Highlighter.Address.{
  is_valid_hostname, is_valid_ipv4, is_valid_ipv6, find_char,
}

-- The loop of `is_valid_key` over the first 42 characters.
unfoldable pub key_loop : Bytes → StringSpan → ℕ → ℕ → Bool
key_loop text s zero i = true
key_loop text s (suc left) i =
    let c = at text s i in
    let rest = key_loop text s left (i + 1) in
    if not (is_decimal c) && not (is_alphabet c) && not (c == b'/') && not (c == b'+')
    then false
    else rest

abbrev pub member : ℕ → Bytes → Bool
member c [] = false
member c (x ∷ xs) = c == x || member c xs

-- The cases of the `switch` on the last character before `=`.
abbrev pub last_characters : Bytes
last_characters = codes "AEIMQUYcgkosw480"

unfoldable pub is_valid_key : Bytes → StringSpan → Bool
is_valid_key text s =
    if not (s.len == 44) || not (at text s 43 == b'=')
    then false
    else if not (key_loop text s 42 0)
    then false
    else member (at text s 42) last_characters

-- The value of a run of digits, with `none` at another character.
unfoldable pub decimal_value : Bytes → StringSpan → ℕ → ℕ → ℕ → Option ℕ
decimal_value text s zero i val = some val
decimal_value text s (suc left) i val =
    let rest = decimal_value text s left (i + 1) (10 * val + at text s i - b'0') in
    if not (is_decimal (at text s i)) then none else rest

-- The conversion of `(unsigned)s.s[i]` to a hexadecimal digit.
unfoldable pub hex_value : Bytes → StringSpan → ℕ → ℕ → ℕ → Option ℕ
hex_value text s zero i val = some val
hex_value text s (suc left) i val =
    let c = at text s i in
    let digit = hex_value text s left (i + 1) (16 * val + (c - b'0')) in
    let letter = hex_value text s left (i + 1) (16 * val + bit_or c 32 - b'a' + 10) in
    if is_decimal c
    then digit
    else if leb b'a' (bit_or c 32) && ltb (bit_or c 32) (b'a' + 6)
    then letter
    else none

abbrev pub within : ℕ → ℕ → Option ℕ → Bool
within min max none = false
within min max (some val) = leb val max && leb min val

unfoldable pub is_valid_uint : Bytes → StringSpan → Bool → ℕ → ℕ → Bool
is_valid_uint text s support_hex min max =
    if ltb 10 s.len || s.len == 0
    then false
    else if support_hex && ltb 2 s.len && at text s 0 == b'0' && at text s 1 == b'x'
    then within min max (hex_value text s (s.len - 2) 2 0)
    else within min max (decimal_value text s s.len 0 0)

abbrev pub is_valid_port : Bytes → StringSpan → Bool
is_valid_port text s = is_valid_uint text s false 0 65535

abbrev pub is_valid_mtu : Bytes → StringSpan → Bool
is_valid_mtu text s = is_valid_uint text s false 576 65535

abbrev pub is_valid_persistentkeepalive : Bytes → StringSpan → Bool
is_valid_persistentkeepalive text s =
    if is_same text s (codes "off") then true else is_valid_uint text s false 0 65535

abbrev pub is_valid_fwmark : Bytes → StringSpan → Bool
is_valid_fwmark text s =
    if is_same text s (codes "off") then true else is_valid_uint text s true 0 0xffff_ffff

abbrev pub is_valid_table : Bytes → StringSpan → Bool
is_valid_table text s =
    if is_same text s (codes "auto")
    then true
    else if is_same text s (codes "off")
    then true
    else if ltb s.len 512
    then true
    else is_valid_uint text s false 0 0xffff_ffff

abbrev pub is_valid_saveconfig : Bytes → StringSpan → Bool
is_valid_saveconfig text s = is_same text s (codes "true") || is_same text s (codes "false")

abbrev pub is_valid_prepostupdown : Bytes → StringSpan → Bool
is_valid_prepostupdown text s = not (s.len == 0)

unfoldable pub scope_loop : Bytes → StringSpan → ℕ → ℕ → Bool
scope_loop text s zero i = true
scope_loop text s (suc left) i =
    let c = at text s i in
    let rest = scope_loop text s left (i + 1) in
    if not (is_alphabet c)
      && not (is_decimal c)
      && not (c == b'_')
      && not (c == b'=')
      && not (c == b'+')
      && not (c == b'.')
      && not (c == b'-')
    then false
    else rest

unfoldable pub is_valid_scope : Bytes → StringSpan → Bool
is_valid_scope text s = if ltb 64 s.len || s.len == 0 then false else scope_loop text s s.len 0

-- At the bracket that closes the host, with the port behind it.
unfoldable pub close_bracket : Bytes → StringSpan → ℕ → Bool → StringSpan → Bool
close_bracket text s i seen_scope hostspan =
    if not (if seen_scope then is_valid_scope text hostspan else is_valid_ipv6 text hostspan)
    then false
    else if i == s.len - 1 || not (at text s (i + 1) == b':')
    then false
    else is_valid_port text (sub_span s (i + 2) (s.len - i - 2))

-- The loop of `is_valid_endpoint` behind `[`.
unfoldable pub bracket_loop : Bytes → StringSpan → ℕ → ℕ → Bool → StringSpan → Bool
bracket_loop text s zero i seen_scope hostspan = false
bracket_loop text s (suc left) i seen_scope hostspan =
    let scope = bracket_loop text s left (i + 1) true (sub_span s (i + 1) 0) in
    let longer =
      bracket_loop text s left (i + 1) seen_scope (record hostspan { len = hostspan.len + 1 }) in
    if at text s i == b'%'
    then (if seen_scope then false else if not (is_valid_ipv6 text hostspan) then false else scope)
    else if at text s i == b']'
    then close_bracket text s i seen_scope hostspan
    else longer

unfoldable pub is_valid_endpoint : Bytes → StringSpan → Bool
is_valid_endpoint text s =
    let i = find_char text s b':' s.len 0 in
    let host = sub_span s 0 i in
    let port = sub_span s (i + 1) (s.len - i - 1) in
    if s.len == 0
    then false
    else if at text s 0 == b'['
    then bracket_loop text s (s.len - 1) 1 false (sub_span s 1 0)
    else if ltb i s.len
    then is_valid_port text port && (is_valid_ipv4 text host || is_valid_hostname text host)
    else false
