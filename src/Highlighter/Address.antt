-- ===== src/Highlighter/Address.antt =====
-- The tests of host names, addresses, networks and endpoints.
use wireguard_android_expres.Base.{
  ℕ, zero, suc, ◌+◌, ◌-◌, ◌*◌, Bool, true, false, ◌&&◌, ◌||◌, not, ◌==◌, leb, ltb, if◌then◌else◌,
  Bytes, u16,
}
use wireguard_android_expres.Highlighter.Span.{
  StringSpan, at, sub_span, is_decimal, is_hexadecimal, is_alphabet,
}

-- The loop of `is_valid_hostname`, with its rounds left.
unfoldable pub hostname_loop : Bytes → StringSpan → ℕ → ℕ → ℕ → ℕ → Bool
hostname_loop text s zero i num_digit num_entity = not (num_digit == num_entity)
hostname_loop text s (suc left) i num_digit num_entity =
    let c = at text s i in
    let digit = hostname_loop text s left (i + 1) (num_digit + 1) num_entity in
    let dot = hostname_loop text s left (i + 1) num_digit (num_entity - 1) in
    let other = hostname_loop text s left (i + 1) num_digit num_entity in
    if is_decimal c
    then digit
    else if c == b'.'
    then dot
    else if not (is_alphabet c) && not (c == b'-')
    then false
    else if not (i == 0) && c == b'.' && at text s (i - 1) == b'.'
    then false
    else other

unfoldable pub is_valid_hostname : Bytes → StringSpan → Bool
is_valid_hostname text s =
    if ltb 63 s.len || s.len == 0
    then false
    else if at text s 0 == b'-' || at text s (s.len - 1) == b'-'
    then false
    else if at text s 0 == b'.' || at text s (s.len - 1) == b'.'
    then false
    else hostname_loop text s s.len 0 0 s.len

-- The inner loop of `is_valid_ipv4`, from `j` on with the rounds left: the final `j` and `val`.
unfoldable pub octet : Bytes → StringSpan → ℕ → ℕ → ℕ → ℕ → record { j : ℕ; val : ℕ }
octet text s pos zero j val = record { j = j; val = val }
octet text s pos (suc left) j val =
    let next = octet text s pos left (j + 1) (10 * val + at text s (pos + j) - b'0') in
    if ltb (pos + j) s.len && is_decimal (at text s (pos + j))
    then next
    else record { j = j; val = val }

-- The loop of `is_valid_ipv4`, with its rounds left of four.
unfoldable pub ipv4_loop : Bytes → StringSpan → ℕ → ℕ → Bool
ipv4_loop text s zero pos = false
ipv4_loop text s (suc left) pos =
    let o = octet text s pos 3 0 0 in
    let rest = ipv4_loop text s left (pos + o.j + 1) in
    if not (ltb pos s.len)
    then false
    else if o.j == 0 || (ltb 1 o.j && at text s pos == b'0') || ltb 255 o.val
    then false
    else if pos + o.j == s.len && left == 0
    then true
    else if not (at text s (pos + o.j) == b'.')
    then false
    else rest

unfoldable pub is_valid_ipv4 : Bytes → StringSpan → Bool
is_valid_ipv4 text s = ipv4_loop text s 4 0

-- The inner loop of `is_valid_ipv6`: the final `j`.
unfoldable pub hex_run : Bytes → StringSpan → ℕ → ℕ → ℕ → ℕ
hex_run text s pos zero j = j
hex_run text s pos (suc left) j =
    let next = hex_run text s pos left (j + 1) in
    if ltb (pos + j) s.len && is_hexadecimal (at text s (pos + j)) then next else j

-- The loop of `is_valid_ipv6`. Each round moves `pos`, so `s.len` rounds are enough.
unfoldable pub ipv6_loop : Bytes → StringSpan → ℕ → ℕ → ℕ → Bool → Bool
ipv6_loop text s zero i pos seen_colon = true
ipv6_loop text s (suc fuel) i pos seen_colon =
    let j = hex_run text s pos 4 0 in
    let after_colon = ipv6_loop text s fuel (i + 1) (pos + 1) true in
    let after_group = ipv6_loop text s fuel (i + 1) (pos + j + 1) seen_colon in
    if not (ltb pos s.len)
    then true
    else if at text s pos == b':' && not seen_colon
    then (if pos + 1 == s.len then true else if i == 7 then false else after_colon)
    else if j == 0
    then false
    else if pos + j == s.len && (seen_colon || i == 7)
    then true
    else if i == 7
    then false
    else if not (at text s (pos + j) == b':')
    then (if not (at text s (pos + j) == b'.') || (ltb i 6 && not seen_colon)
        then false
        else is_valid_ipv4 text (sub_span s pos (s.len - pos)))
    else after_group

unfoldable pub is_valid_ipv6 : Bytes → StringSpan → Bool
is_valid_ipv6 text s =
    let pos = if at text s 0 == b':' then 1 else 0 in
    if ltb s.len 2
    then false
    else if at text s 0 == b':' && not (at text s 1 == b':')
    then false
    else if at text s (s.len - 1) == b':' && not (at text s (s.len - 2) == b':')
    then false
    else ipv6_loop text s s.len 0 pos false

-- The position of a character in a span, from `i` on; the length where there is none.
unfoldable pub find_char : Bytes → StringSpan → ℕ → ℕ → ℕ → ℕ
find_char text s c zero i = i
find_char text s c (suc left) i =
    let rest = find_char text s c left (i + 1) in if at text s i == c then i else rest

-- The digits of a prefix length, in a `uint16_t`.
unfoldable pub cidr_loop : Bytes → StringSpan → ℕ → ℕ → ℕ → record { digits : Bool; val : ℕ }
cidr_loop text s zero j val = record { digits = true; val = val }
cidr_loop text s (suc left) j val =
    let rest = cidr_loop text s left (j + 1) (u16 (10 * val + at text s j - b'0')) in
    if not (is_decimal (at text s j)) then record { digits = false; val = val } else rest

unfoldable pub is_valid_cidr : Bytes → StringSpan → StringSpan → Bool
is_valid_cidr text ip cidr =
    let d = cidr_loop text cidr cidr.len 0 0 in
    if ltb 3 cidr.len || cidr.len == 0
    then false
    else if not d.digits
    then false
    else if is_valid_ipv4 text ip
    then leb d.val 32
    else if is_valid_ipv6 text ip
    then leb d.val 128
    else false

unfoldable pub is_valid_network : Bytes → StringSpan → Bool
is_valid_network text s =
    let i = find_char text s b'/' s.len 0 in
    if ltb i s.len
    then is_valid_cidr text (sub_span s 0 i) (sub_span s (i + 1) (s.len - i - 1))
    else is_valid_ipv4 text s || is_valid_ipv6 text s
