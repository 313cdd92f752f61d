-- ===== src/Highlighter/Spans.antt =====
-- The array of highlighted spans, and what is appended for a value. Growing the array succeeds.
use wireguard_android_expres.Base.{
  ℕ, zero, suc, ◌+◌, ◌-◌, Bool, true, false, ◌&&◌, ◌||◌, not, ◌==◌, if◌then◌else◌, List, [], ◌∷◌,
  ◌++◌, Bytes, update_last, get_last_or,
}
use wireguard_android_expres.Highlighter.Span.{StringSpan, at, sub_span}
use wireguard_android_expres.Highlighter.Address.{
  is_valid_hostname, is_valid_ipv4, is_valid_ipv6, is_valid_network, find_char,
}
use wireguard_android_expres.Highlighter.Value.{
  is_valid_key, is_valid_mtu, is_valid_saveconfig, is_valid_fwmark, is_valid_table,
  is_valid_prepostupdown, is_valid_port, is_valid_persistentkeepalive, is_valid_endpoint,
}
use wireguard_android_expres.Highlighter.Field.{
  Field, private_key, public_key, preshared_key, mtu, save_config, fw_mark, table, pre_up, post_up,
  pre_down, post_down, listen_port, persistent_keepalive, endpoint, address, dns, allowed_ips,
}

pub data HighlightType : Type 0 where
  section field_name private_key_span public_key_span preshared_key_span ip : HighlightType
  cidr host port mtu_span keepalive comment delimiter table_span fw_mark_span : HighlightType
  save_config_span cmd error end : HighlightType

pub record HighlightSpan : Type 0 where
  pub type : HighlightType
  pub start : ℕ
  pub len : ℕ

abbrev pub Spans : Type 0
Spans = List HighlightSpan

-- `append_highlight_span`: an empty span is not appended.
unfoldable pub append_highlight_span : Spans → StringSpan → HighlightType → Spans
append_highlight_span a s t =
    if s.len == 0 then a else a ++ (record { type = t; start = s.start; len = s.len } ∷ [])

-- A network, cut at its slash.
unfoldable pub append_network : Bytes → Spans → StringSpan → Spans
append_network text ret s =
    let slash = find_char text s b'/' s.len 0 in
    if slash == s.len
    then append_highlight_span ret s ip
    else append_highlight_span
        (append_highlight_span (append_highlight_span ret (sub_span s 0 slash) ip)
          (sub_span s slash 1) delimiter)
        (sub_span s (slash + 1) (s.len - slash - 1)) cidr

unfoldable pub highlight_multivalue_value : Bytes → Spans → StringSpan → Field → Spans
highlight_multivalue_value text ret s dns =
    if is_valid_ipv4 text s || is_valid_ipv6 text s
    then append_highlight_span ret s ip
    else if is_valid_hostname text s
    then append_highlight_span ret s host
    else append_highlight_span ret s error
highlight_multivalue_value text ret s address =
    if not (is_valid_network text s)
    then append_highlight_span ret s error
    else append_network text ret s
highlight_multivalue_value text ret s allowed_ips =
    if not (is_valid_network text s)
    then append_highlight_span ret s error
    else append_network text ret s
highlight_multivalue_value text ret s _ = append_highlight_span ret s error

abbrev pub is_delimiter : HighlightType → Bool
is_delimiter delimiter = true
is_delimiter _ = false

abbrev no_span : HighlightSpan
no_span = record { type = end; start = 0; len = 0 }

-- The end of `highlight_multivalue`: a last delimiter with nothing behind it is an error.
unfoldable pub finish_multivalue : Bytes → Spans → StringSpan → Field → Spans
finish_multivalue text ret span sec =
    if not (span.len == 0)
    then highlight_multivalue_value text ret span sec
    else if is_delimiter (get_last_or no_span ret).type
    then update_last (λ h. record h { type = error }) ret
    else ret

-- The loop of `highlight_multivalue` over the span `s`, with its rounds left.
unfoldable pub multivalue_loop : Bytes → StringSpan → Field → ℕ → ℕ → Spans → StringSpan → ℕ → Spans
multivalue_loop text s sec zero i ret current len_at_last_space =
    finish_multivalue text ret (record current { len = len_at_last_space }) sec
multivalue_loop text s sec (suc left) i ret current len_at_last_space =
    let c = at text s i in
    let comma =
      multivalue_loop text s sec left (i + 1)
        (append_highlight_span
          (highlight_multivalue_value text ret (record current { len = len_at_last_space }) sec)
          (sub_span s i 1) delimiter)
        (sub_span s (i + 1) 0) 0 in
    let leading =
      multivalue_loop text s sec left (i + 1) ret (record current { start = current.start + 1 })
        len_at_last_space in
    let inner =
      multivalue_loop text s sec left (i + 1) ret (record current { len = current.len + 1 })
        len_at_last_space in
    let other =
      multivalue_loop text s sec left (i + 1) ret (record current { len = current.len + 1 })
        (current.len + 1) in
    if c == b','
    then comma
    else if c == b' ' || c == b'\t'
    then (if s.start + i == current.start && current.len == 0 then leading else inner)
    else other

unfoldable pub highlight_multivalue : Bytes → Spans → StringSpan → Field → Spans
highlight_multivalue text ret s sec = multivalue_loop text s sec s.len 0 ret (sub_span s 0 0) 0

-- The position of the last `:` in the first `n` characters.
unfoldable pub last_colon : Bytes → StringSpan → ℕ → ℕ
last_colon text s zero = 0
last_colon text s (suc n) =
    let rest = last_colon text s n in if at text s n == b':' then n else rest

unfoldable pub append_endpoint : Bytes → Spans → StringSpan → Spans
append_endpoint text ret s =
    let colon = last_colon text s s.len in
    append_highlight_span
      (append_highlight_span (append_highlight_span ret (sub_span s 0 colon) host)
        (sub_span s colon 1) delimiter)
      (sub_span s (colon + 1) (s.len - colon - 1)) port

abbrev checked : Spans → StringSpan → Bool → HighlightType → Spans
checked ret s valid t = append_highlight_span ret s (if valid then t else error)

unfoldable pub highlight_value : Bytes → Spans → StringSpan → Field → Spans
highlight_value text ret s private_key = checked ret s (is_valid_key text s) private_key_span
highlight_value text ret s public_key = checked ret s (is_valid_key text s) public_key_span
highlight_value text ret s preshared_key = checked ret s (is_valid_key text s) preshared_key_span
highlight_value text ret s mtu = checked ret s (is_valid_mtu text s) mtu_span
highlight_value text ret s save_config = checked ret s (is_valid_saveconfig text s) save_config_span
highlight_value text ret s fw_mark = checked ret s (is_valid_fwmark text s) fw_mark_span
highlight_value text ret s table = checked ret s (is_valid_table text s) table_span
highlight_value text ret s pre_up = checked ret s (is_valid_prepostupdown text s) cmd
highlight_value text ret s post_up = checked ret s (is_valid_prepostupdown text s) cmd
highlight_value text ret s pre_down = checked ret s (is_valid_prepostupdown text s) cmd
highlight_value text ret s post_down = checked ret s (is_valid_prepostupdown text s) cmd
highlight_value text ret s listen_port = checked ret s (is_valid_port text s) port
highlight_value text ret s persistent_keepalive =
    checked ret s (is_valid_persistentkeepalive text s) keepalive
highlight_value text ret s endpoint =
    if not (is_valid_endpoint text s)
    then append_highlight_span ret s error
    else append_endpoint text ret s
highlight_value text ret s address = highlight_multivalue text ret s address
highlight_value text ret s dns = highlight_multivalue text ret s dns
highlight_value text ret s allowed_ips = highlight_multivalue text ret s allowed_ips
highlight_value text ret s _ = append_highlight_span ret s error
