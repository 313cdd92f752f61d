-- ===== src/Highlighter/Field.antt =====
-- `enum field`, `section_for_field`, `get_field` and `get_sectiontype`.
use wireguard_android_expres.Base.{Bool, true, false, if◌then◌else◌, Bytes, codes}
use wireguard_android_expres.Highlighter.Span.{StringSpan, is_caseless_same}

pub data Field : Type 0 where
  interface_section private_key listen_port address dns mtu fw_mark table pre_up post_up : Field
  pre_down post_down save_config peer_section public_key preshared_key allowed_ips endpoint : Field
  persistent_keepalive invalid : Field

-- The order of the enumeration, by its ranges.
unfoldable pub section_for_field : Field → Field
section_for_field private_key = interface_section
section_for_field listen_port = interface_section
section_for_field address = interface_section
section_for_field dns = interface_section
section_for_field mtu = interface_section
section_for_field fw_mark = interface_section
section_for_field table = interface_section
section_for_field pre_up = interface_section
section_for_field post_up = interface_section
section_for_field pre_down = interface_section
section_for_field post_down = interface_section
section_for_field save_config = interface_section
section_for_field public_key = peer_section
section_for_field preshared_key = peer_section
section_for_field allowed_ips = peer_section
section_for_field endpoint = peer_section
section_for_field persistent_keepalive = peer_section
section_for_field _ = invalid

-- `==` on the enumeration, where the code compares two values.
unfoldable pub same_section : Field → Field → Bool
same_section interface_section interface_section = true
same_section peer_section peer_section = true
same_section invalid invalid = true
same_section _ _ = false

abbrev pub is_invalid : Field → Bool
is_invalid invalid = true
is_invalid _ = false

unfoldable pub get_field : Bytes → StringSpan → Field
get_field text s =
    if is_caseless_same text s (codes "PrivateKey")
    then private_key
    else if is_caseless_same text s (codes "ListenPort")
    then listen_port
    else if is_caseless_same text s (codes "Address")
    then address
    else if is_caseless_same text s (codes "DNS")
    then dns
    else if is_caseless_same text s (codes "MTU")
    then mtu
    else if is_caseless_same text s (codes "PublicKey")
    then public_key
    else if is_caseless_same text s (codes "PresharedKey")
    then preshared_key
    else if is_caseless_same text s (codes "AllowedIPs")
    then allowed_ips
    else if is_caseless_same text s (codes "Endpoint")
    then endpoint
    else if is_caseless_same text s (codes "PersistentKeepalive")
    then persistent_keepalive
    else if is_caseless_same text s (codes "FwMark")
    then fw_mark
    else if is_caseless_same text s (codes "Table")
    then table
    else if is_caseless_same text s (codes "PreUp")
    then pre_up
    else if is_caseless_same text s (codes "PostUp")
    then post_up
    else if is_caseless_same text s (codes "PreDown")
    then pre_down
    else if is_caseless_same text s (codes "PostDown")
    then post_down
    else if is_caseless_same text s (codes "SaveConfig")
    then save_config
    else invalid

unfoldable pub get_sectiontype : Bytes → StringSpan → Field
get_sectiontype text s =
    if is_caseless_same text s (codes "[Peer]")
    then peer_section
    else if is_caseless_same text s (codes "[Interface]")
    then interface_section
    else invalid
