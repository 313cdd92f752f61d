-- ===== src/Kernel/Get.antt =====
-- kernel_get_device: what the callbacks make of the attributes of a reply.
use wireguard_android_expres.Base.{
  ℕ, ◌-◌, Bool, false, ◌||◌, ◌==◌, leb, ltb, if◌then◌else◌, List, [], ◌∷◌, ◌++◌, Bytes, length,
  take, drop, replicate,
}
use wireguard_android_expres.Encoding.{key_is_zero}
use wireguard_android_expres.Containers.{
  Family, af_unspec, af_inet, af_inet6, WgAllowedIp, WgPeer, WgDevice, has_flag, set_flag, new_peer,
  wgpeer_has_public_key, wgpeer_has_preshared_key, wgdevice_has_private_key,
  wgdevice_has_public_key,
}
use wireguard_android_expres.Uapi.Get.{ifnamsiz}

-- A netlink attribute.
pub record Attr : Type 0 where
  pub nla_type : ℕ
  pub payload : Bytes

-- libmnl, and the machine's byte order: the attributes nested in one, the number that some bytes
-- hold, and the text that they begin with.
pub record Reader : Type 0 where
  pub nested : Bytes → List Attr
  pub number : Bytes → ℕ
  pub str : Bytes → Bytes

-- `MNL_CB_ERROR`, `MNL_CB_STOP` and `MNL_CB_OK`.
pub data Cb : Type 0 where
  cb_error cb_stop cb_ok : Cb

-- `mnl_attr_parse` and `mnl_attr_parse_nested`: the callback until it says to stop.
abbrev pub go_on {ℓ} : {S : Type ℓ} → Cb × S → (S → Cb × S) → Cb × S
go_on (cb_error, st) next = (cb_error, st)
go_on (cb_stop, st) next = (cb_stop, st)
go_on (cb_ok, st) next = next st

unfoldable pub mnl_attr_parse {ℓ} : {S : Type ℓ} → (Attr → S → Cb × S) → List Attr → S → Cb × S
mnl_attr_parse cb [] st = (cb_ok, st)
mnl_attr_parse cb (a ∷ rest) st = go_on (cb a st) (λ s. mnl_attr_parse cb rest s)

-- `mnl_attr_validate` for a number of so many bytes.
abbrev pub has_bytes : ℕ → Attr → Bool
has_bytes n a = length a.payload == n

abbrev pub family_of : ℕ → Family
family_of n = if n == 2 then af_inet else if n == 10 then af_inet6 else af_unspec

-- An entry while it is read: the union `ip4` / `ip6` as its 16 bytes.
abbrev pub overlay : Bytes → Bytes → Bytes
overlay bytes ip = bytes ++ drop (length bytes) ip

abbrev pub set_family : Family → WgAllowedIp → WgAllowedIp
set_family f a = record a { family = f }

abbrev pub set_ip : Bytes → WgAllowedIp → WgAllowedIp
set_ip ip a = record a { ip = overlay ip a.ip }

abbrev pub set_cidr : ℕ → WgAllowedIp → WgAllowedIp
set_cidr n a = record a { cidr = n }

unfoldable pub parse_allowedip : Reader → Attr → WgAllowedIp → WgAllowedIp
parse_allowedip r at a =
    if at.nla_type == 1
    then (if has_bytes 2 at then set_family (family_of (r.number at.payload)) a else a)
    else if at.nla_type == 2
    then (if has_bytes 4 at || has_bytes 16 at then set_ip at.payload a else a)
    else if at.nla_type == 3
    then (if has_bytes 1 at then set_cidr (r.number at.payload) a else a)
    else a

abbrev pub allowedip_cb : Reader → Attr → WgAllowedIp → Cb × WgAllowedIp
allowedip_cb r at a = (cb_ok, parse_allowedip r at a)

abbrev pub new_allowedip : WgAllowedIp
new_allowedip = record { family = af_unspec; ip = replicate 16 0; cidr = 0; flags = 0 }

-- The bytes of the union that the family reads.
abbrev pub viewed : Family → Bytes → Bytes
viewed af_unspec ip = ip
viewed af_inet ip = take 4 ip
viewed af_inet6 ip = ip

abbrev pub view : WgAllowedIp → WgAllowedIp
view a = record a { ip = viewed a.family a.ip }

abbrev pub is_entry : Family → ℕ → Bool
is_entry af_unspec cidr = false
is_entry af_inet cidr = leb cidr 32
is_entry af_inet6 cidr = leb cidr 128

abbrev pub link_allowedip : WgAllowedIp → WgPeer → WgPeer
link_allowedip a p = record p { allowedips = p.allowedips ++ (view a ∷ []) }

-- `if (!ret) return ret;` and the test behind it. The entry is linked already.
abbrev pub check_entry : Cb × WgAllowedIp → Cb
check_entry (cb_stop, a) = cb_stop
check_entry (cb_error, a) = if is_entry a.family a.cidr then cb_ok else cb_error
check_entry (cb_ok, a) = if is_entry a.family a.cidr then cb_ok else cb_error

unfoldable pub parse_allowedips : Reader → Attr → WgPeer → Cb × WgPeer
parse_allowedips r at p =
    let result = mnl_attr_parse (allowedip_cb r) (r.nested at.payload) new_allowedip in
    (check_entry result, link_allowedip (result.1) p)

abbrev pub set_public_key : Bytes → WgPeer → WgPeer
set_public_key k p = record p { public_key = k; flags = set_flag p.flags wgpeer_has_public_key }

abbrev pub set_preshared_key : Bytes → WgPeer → WgPeer
set_preshared_key k p = record p {
  preshared_key = k;
  flags = if key_is_zero k then p.flags else set_flag p.flags wgpeer_has_preshared_key;
}

abbrev pub set_endpoint : Family → Bytes → WgPeer → WgPeer
set_endpoint f bytes p = record p { endpoint = record { sa_family = f; sa_bytes = bytes } }

-- An address is taken where its length fits its family.
abbrev pub parse_sockaddr : Family → Bytes → WgPeer → WgPeer
parse_sockaddr af_unspec bytes p = p
parse_sockaddr af_inet bytes p = if length bytes == 16 then set_endpoint af_inet bytes p else p
parse_sockaddr af_inet6 bytes p = if length bytes == 28 then set_endpoint af_inet6 bytes p else p

abbrev pub set_interval : ℕ → WgPeer → WgPeer
set_interval n p = record p { persistent_keepalive_interval = n }

abbrev pub set_handshake : ℕ → ℕ → WgPeer → WgPeer
set_handshake sec nsec p = record p {
  last_handshake_time = record { tv_sec = sec; tv_nsec = nsec };
}

abbrev pub set_rx : ℕ → WgPeer → WgPeer
set_rx n p = record p { rx_bytes = n }

abbrev pub set_tx : ℕ → WgPeer → WgPeer
set_tx n p = record p { tx_bytes = n }

-- The attributes that hold one value.
unfoldable pub parse_peer_value : Reader → Attr → WgPeer → WgPeer
parse_peer_value r at p =
    if at.nla_type == 1
    then (if has_bytes 32 at then set_public_key at.payload p else p)
    else if at.nla_type == 2
    then (if has_bytes 32 at then set_preshared_key at.payload p else p)
    else if at.nla_type == 4
    then (if ltb (length at.payload) 16
        then p
        else parse_sockaddr (family_of (r.number (take 2 at.payload))) at.payload p)
    else if at.nla_type == 5
    then (if has_bytes 2 at then set_interval (r.number at.payload) p else p)
    else if at.nla_type == 6
    then (if has_bytes 16 at
        then set_handshake (r.number (take 8 at.payload)) (r.number (drop 8 at.payload)) p
        else p)
    else if at.nla_type == 7
    then (if has_bytes 8 at then set_rx (r.number at.payload) p else p)
    else if at.nla_type == 8
    then (if has_bytes 8 at then set_tx (r.number at.payload) p else p)
    else p

unfoldable pub parse_peer : Reader → Attr → WgPeer → Cb × WgPeer
parse_peer r at p =
    if at.nla_type == 9
    then mnl_attr_parse (parse_allowedips r) (r.nested at.payload) p
    else (cb_ok, parse_peer_value r at p)

abbrev pub link_peer : WgPeer → WgDevice → WgDevice
link_peer p d = record d { peers = d.peers ++ (p ∷ []) }

-- `if (!ret) return ret;` and the test for the public key.
abbrev pub check_peer : Cb × WgPeer → Cb
check_peer (cb_stop, p) = cb_stop
check_peer (cb_error, p) = if has_flag p.flags wgpeer_has_public_key then cb_ok else cb_error
check_peer (cb_ok, p) = if has_flag p.flags wgpeer_has_public_key then cb_ok else cb_error

unfoldable pub parse_peers : Reader → Attr → WgDevice → Cb × WgDevice
parse_peers r at d =
    let result = mnl_attr_parse (parse_peer r) (r.nested at.payload) new_peer in
    (check_peer result, link_peer (result.1) d)

abbrev pub set_ifindex : ℕ → WgDevice → WgDevice
set_ifindex n d = record d { ifindex = n }

abbrev pub set_name : Bytes → WgDevice → WgDevice
set_name name d = record d { name = take (ifnamsiz - 1) name }

abbrev pub set_private_key : Bytes → WgDevice → WgDevice
set_private_key k d = record d {
  private_key = k;
  flags = set_flag d.flags wgdevice_has_private_key;
}

abbrev pub set_device_key : Bytes → WgDevice → WgDevice
set_device_key k d = record d { public_key = k; flags = set_flag d.flags wgdevice_has_public_key }

abbrev pub set_port : ℕ → WgDevice → WgDevice
set_port n d = record d { listen_port = n }

abbrev pub set_mark : ℕ → WgDevice → WgDevice
set_mark n d = record d { fwmark = n }

unfoldable pub parse_device_value : Reader → Attr → WgDevice → WgDevice
parse_device_value r at d =
    if at.nla_type == 1
    then (if has_bytes 4 at then set_ifindex (r.number at.payload) d else d)
    else if at.nla_type == 2
    then (if length at.payload == 0 then d else set_name (r.str at.payload) d)
    else if at.nla_type == 3
    then (if has_bytes 32 at then set_private_key at.payload d else d)
    else if at.nla_type == 4
    then (if has_bytes 32 at then set_device_key at.payload d else d)
    else if at.nla_type == 6
    then (if has_bytes 2 at then set_port (r.number at.payload) d else d)
    else if at.nla_type == 7
    then (if has_bytes 4 at then set_mark (r.number at.payload) d else d)
    else d

unfoldable pub parse_device : Reader → Attr → WgDevice → Cb × WgDevice
parse_device r at d =
    if at.nla_type == 8
    then mnl_attr_parse (parse_peers r) (r.nested at.payload) d
    else (cb_ok, parse_device_value r at d)
