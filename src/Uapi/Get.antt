-- ===== src/Uapi/Get.antt =====
-- `userspace_get_device`: a device from the lines that a userspace implementation answers.
mod Lines
unfoldable pub use Lines.*
use wireguard_android_expres.Base.{
  ℕ, ◌+◌, ◌-◌, ◌^◌, Bool, true, false, ◌||◌, not, ◌==◌, ltb, if◌then◌else◌, Option, none, some,
  List, [], ◌∷◌, ◌++◌, Bytes, length, take, codes, bytes_eq, split_first, u8, update_last,
  get_last_or,
}
use wireguard_android_expres.Encoding.{Decoded, decoded, key_from_hex, key_is_zero}
use wireguard_android_expres.Containers.{
  Family, WgAllowedIp, WgPeer, WgDevice, set_flag, new_peer, new_device, wgpeer_has_public_key,
  wgpeer_has_preshared_key, wgpeer_has_persistent_keepalive_interval, wgdevice_has_private_key,
  wgdevice_has_public_key, wgdevice_has_listen_port, wgdevice_has_fwmark,
}
use wireguard_android_expres.Host.{Host, Resolved, found}
use wireguard_android_expres.Config.Number.{strtoul}
use wireguard_android_expres.Config.Fields.{first_is_digit, is_inet_addr, parse_ip}
use wireguard_android_expres.Config.Endpoint.{split_endpoint}
use wireguard_android_expres.Config.AllowedIps.{max_cidr, link}
use wireguard_android_expres.Uapi.Set.{Ret, plus, minus, eproto, cut_line}

-- The keys that are read while there is no peer.
unfoldable pub get_device_line : Host → (Bytes → Bytes) → GetState → Bytes → Bytes → Turn → Turn
get_device_line h generate_public st key value otherwise =
    if bytes_eq key (codes "private_key")
    then with_key (key_from_hex value) (put_private_key generate_public st)
    else if bytes_eq key (codes "listen_port")
    then with_num h value 0xffff (put_listen_port st)
    else if bytes_eq key (codes "fwmark")
    then with_num h value 0xffff_ffff (put_fwmark st)
    else otherwise

-- The keys that are read while there is a peer.
unfoldable pub get_peer_line : Host → GetState → Bytes → Bytes → Turn → Turn
get_peer_line h st key value otherwise =
    if bytes_eq key (codes "preshared_key")
    then get_preshared_key st value
    else if bytes_eq key (codes "endpoint")
    then get_endpoint h st value
    else if bytes_eq key (codes "persistent_keepalive_interval")
    then with_num h value 0xffff (put_keepalive st)
    else if bytes_eq key (codes "allowed_ip")
    then get_allowed_ip h st value
    else if bytes_eq key (codes "last_handshake_time_sec")
    then with_num h value 0x7fff_ffff_ffff_ffff (put_sec st)
    else if bytes_eq key (codes "last_handshake_time_nsec")
    then with_num h value 0x7fff_ffff_ffff_ffff (put_nsec st)
    else if bytes_eq key (codes "rx_bytes")
    then with_num h value 0xffff_ffff_ffff_ffff (put_rx st)
    else if bytes_eq key (codes "tx_bytes")
    then with_num h value 0xffff_ffff_ffff_ffff (put_tx st)
    else otherwise

-- One line, cut into key and value. A key that is not known is passed over.
unfoldable pub get_line : Host → (Bytes → Bytes) → GetState → Bytes → Bytes → Turn
get_line h generate_public st key value =
    let last =
      if bytes_eq key (codes "errno")
      then with_num h value 0x7fff_ffff (put_errno st)
      else next st in
    if st.has_peer
    then (if bytes_eq key (codes "public_key")
        then get_public_key st value
        else get_peer_line h st key value last)
    else get_device_line h generate_public st key value
        (if bytes_eq key (codes "public_key") then get_public_key st value else last)

abbrev pub is_zero : Ret → Bool
is_zero (plus n) = n == 0
is_zero (minus n) = n == 0

-- What the function returns, and the device where that is 0; any other value frees it.
pub record Got : Type 0 where
  pub ret : Ret
  pub out : Option WgDevice

abbrev pub finish : Ret → WgDevice → Got
finish ret dev = record { ret = ret; out = if is_zero ret then some dev else none }

-- The loop over the lines of the reply.
unfoldable pub get_loop : Host → (Bytes → Bytes) → GetState → List Bytes → Got
get_loop h g st [] = finish (minus eproto) st.dev
get_loop h g st (l ∷ ls) =
    if bytes_eq l (b'\n' ∷ []) then finish st.ret st.dev else elim (cut_line l) [
      | none ↦ finish (minus eproto) st.dev
      | some (key, value) ↦ elim (get_line h g st key value) [
        | next st' ↦ get_loop h g st' ls
        | broken ↦ finish (minus eproto) st.dev
        | goto_err ret ↦ finish ret st.dev
      ]
    ]

abbrev pub ifnamsiz : ℕ
ifnamsiz = 16

-- `userspace_get_device`, from the lines of the reply; `none` is an interface that does not open.
unfoldable pub userspace_get_device : Host → (Bytes → Bytes) → ℕ → Bytes → Option (List Bytes) → Got
userspace_get_device h g errno iface none = record { ret = minus errno; out = none }
userspace_get_device h g errno iface (some reply) =
    get_loop h g
      (record {
        dev = record new_device { name = take (ifnamsiz - 1) iface };
        has_peer = false;
        has_allowedip = false;
        ret = minus eproto;
      })
      reply
