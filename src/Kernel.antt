-- ===== src/Kernel.antt =====
-- tunnel/tools/wireguard-tools/src/ipc-linux.h: the messages to the kernel. How much room an
-- attribute takes is libmnl's matter and a parameter; so are the kernel's answers.
pub mod Fill
pub mod Room
pub mod Progress
pub mod Bounds
pub mod Sent
pub mod Stops
pub mod Get
pub mod Coalesce
pub mod Joined
pub mod Device
pub mod Valid
pub mod Callbacks
pub mod Split
use wireguard_android_expres.Base.{
  ℕ, ◌+◌, Bool, true, false, ◌&&◌, not, ◌==◌, leb, if◌then◌else◌, Option, none, some, List, [], ◌∷◌,
  Bytes,
}
use wireguard_android_expres.Containers.{
  Family, af_unspec, af_inet, af_inet6, WgAllowedIp, WgPeer, WgDevice, Sockaddr, has_flag,
  wgpeer_remove_me, wgpeer_replace_allowedips, wgpeer_has_preshared_key,
  wgpeer_has_persistent_keepalive_interval, wgdevice_replace_peers, wgdevice_has_private_key,
  wgdevice_has_listen_port, wgdevice_has_fwmark,
}

-- libmnl: the bytes of an attribute with so many bytes in it, the length of a message that
-- `mnlg_msg_prepare` begins, and the bytes of the buffer (`SOCKET_BUFFER_SIZE`).
pub record Mnl : Type 0 where
  pub attr_size : ℕ → ℕ
  pub prepared : ℕ
  pub buffer_size : ℕ

-- The part of a message that is about one peer.
pub record PeerMessage : Type 0 where
  pub public_key : Bytes
  pub flags : Option ℕ
  pub preshared_key : Option Bytes
  pub endpoint : Option Sockaddr
  pub persistent_keepalive_interval : Option ℕ
  pub allowedips : List WgAllowedIp

-- A message, and its length.
pub record Message : Type 0 where
  pub ifname : Bytes
  pub private_key : Option Bytes
  pub listen_port : Option ℕ
  pub fwmark : Option ℕ
  pub flags : Option ℕ
  pub peers : List PeerMessage
  pub nlmsg_len : ℕ

abbrev pub when_some {ℓ} : {A : Type ℓ} → Bool → A → Option A
when_some true a = some a
when_some false a = none

abbrev pub flag_when : Bool → ℕ → ℕ
flag_when b flag = if b then flag else 0

-- `uint32_t flags`, put where it is not 0.
abbrev pub put_flags : ℕ → Option ℕ
put_flags flags = when_some (not (flags == 0)) flags

-- `WGDEVICE_F_REPLACE_PEERS`, `WGPEER_F_REMOVE_ME` and `WGPEER_F_REPLACE_ALLOWEDIPS`.
abbrev pub wgdevice_f_replace_peers : ℕ
wgdevice_f_replace_peers = 1

abbrev pub wgpeer_f_remove_me : ℕ
wgpeer_f_remove_me = 1

abbrev pub wgpeer_f_replace_allowedips : ℕ
wgpeer_f_replace_allowedips = 2

-- The flags of a peer, in its first part and in a further one. The two bits are disjoint.
unfoldable pub peer_flags : Bool → WgPeer → ℕ
peer_flags first p =
    flag_when (has_flag p.flags wgpeer_remove_me) wgpeer_f_remove_me
    + flag_when (first && has_flag p.flags wgpeer_replace_allowedips) wgpeer_f_replace_allowedips

abbrev pub put_endpoint : Sockaddr → Family → Option Sockaddr
put_endpoint e af_unspec = none
put_endpoint e af_inet = some e
put_endpoint e af_inet6 = some e

-- What a message says of a peer, with some of its addresses.
unfoldable pub peer_message : Bool → WgPeer → List WgAllowedIp → PeerMessage
peer_message first p ips = record {
  public_key = p.public_key;
  flags = put_flags (peer_flags first p);
  preshared_key = when_some (first && has_flag p.flags wgpeer_has_preshared_key) p.preshared_key;
  endpoint = if first then put_endpoint p.endpoint p.endpoint.sa_family else none;
  persistent_keepalive_interval =
      when_some (first && has_flag p.flags wgpeer_has_persistent_keepalive_interval)
        p.persistent_keepalive_interval;
  allowedips = ips;
}

-- What a message says of the device: everything in the first, its name in each.
unfoldable pub device_message : Bool → WgDevice → List PeerMessage → ℕ → Message
device_message first dev peers len = record {
  ifname = dev.name;
  private_key = when_some (first && has_flag dev.flags wgdevice_has_private_key) dev.private_key;
  listen_port = when_some (first && has_flag dev.flags wgdevice_has_listen_port) dev.listen_port;
  fwmark = when_some (first && has_flag dev.flags wgdevice_has_fwmark) dev.fwmark;
  flags =
      put_flags
        (flag_when (first && has_flag dev.flags wgdevice_replace_peers) wgdevice_f_replace_peers);
  peers = peers;
  nlmsg_len = len;
}
