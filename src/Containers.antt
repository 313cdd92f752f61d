-- ===== src/Containers.antt =====
-- tunnel/tools/wireguard-tools/src/containers.h: devices, their peers and the peers' allowed
-- addresses. A linked list is a list in link order; flags are the bit masks of the source.
pub mod Flags
use wireguard_android_expres.Base.{
  ℕ, ◌-◌, Bool, not, ◌==◌, List, [], Bytes, replicate, bit_and, bit_or,
}

-- `AF_UNSPEC`, `AF_INET` and `AF_INET6`.
pub data Family : Type 0 where
  af_unspec af_inet af_inet6 : Family

abbrev pub wgallowedip_remove_me : ℕ
wgallowedip_remove_me = 1

-- `struct wgallowedip`. The union holds 4 or 16 bytes in network order, by `family`.
pub record WgAllowedIp : Type 0 where
  pub family : Family
  pub ip : Bytes
  pub cidr : ℕ
  pub flags : ℕ

abbrev pub wgpeer_remove_me : ℕ
wgpeer_remove_me = 1

abbrev pub wgpeer_replace_allowedips : ℕ
wgpeer_replace_allowedips = 2

abbrev pub wgpeer_has_public_key : ℕ
wgpeer_has_public_key = 4

abbrev pub wgpeer_has_preshared_key : ℕ
wgpeer_has_preshared_key = 8

abbrev pub wgpeer_has_persistent_keepalive_interval : ℕ
wgpeer_has_persistent_keepalive_interval = 16

-- A socket address: its family and its bytes.
pub record Sockaddr : Type 0 where
  pub sa_family : Family
  pub sa_bytes : Bytes

pub record Timespec64 : Type 0 where
  pub tv_sec : ℕ
  pub tv_nsec : ℕ

-- `struct wgpeer`. The pointer `last_allowedip` of the struct is not used by this code.
pub record WgPeer : Type 0 where
  pub flags : ℕ
  pub public_key : Bytes
  pub preshared_key : Bytes
  pub endpoint : Sockaddr
  pub last_handshake_time : Timespec64
  pub rx_bytes : ℕ
  pub tx_bytes : ℕ
  pub persistent_keepalive_interval : ℕ
  pub allowedips : List WgAllowedIp

abbrev pub wgdevice_replace_peers : ℕ
wgdevice_replace_peers = 1

abbrev pub wgdevice_has_private_key : ℕ
wgdevice_has_private_key = 2

abbrev pub wgdevice_has_public_key : ℕ
wgdevice_has_public_key = 4

abbrev pub wgdevice_has_listen_port : ℕ
wgdevice_has_listen_port = 8

abbrev pub wgdevice_has_fwmark : ℕ
wgdevice_has_fwmark = 16

-- `struct wgdevice`. The pointer `last_peer` of the struct is not used by this code.
pub record WgDevice : Type 0 where
  pub name : Bytes
  pub ifindex : ℕ
  pub flags : ℕ
  pub public_key : Bytes
  pub private_key : Bytes
  pub fwmark : ℕ
  pub listen_port : ℕ
  pub peers : List WgPeer

-- `flags & mask`, `flags |= mask` and `flags &= ~mask`.
abbrev pub has_flag : ℕ → ℕ → Bool
has_flag flags mask = not (bit_and flags mask == 0)

abbrev pub set_flag : ℕ → ℕ → ℕ
set_flag flags mask = bit_or flags mask

abbrev pub clear_flag : ℕ → ℕ → ℕ
clear_flag flags mask = bit_and flags (0xffff_ffff - mask)

-- What `calloc` gives.
abbrev pub zero_key : Bytes
zero_key = replicate 32 0

abbrev pub new_peer : WgPeer
new_peer = record {
  flags = 0;
  public_key = zero_key;
  preshared_key = zero_key;
  endpoint = record { sa_family = af_unspec; sa_bytes = [] };
  last_handshake_time = record { tv_sec = 0; tv_nsec = 0 };
  rx_bytes = 0;
  tx_bytes = 0;
  persistent_keepalive_interval = 0;
  allowedips = [];
}

abbrev pub new_device : WgDevice
new_device = record {
  name = [];
  ifindex = 0;
  flags = 0;
  public_key = zero_key;
  private_key = zero_key;
  fwmark = 0;
  listen_port = 0;
  peers = [];
}
