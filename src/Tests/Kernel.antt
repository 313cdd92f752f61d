-- ===== src/Tests/Kernel.antt =====
-- Runs and instances of the theorems about ipc-linux.h.
use native.Mathlib.Nat.{pow-suc}
use wireguard_android_expres.Base.{
  ℕ, ◌+◌, ◌*◌, ◌/◌, ◌%◌, ◌^◌, ◌<◌, ◌≤◌, ◌≡◌, refl, arith, true, ◌==◌, if◌then◌else◌, none, some,
  List, [], ◌∷◌, Bytes, map, replicate, length, codes, bytes_eq, get_or, All,
}
use wireguard_android_expres.Containers.{
  af_inet, WgAllowedIp, WgPeer, WgDevice, has_flag, new_peer, new_device, wgpeer_has_public_key,
}
use wireguard_android_expres.Kernel.{Mnl, Message, peer_flags, peer_message, device_message}
use wireguard_android_expres.Kernel.Fill.{
  put_check, put_first, put_peer_part, put_allowedip, put_loop, put_allowedips, put_peers,
  device_len, fill, Outcome, returned, still_sending, rounds, kernel_set_device,
}
use wireguard_android_expres.Kernel.Split.{IsSplit, assigned, wanted}
use wireguard_android_expres.Kernel.Sent.{all_peers, IsAbout, HasRoom, kernel_set_device_lem}
use wireguard_android_expres.Kernel.Stops.{IsStop, OnReturned, kernel_set_device-IsStop}
use wireguard_android_expres.Kernel.Get.{
  Attr, Reader, cb_ok, cb_error, mnl_attr_parse, parse_allowedip, parse_allowedips,
  parse_peer_value, parse_peer, parse_peers,
}
use wireguard_android_expres.Kernel.Coalesce.{coalesce_peers}
use wireguard_android_expres.Kernel.Joined.{
  Group, whole, parts, coalesce_peers-parts, coalesce_peers-null,
}
use wireguard_android_expres.Kernel.Device.{not_received, received, kernel_get_device}
use wireguard_android_expres.Kernel.Valid.{IsReader, IsKernelDevice, OnRetrieved}
use wireguard_android_expres.Kernel.Callbacks.{kernel_get_device-IsKernelDevice, parse_peers-lost}

-- libmnl: a header of four bytes, and a length rounded up to four; a small buffer.
abbrev mnl : Mnl
mnl = record { attr_size = λ n. 4 + (n + 3) / 4 * 4; prepared = 20; buffer_size = 400 }

abbrev ip_of : ℕ → WgAllowedIp
ip_of n = record { family = af_inet; ip = 10 ∷ 0 ∷ 0 ∷ n ∷ []; cidr = 32; flags = 0 }

abbrev peer_of : ℕ → List WgAllowedIp → WgPeer
peer_of n ips = record new_peer { flags = 6; public_key = replicate 32 n; allowedips = ips }

abbrev ips : List WgAllowedIp
ips = ip_of 1 ∷ ip_of 2 ∷ ip_of 3 ∷ ip_of 4 ∷ ip_of 5 ∷ ip_of 6 ∷ ip_of 7 ∷ ip_of 8 ∷ ip_of 9 ∷ []

abbrev device : WgDevice
device = record new_device {
  name = codes "wg0";
  flags = 9;
  listen_port = 51820;
  peers = peer_of 1 ips ∷ peer_of 2 (ip_of 10 ∷ []) ∷ [];
}

abbrev lengths : Outcome → List ℕ
lengths (returned e msgs) = map (λ msg. msg.nlmsg_len) msgs
lengths still_sending = []

-- The device takes two messages, and the first peer goes on in the second.
kernel_set_device_run : lengths (kernel_set_device mnl (λ msg. 0) 13 device) ≡ 400 ∷ 104 ∷ []
unfolding kernel_set_device rounds fill put_peers put_peer_part put_first put_allowedips put_loop
    put_allowedip put_check device_len peer_message peer_flags device_message
kernel_set_device_run = refl

device-HasRoom : HasRoom mnl device
unfolding device_len
device-HasRoom = omega arith

kernel_set_device_lem_example :
    (msgs : List Message) × (kernel_set_device mnl (λ msg. 0) 13 device ≡ returned 0 msgs)
    × IsSplit [] device.peers (all_peers msgs)
    × (assigned (all_peers msgs) ≡ wanted device.peers)
    × All (λ msg. msg.nlmsg_len ≤ mnl.buffer_size) msgs
    × IsAbout true device msgs
kernel_set_device_lem_example =
    kernel_set_device_lem mnl (λ msg. 0) device 13 (λ msg. refl) (omega arith) device-HasRoom
      (omega arith)

kernel_set_device-IsStop_example :
    OnReturned
      (IsStop (λ msg. if length msg.peers == 2 then 28 else 0))
      (kernel_set_device mnl (λ msg. if length msg.peers == 2 then 28 else 0) 13 device)
kernel_set_device-IsStop_example =
    kernel_set_device-IsStop mnl (λ msg. if length msg.peers == 2 then 28 else 0) 13 device

abbrev group : Group
group = record {
  first = peer_of 1 (ip_of 1 ∷ []);
  more = peer_of 1 (ip_of 2 ∷ ip_of 3 ∷ []) ∷ peer_of 1 (ip_of 4 ∷ []) ∷ [];
}

abbrev other_group : Group
other_group = record { first = peer_of 2 []; more = [] }

coalesce_peers-parts_example :
    coalesce_peers (parts (group ∷ other_group ∷ [])) ≡ some (map whole (group ∷ other_group ∷ []))
unfolding bytes_eq
coalesce_peers-parts_example =
    coalesce_peers-parts (group ∷ other_group ∷ []) (((refl, refl), ((refl, refl), tt)), (tt, tt))
      (refl, (refl, tt))

coalesce_peers-null_example :
    coalesce_peers (peer_of 1 ips ∷ peer_of 1 [] ∷ peer_of 1 ips ∷ []) ≡ none
unfolding bytes_eq
coalesce_peers-null_example =
    coalesce_peers-null (peer_of 1 ips) (peer_of 1 []) (peer_of 1 ips) [] refl refl refl refl

abbrev attr : ℕ → Bytes → Attr
attr n bytes = record { nla_type = n; payload = bytes }

-- An encoding in which the first byte tells what is nested.
abbrev nested_in : Bytes → List Attr
nested_in bytes =
    if get_or bytes 0 0 == 200
    then attr 1 (203 ∷ []) ∷ []
    else if get_or bytes 0 0 == 203
    then attr 1 (replicate 32 7) ∷ attr 9 (201 ∷ []) ∷ []
    else if get_or bytes 0 0 == 201
    then attr 1 (202 ∷ []) ∷ []
    else attr 1 (2 ∷ 0 ∷ []) ∷ attr 2 (10 ∷ 0 ∷ 0 ∷ 1 ∷ []) ∷ attr 3 (77 ∷ []) ∷ []

unfoldable little_endian : Bytes → ℕ
little_endian [] = 0
little_endian (b ∷ bs) = b % 256 + 256 * little_endian bs

little_endian-lt : (bytes : Bytes) → little_endian bytes < 256 ^ length bytes
unfolding little_endian
little_endian-lt [] = omega arith
little_endian-lt (b ∷ bs) = omega (arith, little_endian-lt bs, pow-suc 256 (length bs))

abbrev reader : Reader
reader = record { nested = nested_in; number = little_endian; str = λ bytes. bytes }

reader-IsReader : IsReader reader
reader-IsReader bytes = little_endian-lt bytes

abbrev reply : List (List Attr)
reply = (attr 2 (codes "wg0") ∷ attr 6 (108 ∷ 202 ∷ []) ∷ attr 8 (200 ∷ []) ∷ []) ∷ []

kernel_get_device-IsKernelDevice_example :
    OnRetrieved IsKernelDevice
      (kernel_get_device reader (not_received 4 ∷ received 0 reply ∷ []) (codes "wg0"))
kernel_get_device-IsKernelDevice_example =
    kernel_get_device-IsKernelDevice reader reader-IsReader (not_received 4 ∷ received 0 reply ∷ [])
      (codes "wg0")

-- A peer with its key and an IPv4 entry of 77 bits is taken.
parse_peers_run : (parse_peers reader (attr 1 (203 ∷ [])) new_device).0 ≡ cb_ok
unfolding parse_peers parse_peer parse_peer_value parse_allowedips parse_allowedip mnl_attr_parse
    little_endian
parse_peers_run = refl

parse_peers-lost_example : (parse_peers reader (attr 1 (203 ∷ [])) new_device).0 ≡ (
    if has_flag
      (mnl_attr_parse (parse_peer reader) (nested_in (203 ∷ [])) new_peer).1.flags
      wgpeer_has_public_key
    then cb_ok
    else cb_error)
parse_peers-lost_example = parse_peers-lost reader reader-IsReader (attr 1 (203 ∷ [])) new_device
