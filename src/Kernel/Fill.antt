-- ===== src/Kernel/Fill.antt =====
-- kernel_set_device: how a message is filled, and the rounds of messages.
use wireguard_android_expres.Base.{
  ℕ, zero, suc, ◌+◌, Bool, true, false, ◌&&◌, not, ◌==◌, leb, if◌then◌else◌, Option, none, some,
  List, [], ◌∷◌, length, ◌>>=◌,
}
use wireguard_android_expres.Containers.{
  Family, af_unspec, af_inet, af_inet6, WgAllowedIp, WgPeer, WgDevice, has_flag,
  wgpeer_has_preshared_key, wgpeer_has_persistent_keepalive_interval, wgdevice_replace_peers,
  wgdevice_has_private_key, wgdevice_has_listen_port, wgdevice_has_fwmark,
}
use wireguard_android_expres.Config.Valid.{non_empty}
use wireguard_android_expres.Kernel.{
  Mnl, PeerMessage, Message, peer_flags, peer_message, device_message,
}

-- `mnl_attr_put_check` for a message of a length, and an attribute with so many bytes: the new
-- length, or none where it does not fit. `mnl_attr_nest_start_check` puts an empty one.
unfoldable pub put_check : Mnl → ℕ → ℕ → Option ℕ
put_check m payload len =
    if leb (len + m.attr_size payload) m.buffer_size then some (len + m.attr_size payload) else none

abbrev pub put_when : Mnl → Bool → ℕ → ℕ → Option ℕ
put_when m true payload len = put_check m payload len
put_when m false payload len = some len

-- The bytes of an endpoint, and of an address, by the family.
abbrev pub put_sockaddr : Mnl → Family → ℕ → Option ℕ
put_sockaddr m af_unspec len = some len
put_sockaddr m af_inet len = put_check m 16 len
put_sockaddr m af_inet6 len = put_check m 28 len

abbrev pub put_ipaddr : Mnl → Family → ℕ → Option ℕ
put_ipaddr m af_unspec len = some len
put_ipaddr m af_inet len = put_check m 4 len
put_ipaddr m af_inet6 len = put_check m 16 len

-- The attributes that only a peer's first part has.
unfoldable pub put_first : Mnl → Bool → WgPeer → ℕ → Option ℕ
put_first m false p len = some len
put_first m true p len =
    put_when m (has_flag p.flags wgpeer_has_preshared_key) 32 len
    >>= put_sockaddr m p.endpoint.sa_family
    >>= put_when m (has_flag p.flags wgpeer_has_persistent_keepalive_interval) 2

-- All of a peer but its addresses; none is `goto toobig_peers`.
unfoldable pub put_peer_part : Mnl → Bool → WgPeer → ℕ → Option ℕ
put_peer_part m first p len =
    put_check m 0 len
    >>= put_check m 32
    >>= put_first m first p
    >>= put_when m (not (peer_flags first p == 0)) 4

-- One address; none is `goto toobig_allowedips`.
unfoldable pub put_allowedip : Mnl → WgAllowedIp → ℕ → Option ℕ
put_allowedip m a len =
    put_check m 0 len
    >>= put_check m 2
    >>= put_ipaddr m a.family
    >>= put_check m 1
    >>= put_when m (not (a.flags == 0)) 4

-- The addresses that were put, and those that are left.
pub record Ips : Type 0 where
  pub put : List WgAllowedIp
  pub left : List WgAllowedIp
  pub len : ℕ

abbrev pub cons_put : WgAllowedIp → Ips → Ips
cons_put a i = record i { put = a ∷ i.put }

-- A turn that goes on, or `goto toobig_allowedips`.
abbrev pub put_turn : WgAllowedIp → List WgAllowedIp → ℕ → (ℕ → Ips) → Option ℕ → Ips
put_turn a as' len next none = record { put = []; left = a ∷ as'; len = len }
put_turn a as' len next (some l) = cons_put a (next l)

-- The loop over a peer's addresses, from the one that stands next.
unfoldable pub put_loop : Mnl → List WgAllowedIp → ℕ → Ips
put_loop m [] len = record { put = []; left = []; len = len }
put_loop m (a ∷ as') len = put_turn a as' len (λ l. put_loop m as' l) (put_allowedip m a len)

abbrev pub put_nested : List WgAllowedIp → ℕ → (ℕ → Ips) → Option ℕ → Ips
put_nested ips len next none = record { put = []; left = ips; len = len }
put_nested ips len next (some l) = next l

unfoldable pub put_allowedips : Mnl → List WgAllowedIp → ℕ → Ips
put_allowedips m [] len = record { put = []; left = []; len = len }
put_allowedips m (a ∷ as') len =
    put_nested (a ∷ as') len (λ l. put_loop m (a ∷ as') l) (put_check m 0 len)

-- What a message has taken, and what is left: `peer`, as the list from it on, and `allowedip`, as
-- the list from it on, empty for NULL.
pub record Filled : Type 0 where
  pub peers : List PeerMessage
  pub peer : List WgPeer
  pub allowedip : List WgAllowedIp
  pub len : ℕ

abbrev pub cons_peer : PeerMessage → Filled → Filled
cons_peer p f = record f { peers = p ∷ f.peers }

-- `if (!allowedip) allowedip = peer->first_allowedip`
abbrev pub todo : List WgAllowedIp → WgPeer → List WgAllowedIp
todo [] p = p.allowedips
todo (a ∷ as') p = a ∷ as'

-- The peer's part is put, with the addresses that were: on to the next peer, or to send.
abbrev pub after_ips :
    Bool → WgPeer → List WgPeer → (ℕ → Filled) → List WgAllowedIp → List WgAllowedIp → ℕ → Filled
after_ips first p ps next put [] len = cons_peer (peer_message first p put) (next len)
after_ips first p ps next put (a ∷ left) len = record {
  peers = peer_message first p put ∷ [];
  peer = p ∷ ps;
  allowedip = a ∷ left;
  len = len;
}

-- A turn that puts the peer, or `goto toobig_peers`.
abbrev pub peer_turn :
    Mnl → List WgAllowedIp → WgPeer → List WgPeer → ℕ → (ℕ → Filled) → Option ℕ → Filled
peer_turn m ips p ps len next none = record {
  peers = [];
  peer = p ∷ ps;
  allowedip = ips;
  len = len;
}
peer_turn m ips p ps len next (some l) =
    let i = put_allowedips m (todo ips p) l in
    after_ips (not (non_empty ips)) p ps next i.put i.left i.len

-- The loop over the peers.
unfoldable pub put_peers : Mnl → List WgAllowedIp → List WgPeer → ℕ → Filled
put_peers m ips [] len = record { peers = []; peer = []; allowedip = ips; len = len }
put_peers m ips (p ∷ ps) len =
    peer_turn m ips p ps len (λ k. put_peers m [] ps k)
      (put_peer_part m (not (non_empty ips)) p len)

abbrev pub size_when : Bool → ℕ → ℕ
size_when true n = n
size_when false n = 0

-- The length with the device's attributes, which are put without a check.
unfoldable pub device_len : Mnl → Bool → WgDevice → ℕ
device_len m first dev =
    m.prepared
    + m.attr_size (suc (length dev.name))
    + size_when (first && has_flag dev.flags wgdevice_has_private_key) (m.attr_size 32)
    + size_when (first && has_flag dev.flags wgdevice_has_listen_port) (m.attr_size 2)
    + size_when (first && has_flag dev.flags wgdevice_has_fwmark) (m.attr_size 4)
    + size_when (first && has_flag dev.flags wgdevice_replace_peers) (m.attr_size 4)

-- One message, from `again` to `send`.
unfoldable pub fill : Mnl → Bool → WgDevice → List WgAllowedIp → List WgPeer → Filled
fill m first dev ips [] = record {
  peers = [];
  peer = [];
  allowedip = ips;
  len = device_len m first dev;
}
fill m first dev ips (p ∷ ps) = put_peers m ips (p ∷ ps) (device_len m first dev + m.attr_size 0)

-- How the function ends: its error number, 0 for none, and the messages that it sent.
pub data Outcome : Type 0 where
  returned : ℕ → List Message → Outcome
  still_sending : Outcome

abbrev pub cons_sent : Message → Outcome → Outcome
cons_sent msg (returned e msgs) = returned e (msg ∷ msgs)
cons_sent msg still_sending = still_sending

abbrev pub next_round : ℕ → Message → List WgPeer → Outcome → Outcome
next_round zero msg [] rest = returned 0 (msg ∷ [])
next_round zero msg (p ∷ ps) rest = cons_sent msg rest
next_round (suc e) msg left rest = returned (suc e) (msg ∷ [])

-- The rounds. `answer` is 0, or the error of sending the message or of the kernel's reply.
unfoldable pub rounds :
    Mnl → (Message → ℕ) → WgDevice → ℕ → Bool → List WgAllowedIp → List WgPeer → Outcome
rounds m answer dev zero first ips peers = still_sending
rounds m answer dev (suc fuel) first ips peers =
    let f = fill m first dev ips peers in
    let msg = device_message first dev f.peers f.len in
    next_round (answer msg) msg f.peer (rounds m answer dev fuel false f.allowedip f.peer)

-- `kernel_set_device`, with as many rounds as the fuel allows.
unfoldable pub kernel_set_device : Mnl → (Message → ℕ) → ℕ → WgDevice → Outcome
kernel_set_device m answer fuel dev = rounds m answer dev fuel true [] dev.peers
