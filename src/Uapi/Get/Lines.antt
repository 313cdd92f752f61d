-- ===== src/Uapi/Get/Lines.antt =====
-- The variables of the loop of `userspace_get_device`, and what single lines do to them.
use wireguard_android_expres.Base.{
  ℕ, ◌+◌, ◌-◌, ◌^◌, Bool, true, false, ◌||◌, not, ◌==◌, ltb, if◌then◌else◌, Option, none, some, [],
  ◌∷◌, ◌++◌, Bytes, length, split_first, u8, update_last, get_last_or,
}
use wireguard_android_expres.Encoding.{Decoded, decoded, key_from_hex, key_is_zero}
use wireguard_android_expres.Containers.{
  Family, WgAllowedIp, WgPeer, WgDevice, set_flag, new_peer, wgpeer_has_public_key,
  wgpeer_has_preshared_key, wgpeer_has_persistent_keepalive_interval, wgdevice_has_private_key,
  wgdevice_has_public_key, wgdevice_has_listen_port, wgdevice_has_fwmark,
}
use wireguard_android_expres.Host.{Host, Resolved, found}
use wireguard_android_expres.Config.Number.{strtoul}
use wireguard_android_expres.Config.Fields.{first_is_digit, is_inet_addr, parse_ip}
use wireguard_android_expres.Config.Endpoint.{split_endpoint}
use wireguard_android_expres.Config.AllowedIps.{max_cidr, link}
use wireguard_android_expres.Uapi.Set.{Ret, plus, minus}

-- The variables of the loop. `peer` is the end of the device's list where `has_peer` holds, and
-- NULL otherwise; so is `allowedip` in the list of that peer.
pub record GetState : Type 0 where
  pub dev : WgDevice
  pub has_peer : Bool
  pub has_allowedip : Bool
  pub ret : Ret

-- How a turn of the loop ends: the next turn, `break`, or `goto err` with a value of `ret`.
pub data Turn : Type 0 where
  next : GetState → Turn
  broken : Turn
  goto_err : Ret → Turn

abbrev pub enetunreach : ℕ
enetunreach = 101

abbrev pub get_peer : GetState → WgPeer
get_peer st = get_last_or new_peer st.dev.peers

abbrev pub put_peer : GetState → WgPeer → Turn
put_peer st peer =
    next (record st { dev = record (st.dev) { peers = update_last (λ _. peer) st.dev.peers } })

abbrev pub put_dev : GetState → WgDevice → Turn
put_dev st dev = next (record st { dev = dev })

-- The macro `NUM`, with what is done with the number.
unfoldable pub num : Host → Bytes → ℕ → Option ℕ
num h value max =
    if not (first_is_digit h value)
    then none
    else let (n, end) = strtoul (2 ^ 64 - 1) 10 value in
      if not (length end == 0) || ltb max n then none else some n

abbrev pub with_num : Host → Bytes → ℕ → (ℕ → Turn) → Turn
with_num h value max f = elim (num h value max) [ none ↦ broken | some n ↦ f n ]

abbrev pub with_key : Decoded → (Bytes → Turn) → Turn
with_key (decoded true key) f = f key
with_key _ f = broken

-- The line `public_key`: a new peer, linked before its key is read.
unfoldable pub get_public_key : GetState → Bytes → Turn
get_public_key st value =
    let peers = if st.has_peer then st.dev.peers ++ (new_peer ∷ []) else new_peer ∷ [] in
    let st' = record st {
      dev = record (st.dev) { peers = peers };
      has_peer = true;
      has_allowedip = false;
    } in
    with_key (key_from_hex value) λ key.
      put_peer st' (record new_peer { public_key = key; flags = set_flag 0 wgpeer_has_public_key })

unfoldable pub get_preshared_key : GetState → Bytes → Turn
get_preshared_key st value =
    let peer = get_peer st in
    with_key (key_from_hex value) λ key. put_peer st (record peer {
      preshared_key = key;
      flags =
          if not (key_is_zero key)
          then set_flag peer.flags wgpeer_has_preshared_key
          else peer.flags;
    })

-- What an endpoint line does with the answer for its host and service.
abbrev pub answered : GetState → Resolved → Turn
answered st (found a) =
    if is_inet_addr a
    then put_peer st (record (get_peer st) {
      endpoint = record { sa_family = a.ai_family; sa_bytes = a.ai_addr };
    })
    else broken
answered st _ = goto_err (plus enetunreach)

unfoldable pub get_endpoint : Host → GetState → Bytes → Turn
get_endpoint h st value = elim (split_endpoint value) [
  | none ↦ broken
  | some (begin, end) ↦ answered st (h.getaddrinfo 0 begin end)
]

-- What the line `allowed_ip` does with its prefix length, the text behind that, and its address.
unfoldable pub put_allowed_ip : GetState → ℕ → Bytes → Option (Family × Bytes) → Turn
put_allowed_ip st cidr end none = broken
put_allowed_ip st cidr end (some (family, addr)) =
    if not (length end == 0) || ltb (max_cidr family) cidr
    then broken
    else let new : WgAllowedIp = record { family = family; ip = addr; cidr = cidr; flags = 0 } in
      let peer = get_peer st in
      next (record st {
        dev = record (st.dev) {
          peers =
              update_last
                (λ _. record peer { allowedips = link st.has_allowedip peer.allowedips new })
                st.dev.peers;
        };
        has_allowedip = true;
      })

-- What the line `allowed_ip` does, cut at its slash. `cidr` is a `uint8_t`, so the value of
-- `strtoul` is cut before its test.
abbrev pub masked : Host → GetState → Option (Bytes × Bytes) → Turn
masked h st none = broken
masked h st (some (ip, mask)) =
    if not (first_is_digit h mask)
    then broken
    else let (wide, end) = strtoul h.ulong_max 10 mask in
      put_allowed_ip st (u8 wide) end (parse_ip h ip)

unfoldable pub get_allowed_ip : Host → GetState → Bytes → Turn
get_allowed_ip h st value = masked h st (split_first b'/' value)

-- What the lines with a value do to the device, and to the peer.
abbrev pub put_private_key : (Bytes → Bytes) → GetState → Bytes → Turn
put_private_key generate_public st k = put_dev st (record (st.dev) {
  private_key = k;
  public_key = generate_public k;
  flags = set_flag st.dev.flags (wgdevice_has_private_key + wgdevice_has_public_key);
})

abbrev pub put_listen_port : GetState → ℕ → Turn
put_listen_port st n =
    put_dev st
      (record (st.dev) { listen_port = n; flags = set_flag st.dev.flags wgdevice_has_listen_port })

abbrev pub put_fwmark : GetState → ℕ → Turn
put_fwmark st n =
    put_dev st (record (st.dev) { fwmark = n; flags = set_flag st.dev.flags wgdevice_has_fwmark })

abbrev pub put_keepalive : GetState → ℕ → Turn
put_keepalive st n = put_peer st (record (get_peer st) {
  persistent_keepalive_interval = n;
  flags = set_flag (get_peer st).flags wgpeer_has_persistent_keepalive_interval;
})

abbrev pub put_sec : GetState → ℕ → Turn
put_sec st n = put_peer st (record (get_peer st) {
  last_handshake_time = record ((get_peer st).last_handshake_time) { tv_sec = n };
})

abbrev pub put_nsec : GetState → ℕ → Turn
put_nsec st n = put_peer st (record (get_peer st) {
  last_handshake_time = record ((get_peer st).last_handshake_time) { tv_nsec = n };
})

abbrev pub put_rx : GetState → ℕ → Turn
put_rx st n = put_peer st (record (get_peer st) { rx_bytes = n })

abbrev pub put_tx : GetState → ℕ → Turn
put_tx st n = put_peer st (record (get_peer st) { tx_bytes = n })

abbrev pub put_errno : GetState → ℕ → Turn
put_errno st n = next (record st { ret = minus n })
