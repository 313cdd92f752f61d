-- ===== src/Config/Cmd.antt =====
-- `config_read_cmd` of config.c: the arguments of `wg set`, from left to right.
use wireguard_android_expres.Base.{
  ℕ, Bool, true, false, ◌&&◌, if◌then◌else◌, List, [], ◌∷◌, ◌++◌, Bytes, codes, bytes_eq,
  update_last, get_last_or,
}
use wireguard_android_expres.Containers.{
  WgPeer, WgDevice, set_flag, new_peer, new_device, wgdevice_has_private_key, wgpeer_remove_me,
  wgpeer_has_preshared_key,
}
use wireguard_android_expres.Host.{Host}
use wireguard_android_expres.Config.Fields.{
  parse_port, parse_fwmark, parse_persistent_keepalive, parse_key, parse_keyfile,
}
use wireguard_android_expres.Config.Endpoint.{Parsed, ok, err, parse_endpoint}
use wireguard_android_expres.Config.AllowedIps.{parse_allowedips}
use wireguard_android_expres.Config.Line.{from_option, map_parsed, store_public_key, strip_spaces}

-- The variables of the loop. `peer` is NULL until `has_peer`, and then the end of the list.
pub record CmdState : Type 0 where
  pub device : WgDevice
  pub has_peer : Bool
  pub has_allowedip : Bool

abbrev pub cmd_peer : CmdState → WgPeer
cmd_peer st = get_last_or new_peer st.device.peers

abbrev pub set_cmd_peer : CmdState → WgPeer → CmdState
set_cmd_peer st peer = record st {
  device = record (st.device) { peers = update_last (λ _. peer) st.device.peers };
}

abbrev pub set_cmd_device : CmdState → WgDevice → CmdState
set_cmd_device st dev = record st { device = dev }

-- The argument `peer KEY`: the new peer is linked, and then its key is parsed.
unfoldable pub add_peer : Host → CmdState → Bytes → Parsed CmdState
add_peer h st value =
    let linked = if st.has_peer then st.device.peers ++ (new_peer ∷ []) else new_peer ∷ [] in
    let st' = record st {
      device = record (st.device) { peers = linked };
      has_peer = true;
      has_allowedip = false;
    } in
    from_option (store_public_key new_peer (parse_key h value)) (set_cmd_peer st')

abbrev pub cmd_private_key : CmdState → Bytes → CmdState
cmd_private_key st key = set_cmd_device st (record (st.device) {
  private_key = key;
  flags = set_flag st.device.flags wgdevice_has_private_key;
})

abbrev pub cmd_preshared_key : CmdState → Bytes → CmdState
cmd_preshared_key st key = set_cmd_peer st (record (cmd_peer st) {
  preshared_key = key;
  flags = set_flag (cmd_peer st).flags wgpeer_has_preshared_key;
})

abbrev pub cmd_allowedips : CmdState → WgPeer × Bool → CmdState
cmd_allowedips st (peer, last) = record (set_cmd_peer st peer) { has_allowedip = last }

-- An argument that needs a value behind it.
unfoldable pub cmd_pair : Host → ℕ → CmdState → Bytes → Bytes → Parsed CmdState
cmd_pair h fuel st arg value =
    if bytes_eq arg (codes "peer")
    then add_peer h st value
    else if st.has_peer
    then (if bytes_eq arg (codes "endpoint")
        then map_parsed (λ e. set_cmd_peer st (record (cmd_peer st) { endpoint = e }))
            (parse_endpoint h fuel value)
        else if bytes_eq arg (codes "allowed-ips")
        then from_option
            (parse_allowedips h (cmd_peer st) st.has_allowedip (strip_spaces h.signed_char value))
            (cmd_allowedips st)
        else if bytes_eq arg (codes "persistent-keepalive")
        then from_option (parse_persistent_keepalive h (cmd_peer st) value) (set_cmd_peer st)
        else if bytes_eq arg (codes "preshared-key")
        then from_option (parse_keyfile h value) (cmd_preshared_key st)
        else err)
    else if bytes_eq arg (codes "listen-port")
    then from_option (parse_port h st.device value) (set_cmd_device st)
    else if bytes_eq arg (codes "fwmark")
    then from_option (parse_fwmark h st.device value) (set_cmd_device st)
    else if bytes_eq arg (codes "private-key")
    then from_option (parse_keyfile h value) (cmd_private_key st)
    else err

abbrev pub cmd_remove : CmdState → CmdState
cmd_remove st =
    set_cmd_peer st (record (cmd_peer st) { flags = set_flag (cmd_peer st).flags wgpeer_remove_me })

-- The loop over `argv`. `remove` stands alone, every other argument takes the next one.
unfoldable pub cmd_loop : Host → ℕ → CmdState → List Bytes → Parsed CmdState
cmd_loop h fuel st [] = ok st
cmd_loop h fuel st (arg ∷ []) =
    if bytes_eq arg (codes "remove") && st.has_peer then ok (cmd_remove st) else err
cmd_loop h fuel st (arg ∷ value ∷ rest) =
    let removed = cmd_loop h fuel (cmd_remove st) (value ∷ rest) in
    let next : Parsed CmdState = elim (cmd_pair h fuel st arg value) [
      | ok st' ↦ cmd_loop h fuel st' rest
      | r ↦ r
    ] in
    if bytes_eq arg (codes "remove") && st.has_peer then removed else next

unfoldable pub config_read_cmd : Host → ℕ → List Bytes → Parsed WgDevice
config_read_cmd h fuel argv =
    map_parsed (λ st. st.device)
      (cmd_loop h fuel (record { device = new_device; has_peer = false; has_allowedip = false })
        argv)
