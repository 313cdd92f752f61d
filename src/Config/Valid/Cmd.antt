-- ===== src/Config/Valid/Cmd.antt =====
-- The arguments of `wg set` keep the same promises as the lines of a file.
use wireguard_android_expres.Base.{
  ℕ, ◌≡◌, refl, sym, ap, ◌∙◌, arith, Bool, true, false, not, ◌==◌, ◌&&◌, if◌then◌else◌, ltb, Option,
  none, some, List, [], ◌∷◌, ◌++◌, Bytes, length, take, drop, codes, bytes_eq, get_last_or,
}
use wireguard_android_expres.Containers.{WgPeer, WgDevice, new_peer}
use wireguard_android_expres.Host.{Host, OpenFile}
use wireguard_android_expres.Config.Fields.{
  parse_key, parse_keyfile, parse_port, parse_fwmark, parse_persistent_keepalive, only_spaces,
}
use wireguard_android_expres.Config.AllowedIps.{parse_allowedips}
use wireguard_android_expres.Config.Endpoint.{parse_endpoint}
use wireguard_android_expres.Config.Line.{store_public_key, strip_spaces}
use wireguard_android_expres.Config.Cmd.{
  CmdState, cmd_peer, set_cmd_peer, set_cmd_device, add_peer, cmd_private_key, cmd_preshared_key,
  cmd_allowedips, cmd_pair,
}
use wireguard_android_expres.Config.Valid.{
  OnSome, OnOk, either, IsPeer, IsDevice, HasBytePorts, non_empty,
}
use wireguard_android_expres.Config.Valid.Parsers.{
  Over, With, IsLinkedPeer, parse_key-length, parse_fwmark-Over, parse_port-Over,
  parse_persistent_keepalive-With, parse_allowedips-IsLinkedPeer,
}
use wireguard_android_expres.Config.Valid.Lines.{
  OnOk-from_option, OnOk-map_parsed, last_update, non_empty-update, All-update, All-last,
  grown_peers, store_public_key-With,
}

-- The variables of `config_read_cmd`: a device that keeps its promises, and pointers that are set
-- exactly where there is something to point to.
abbrev pub IsCmd : CmdState → Type 0
IsCmd st =
    IsDevice st.device
    × (st.has_peer ≡ non_empty st.device.peers)
    × (st.has_allowedip ≡ non_empty (cmd_peer st).allowedips)

keyfile_length :
    (h : Host) (f : Option OpenFile) (path : Bytes)
    → h.fopen path ≡ f
    → OnSome (λ (key : Bytes). length key ≡ 32) (parse_keyfile h path)
unfolding parse_keyfile
keyfile_length h none path e = rw (e, parse_keyfile) tt
keyfile_length h (some f) path e =
    let P = OnSome (λ (key : Bytes). length key ≡ 32) in
    rw (e, parse_keyfile)
      (either P (ltb (length f.contents) 44) _ _
        (λ _. either P (not f.ferror && length f.contents == 0) _ _ (λ _. refl) (λ _. tt))
        (λ _.
          either P (not (only_spaces (drop 44 f.contents))) _ _ (λ _. tt)
            (λ _.
              either P f.ferror _ _ (λ _. tt)
                (λ _.
                  either P (parse_key h (take 44 f.contents)).0 _ _
                    (λ _. parse_key-length h (take 44 f.contents)) (λ _. tt)))))

pub put_peer :
    (st : CmdState) (p : WgPeer) (last : Bool)
    → IsCmd st
    → st.has_peer ≡ true
    → IsLinkedPeer (p, last)
    → IsCmd (cmd_allowedips st (p, last))
put_peer st p last v e q =
    let peers = st.device.peers in
    (
      (v.0.0, v.0.1, v.0.2, All-update IsPeer p peers v.0.3 q.0),
      v.1 ∙ sym (non_empty-update (λ _. p) peers),
      q.1
          ∙ ap (λ (t : WgPeer). non_empty t.allowedips)
              (sym (last_update new_peer p peers (sym v.1 ∙ e))),
    )

pub cmd_peer-IsLinkedPeer :
    (st : CmdState) → IsCmd st → IsLinkedPeer (cmd_peer st, st.has_allowedip)
cmd_peer-IsLinkedPeer st v =
    (All-last IsPeer new_peer st.device.peers v.0.3 (refl, refl, omega arith, tt), v.2)

set_device-IsCmd :
    (st : CmdState) (d : WgDevice) → IsCmd st → Over st.device.peers d → IsCmd (set_cmd_device st d)
set_device-IsCmd st d v o = (
  o.0,
  v.1 ∙ ap (λ (t : List WgPeer). non_empty t) (sym o.1),
  v.2 ∙ ap (λ (t : List WgPeer). non_empty (get_last_or new_peer t).allowedips) (sym o.1),
)

add_peer-IsCmd :
    (h : Host) (st : CmdState) (value : Bytes) → IsCmd st → OnOk IsCmd (add_peer h st value)
unfolding add_peer
add_peer-IsCmd h st value v =
    let a = grown_peers st.has_peer st.device.peers new_peer v.0.3 (refl, refl, omega arith, tt) in
    let linked : List WgPeer =
      if st.has_peer then st.device.peers ++ (new_peer ∷ []) else new_peer ∷ [] in
    let st' : CmdState = record st {
      device = record (st.device) { peers = linked };
      has_peer = true;
      has_allowedip = false;
    } in
    let v' : IsCmd st' =
      ((v.0.0, v.0.1, v.0.2, a.0), a.1, ap (λ (t : WgPeer). non_empty t.allowedips) (sym a.2)) in
    OnOk-from_option (With false) IsCmd (store_public_key new_peer (parse_key h value))
      (set_cmd_peer st')
      (store_public_key-With new_peer false (parse_key h value)
        ((refl, refl, omega arith, tt), refl) (parse_key-length h value))
      (λ p w. put_peer st' p false v' refl w)

pub pair-IsCmd :
    (h : Host) (fuel : ℕ) (st : CmdState) (arg value : Bytes)
    → HasBytePorts h
    → IsCmd st
    → OnOk IsCmd (cmd_pair h fuel st arg value)
unfolding cmd_pair
pair-IsCmd h fuel st arg value bytes v =
    let peer = cmd_peer st in
    let last = st.has_allowedip in
    let linked = cmd_peer-IsLinkedPeer st v in
    let P = OnOk IsCmd in
    let stripped = strip_spaces h.signed_char value in
    either P (bytes_eq arg (codes "peer")) _ _ (λ _. add_peer-IsCmd h st value v)
      (λ _.
        either P st.has_peer _ _
          (λ e.
            either P (bytes_eq arg (codes "endpoint")) _ _
              (λ _.
                OnOk-map_parsed IsCmd (parse_endpoint h fuel value) _
                  (λ a. put_peer st (record peer { endpoint = a }) last v e linked))
              (λ _.
                either P (bytes_eq arg (codes "allowed-ips")) _ _
                  (λ _.
                    OnOk-from_option IsLinkedPeer IsCmd (parse_allowedips h peer last stripped)
                      (cmd_allowedips st)
                      (parse_allowedips-IsLinkedPeer h peer last stripped linked)
                      (λ r l. put_peer st r.0 r.1 v e l))
                  (λ _.
                    either P (bytes_eq arg (codes "persistent-keepalive")) _ _
                      (λ _.
                        OnOk-from_option (With last) IsCmd (parse_persistent_keepalive h peer value)
                          (set_cmd_peer st)
                          (parse_persistent_keepalive-With h peer last value linked)
                          (λ p l. put_peer st p last v e l))
                      (λ _.
                        either P (bytes_eq arg (codes "preshared-key")) _ _
                          (λ _.
                            OnOk-from_option (λ (key : Bytes). length key ≡ 32) IsCmd
                              (parse_keyfile h value) (cmd_preshared_key st)
                              (keyfile_length h (h.fopen value) value refl)
                              (λ key k.
                                put_peer st _ last v e
                                  ((linked.0.0, k, linked.0.2, linked.0.3), linked.1)))
                          (λ _. tt)))))
          (λ e.
            either P (bytes_eq arg (codes "listen-port")) _ _
              (λ _.
                OnOk-from_option (Over st.device.peers) IsCmd (parse_port h st.device value)
                  (set_cmd_device st) (parse_port-Over h st.device value bytes v.0)
                  (λ d o. set_device-IsCmd st d v o))
              (λ _.
                either P (bytes_eq arg (codes "fwmark")) _ _
                  (λ _.
                    OnOk-from_option (Over st.device.peers) IsCmd (parse_fwmark h st.device value)
                      (set_cmd_device st) (parse_fwmark-Over h st.device value v.0)
                      (λ d o. set_device-IsCmd st d v o))
                  (λ _.
                    either P (bytes_eq arg (codes "private-key")) _ _
                      (λ _.
                        OnOk-from_option (λ (key : Bytes). length key ≡ 32) IsCmd
                          (parse_keyfile h value) (cmd_private_key st)
                          (keyfile_length h (h.fopen value) value refl)
                          (λ key k.
                            set_device-IsCmd st (cmd_private_key st key).device v
                              ((k, v.0.1, v.0.2, v.0.3), refl)))
                      (λ _. tt)))))
