-- ===== src/Config/Line.antt =====
-- The configuration file of config.c, line by line: `process_line`, `config_read_line`,
-- `config_read_init` and `config_read_finish`.
use wireguard_android_expres.Base.{
  ℕ, ◌+◌, Bool, true, false, ◌&&◌, ◌==◌, if◌then◌else◌, Option, none, some, List, [], ◌∷◌, ◌++◌,
  Bytes, length, codes, caseless_eq, split_first, char_word, update_last, get_last_or,
}
use wireguard_android_expres.Ctype.{char_is_space}
use wireguard_android_expres.Containers.{
  WgPeer, WgDevice, has_flag, set_flag, new_peer, new_device, wgdevice_replace_peers,
  wgdevice_has_private_key, wgdevice_has_fwmark, wgdevice_has_listen_port,
  wgpeer_replace_allowedips, wgpeer_has_public_key, wgpeer_has_preshared_key,
}
use wireguard_android_expres.Host.{Host}
use wireguard_android_expres.Config.Fields.{
  get_value, parse_port, parse_fwmark, parse_persistent_keepalive, parse_key,
}
use wireguard_android_expres.Config.Endpoint.{
  Parsed, ok, err, exited, still_waiting, parse_endpoint,
}
use wireguard_android_expres.Config.AllowedIps.{parse_allowedips}

-- `struct config_ctx`. `last_peer` points to the end of the device's list where `has_last_peer`
-- holds, and is NULL otherwise; so does `last_allowedip` in the list of that peer.
pub record ConfigCtx : Type 0 where
  pub device : WgDevice
  pub has_last_peer : Bool
  pub has_last_allowedip : Bool
  pub is_peer_section : Bool
  pub is_device_section : Bool

abbrev pub last_peer : ConfigCtx → WgPeer
last_peer ctx = get_last_or new_peer ctx.device.peers

abbrev pub set_last_peer : ConfigCtx → WgPeer → ConfigCtx
set_last_peer ctx peer = record ctx {
  device = record (ctx.device) { peers = update_last (λ _. peer) ctx.device.peers };
}

abbrev pub set_device : ConfigCtx → WgDevice → ConfigCtx
set_device ctx dev = record ctx { device = dev }

-- A parser's success, as a result.
abbrev pub from_option {ℓ κ} : {A : Type ℓ} {B : Type κ} → Option A → (A → B) → Parsed B
from_option none f = err
from_option (some a) f = ok (f a)

abbrev pub map_parsed {ℓ κ} : {A : Type ℓ} {B : Type κ} → (A → B) → Parsed A → Parsed B
map_parsed f (ok a) = ok (f a)
map_parsed f err = err
map_parsed f exited = exited
map_parsed f still_waiting = still_waiting

-- The line `[Peer]`.
unfoldable pub begin_peer : ConfigCtx → ConfigCtx
begin_peer ctx =
    let peer = record new_peer { flags = set_flag 0 wgpeer_replace_allowedips } in
    record ctx {
      device = record (ctx.device) {
        peers = if ctx.has_last_peer then ctx.device.peers ++ (peer ∷ []) else peer ∷ [];
      };
      has_last_peer = true;
      has_last_allowedip = false;
      is_peer_section = true;
      is_device_section = false;
    }

-- A key's `bool` and bytes, stored with its flag.
abbrev pub store_private_key : WgDevice → Bool × Bytes → Option WgDevice
store_private_key dev (true, key) =
    some (record dev { private_key = key; flags = set_flag dev.flags wgdevice_has_private_key })
store_private_key dev (false, key) = none

abbrev pub store_public_key : WgPeer → Bool × Bytes → Option WgPeer
store_public_key peer (true, key) =
    some (record peer { public_key = key; flags = set_flag peer.flags wgpeer_has_public_key })
store_public_key peer (false, key) = none

abbrev pub store_preshared_key : WgPeer → Bool × Bytes → Option WgPeer
store_preshared_key peer (true, key) =
    some (record peer { preshared_key = key; flags = set_flag peer.flags wgpeer_has_preshared_key })
store_preshared_key peer (false, key) = none

-- `key_match`, as a choice between a value and what follows in the `else`.
abbrev pub key_match {ℓ} : {A : Type ℓ} → Bytes → Bytes → (Bytes → A) → A → A
key_match line key f otherwise = elim (get_value line key) [ some v ↦ f v | none ↦ otherwise ]

unfoldable pub device_line : Host → ConfigCtx → Bytes → Parsed ConfigCtx
device_line h ctx line =
    key_match line (codes "ListenPort=")
      (λ v. from_option (parse_port h ctx.device v) (set_device ctx))
      (key_match line (codes "FwMark=")
        (λ v. from_option (parse_fwmark h ctx.device v) (set_device ctx))
        (key_match line (codes "PrivateKey=")
          (λ v. from_option (store_private_key ctx.device (parse_key h v)) (set_device ctx)) err))

abbrev pub set_allowedips : ConfigCtx → WgPeer × Bool → ConfigCtx
set_allowedips ctx (peer, last) = record (set_last_peer ctx peer) { has_last_allowedip = last }

unfoldable pub peer_line : Host → ℕ → ConfigCtx → Bytes → Parsed ConfigCtx
peer_line h fuel ctx line =
    let peer = last_peer ctx in
    key_match line (codes "Endpoint=")
      (λ v.
        map_parsed (λ e. set_last_peer ctx (record peer { endpoint = e }))
          (parse_endpoint h fuel v))
      (key_match line (codes "PublicKey=")
        (λ v. from_option (store_public_key peer (parse_key h v)) (set_last_peer ctx))
        (key_match line (codes "AllowedIPs=")
          (λ v. from_option (parse_allowedips h peer ctx.has_last_allowedip v) (set_allowedips ctx))
          (key_match line (codes "PersistentKeepalive=")
            (λ v. from_option (parse_persistent_keepalive h peer v) (set_last_peer ctx))
            (key_match line (codes "PresharedKey=")
              (λ v. from_option (store_preshared_key peer (parse_key h v)) (set_last_peer ctx))
              err))))

unfoldable pub process_line : Host → ℕ → ConfigCtx → Bytes → Parsed ConfigCtx
process_line h fuel ctx line =
    if caseless_eq line (codes "[Interface]")
    then ok (record ctx { is_peer_section = false; is_device_section = true })
    else if caseless_eq line (codes "[Peer]")
    then ok (begin_peer ctx)
    else if ctx.is_device_section
    then device_line h ctx line
    else if ctx.is_peer_section
    then peer_line h fuel ctx line
    else err

-- `strip_spaces`, and the same loop in `config_read_line`.
unfoldable pub strip_spaces : Bool → Bytes → Bytes
strip_spaces s [] = []
strip_spaces s (c ∷ cs) =
    let rest = strip_spaces s cs in if char_is_space (char_word s c) then rest else c ∷ rest

-- The text before the comment.
unfoldable pub uncomment : Bytes → Bytes
uncomment input = elim (split_first b'#' input) [ none ↦ input | some (a, _) ↦ a ]

-- `config_read_line`. Where it gives `err` the device has been freed.
unfoldable pub config_read_line : Host → ℕ → ConfigCtx → Bytes → Parsed ConfigCtx
config_read_line h fuel ctx input =
    let line = strip_spaces h.signed_char (uncomment input) in
    if length line == 0 then ok ctx else process_line h fuel ctx line

unfoldable pub config_read_init : Bool → ConfigCtx
config_read_init append = record {
  device = record new_device {
    flags =
        if append
        then 0
        else set_flag 0 (
            wgdevice_replace_peers + wgdevice_has_private_key + wgdevice_has_fwmark
            + wgdevice_has_listen_port);
  };
  has_last_peer = false;
  has_last_allowedip = false;
  is_peer_section = false;
  is_device_section = false;
}

abbrev pub all_have_public_key : List WgPeer → Bool
all_have_public_key [] = true
all_have_public_key (p ∷ ps) = has_flag p.flags wgpeer_has_public_key && all_have_public_key ps

unfoldable pub config_read_finish : ConfigCtx → Option WgDevice
config_read_finish ctx = if all_have_public_key ctx.device.peers then some ctx.device else none

-- The loop of `setconf_main` over the lines of the file.
unfoldable pub config_read_lines : Host → ℕ → ConfigCtx → List Bytes → Parsed ConfigCtx
config_read_lines h fuel ctx [] = ok ctx
config_read_lines h fuel ctx (l ∷ ls) = elim (config_read_line h fuel ctx l) [
  | ok ctx' ↦ config_read_lines h fuel ctx' ls
  | r ↦ r
]
