-- ===== src/Setconf/Main.antt =====
-- setconf_main, which serves setconf, addconf and syncconf, and what it hands to ipc_set_device.
use wireguard_android_expres.Base.{
  ℕ, ◌-◌, Bool, if◌then◌else◌, Option, none, some, List, [], ◌∷◌, Bytes, take, codes, bytes_eq,
}
use wireguard_android_expres.Containers.{WgDevice}
use wireguard_android_expres.Host.{Host}
use wireguard_android_expres.Config.Endpoint.{Parsed, ok, err, exited, still_waiting}
use wireguard_android_expres.Config.Line.{config_read_init, config_read_lines, config_read_finish}
use wireguard_android_expres.Uapi.Get.{ifnamsiz}
use wireguard_android_expres.Setconf.{PeerOrigin, sync_conf}

-- How setconf_main ends: its value, and the device that it handed to `ipc_set_device`.
pub record MainEnd : Type 0 where
  pub ret : ℕ
  pub sent : Option WgDevice

-- What the program finds around it.
pub record Program : Type 0 where
  pub open_file : Bytes → Option (List Bytes)
  pub qsort : List PeerOrigin → List PeerOrigin
  pub ipc_get_device : Bytes → Option WgDevice
  pub ipc_set_device_succeeds : WgDevice → Bool

abbrev pub failed : MainEnd
failed = record { ret = 1; sent = none }

unfoldable pub send : Program → Option WgDevice → MainEnd
send w none = failed
send w (some device) = record {
  ret = if w.ipc_set_device_succeeds device then 0 else 1;
  sent = some device;
}

unfoldable pub named : Bytes → WgDevice → WgDevice
named iface device = record device { name = take (ifnamsiz - 1) iface }

unfoldable pub finished : Program → Bytes → Bytes → Option WgDevice → MainEnd
finished w command iface none = failed
finished w command iface (some device) = send w (
    if bytes_eq command (codes "syncconf")
    then sync_conf w.qsort w.ipc_get_device (named iface device)
    else some (named iface device))

unfoldable pub setconf_lines : Host → ℕ → Program → Bytes → Bytes → List Bytes → Parsed MainEnd
setconf_lines h fuel w command iface lines =
    elim (config_read_lines h fuel (config_read_init (bytes_eq command (codes "addconf"))) lines) [
      | ok ctx ↦ ok (finished w command iface (config_read_finish ctx))
      | err ↦ ok failed
      | exited ↦ exited
      | still_waiting ↦ still_waiting
    ]

-- With what `fopen` and `getline` give.
unfoldable pub setconf_file :
    Host → ℕ → Program → Bytes → Bytes → Option (List Bytes) → Parsed MainEnd
setconf_file h fuel w command iface none = ok failed
setconf_file h fuel w command iface (some lines) = setconf_lines h fuel w command iface lines

unfoldable pub setconf_main : Host → ℕ → Program → List Bytes → Parsed MainEnd
setconf_main h fuel w [] = ok failed
setconf_main h fuel w (command ∷ []) = ok failed
setconf_main h fuel w (command ∷ iface ∷ []) = ok failed
setconf_main h fuel w (command ∷ iface ∷ path ∷ []) =
    setconf_file h fuel w command iface (w.open_file path)
setconf_main h fuel w (command ∷ iface ∷ path ∷ more ∷ argv) = ok failed
