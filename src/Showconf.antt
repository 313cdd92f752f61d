-- ===== src/Showconf.antt =====
-- tunnel/tools/wireguard-tools/src/showconf.c: a device as a configuration file, line by line.
pub mod Text
pub mod Values
pub mod Keys
pub mod Entries
pub mod Lists
pub mod Endpoints
pub mod Peers
pub mod Sections
pub mod Device
pub mod RoundTrip
use wireguard_android_expres.Base.{
  ℕ, zero, suc, ◌+◌, ◌-◌, ◌/◌, ◌%◌, Bool, true, false, ◌||◌, not, ◌==◌, ltb, if◌then◌else◌, Option,
  none, some, List, [], ◌∷◌, ◌++◌, Bytes, codes,
}
use wireguard_android_expres.Encoding.{key_to_base64}
use wireguard_android_expres.Containers.{
  Family, af_unspec, af_inet, af_inet6, WgAllowedIp, WgPeer, WgDevice, has_flag,
  wgpeer_has_preshared_key, wgdevice_has_private_key,
}
use wireguard_android_expres.Config.Valid.{non_empty}
use wireguard_android_expres.Uapi.Print.{decimal, Names}
use wireguard_android_expres.Uapi.Set.{print_ip, print_endpoint}

-- A line `Key = value`, with its newline.
abbrev pub setting : Bytes → Bytes → Bytes
setting key value = key ++ (b' ' ∷ b'=' ∷ b' ' ∷ (value ++ (b'\n' ∷ [])))

abbrev pub when_line : Bool → Bytes → List Bytes
when_line true l = l ∷ []
when_line false l = []

abbrev pub hex_digit : ℕ → ℕ
hex_digit d = if ltb d 10 then d + b'0' else d - 10 + b'a'

-- `%x` of a number, in front of `rest`; the fuel bounds the count of digits.
unfoldable pub hex_loop : ℕ → ℕ → Bytes → Bytes
hex_loop zero n rest = rest
hex_loop (suc f) n rest =
    let more = hex_loop f (n / 16) (hex_digit (n % 16) ∷ rest) in
    if ltb n 16 then hex_digit n ∷ rest else more

unfoldable pub hexadecimal : ℕ → Bytes
hexadecimal n = hex_loop (suc n) n []

-- `%s/%d`; an entry of no family, or that does not print, is skipped.
abbrev pub with_length : ℕ → Option Bytes → Option Bytes
with_length cidr none = none
with_length cidr (some ip) = some (ip ++ (b'/' ∷ decimal cidr))

unfoldable pub show_allowedip : Names → WgAllowedIp → Option Bytes
show_allowedip n a = with_length a.cidr (print_ip n a.family a.ip)

abbrev pub comma_if : Bool → Bytes
comma_if true = b',' ∷ b' ' ∷ []
comma_if false = []

abbrev pub show_entry : Bool → Option Bytes → Bytes
show_entry next none = []
show_entry next (some s) = s ++ comma_if next

-- The loop over a peer's entries, with a comma behind each that is printed and not the last.
unfoldable pub show_allowedips : Names → List WgAllowedIp → Bytes
show_allowedips n [] = []
show_allowedips n (a ∷ as') =
    show_entry (non_empty as') (show_allowedip n a) ++ show_allowedips n as'

abbrev pub show_endpoint : Option Bytes → List Bytes
show_endpoint none = []
show_endpoint (some e) = setting (codes "Endpoint") e ∷ []

unfoldable pub show_peer : Names → WgPeer → List Bytes
show_peer n p =
    (codes "[Peer]" ++ (b'\n' ∷ []))
    ∷ setting (codes "PublicKey") (key_to_base64 p.public_key)
    ∷ (when_line (has_flag p.flags wgpeer_has_preshared_key)
          (setting (codes "PresharedKey") (key_to_base64 p.preshared_key))
        ++ (when_line (non_empty p.allowedips)
              (setting (codes "AllowedIPs") (show_allowedips n p.allowedips))
            ++ (show_endpoint (print_endpoint n p.endpoint)
                ++ when_line (not (p.persistent_keepalive_interval == 0)) (
                    setting (codes "PersistentKeepalive")
                      (decimal p.persistent_keepalive_interval)))))

-- The loop over the peers, with an empty line between two.
unfoldable pub show_peers : Names → List WgPeer → List Bytes
show_peers n [] = []
show_peers n (p ∷ ps) = show_peer n p ++ (when_line (non_empty ps) (b'\n' ∷ []) ++ show_peers n ps)

-- What `showconf_main` prints of a device that `ipc_get_device` gives.
unfoldable pub showconf : Names → WgDevice → List Bytes
showconf n dev =
    (codes "[Interface]" ++ (b'\n' ∷ []))
    ∷ (when_line (not (dev.listen_port == 0))
          (setting (codes "ListenPort") (decimal dev.listen_port))
        ++ (when_line (not (dev.fwmark == 0))
              (setting (codes "FwMark") (b'0' ∷ b'x' ∷ hexadecimal dev.fwmark))
            ++ (when_line (has_flag dev.flags wgdevice_has_private_key)
                  (setting (codes "PrivateKey") (key_to_base64 dev.private_key))
                ++ ((b'\n' ∷ []) ∷ show_peers n dev.peers))))

-- How showconf_main ends: its value and the lines it has printed.
pub record ShowEnd : Type 0 where
  pub ret : ℕ
  pub printed : List Bytes

abbrev shown_device : Names → Option WgDevice → ShowEnd
shown_device n none = record { ret = 1; printed = [] }
shown_device n (some device) = record { ret = 0; printed = showconf n device }

unfoldable pub showconf_main : Names → (Bytes → Option WgDevice) → List Bytes → ShowEnd
showconf_main n ipc_get_device [] = record { ret = 1; printed = [] }
showconf_main n ipc_get_device (command ∷ []) = record { ret = 1; printed = [] }
showconf_main n ipc_get_device (command ∷ iface ∷ []) = shown_device n (ipc_get_device iface)
showconf_main n ipc_get_device (command ∷ iface ∷ more ∷ argv) = record { ret = 1; printed = [] }
