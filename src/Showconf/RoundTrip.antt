-- ===== src/Showconf/RoundTrip.antt =====
-- The file that showconf prints of a device, read by the reader of config.c.
use wireguard_android_expres.Base.{
  ℕ, suc, ◌≤◌, ◌≡◌, refl, sym, ap, ap₂, ◌∙◌, Bool, true, false, ◌&&◌, not, ◌==◌, if◌then◌else◌,
  Option, none, some, List, [], ◌∷◌, append-nil, Bytes, length, codes, caseless_eq, map, All,
}
use wireguard_android_expres.Encoding.Hex.{IsByte}
use wireguard_android_expres.Containers.{
  WgPeer, WgDevice, new_device, zero_key, has_flag, wgdevice_has_private_key,
  wgpeer_has_preshared_key,
}
use wireguard_android_expres.Host.{Host}
use wireguard_android_expres.Config.Endpoint.{Parsed, ok}
use wireguard_android_expres.Config.Line.{
  ConfigCtx, begin_peer, process_line, config_read_lines, config_read_init, config_read_finish,
  all_have_public_key,
}
use wireguard_android_expres.Config.Valid.File.{read_file}
use wireguard_android_expres.Uapi.Print.{Names}
use wireguard_android_expres.Showconf.{show_peers, showconf, showconf_main}
use wireguard_android_expres.Showconf.Text.{
  read_heading, read_blank, Leads, Leads-cons, Leads-append,
}
use wireguard_android_expres.Showconf.Endpoints.{IsReading}
use wireguard_android_expres.Showconf.Peers.{IsShown}
use wireguard_android_expres.Showconf.Sections.{flags_as_read, peer_as_read, peers_Leads}
use wireguard_android_expres.Showconf.Device.{
  at_device, IsPort, port_Leads, mark_Leads, private_key_Leads,
}

-- A device whose key has 32 bytes, whose numbers fit, and whose port and peers the C library reads
-- back.
abbrev pub IsShownDevice : Host → Names → WgDevice → Type 0
IsShownDevice h n dev =
    ((length dev.private_key ≡ 32) × All IsByte dev.private_key)
    × (dev.fwmark ≤ 0xffff_ffff)
    × IsPort h dev.listen_port
    × All (IsShown h n) dev.peers

-- The device that is read: the flags of a whole configuration, and what was printed.
abbrev pub device_as_read : WgDevice → WgDevice
device_as_read dev = record new_device {
  flags = 27;
  private_key = if has_flag dev.flags wgdevice_has_private_key then dev.private_key else zero_key;
  fwmark = dev.fwmark;
  listen_port = dev.listen_port;
  peers = map peer_as_read dev.peers;
}

has_public_key : (a b : Bool) → has_flag (flags_as_read a b) 4 ≡ true
has_public_key true true = refl
has_public_key true false = refl
has_public_key false true = refl
has_public_key false false = refl

all_have_public_key-map : (ps : List WgPeer) → all_have_public_key (map peer_as_read ps) ≡ true
all_have_public_key-map [] = refl
all_have_public_key-map (p ∷ ps) =
    ap₂ ◌&&◌
      (has_public_key (has_flag p.flags wgpeer_has_preshared_key)
        (not (p.persistent_keepalive_interval == 0)))
      (all_have_public_key-map ps)

module _ (h : Host) (n : Names) (fuel : ℕ) (r : IsReading h) where
  peer_sections_Leads :
      (dev : WgDevice) (ps : List WgPeer)
      → dev.peers ≡ []
      → All (IsShown h n) ps
      → (end : ConfigCtx) × Leads h (suc fuel) (at_device dev) (show_peers n ps) end
        × (end.device ≡ record dev { peers = map peer_as_read ps })
  unfolding show_peers begin_peer
  peer_sections_Leads dev [] e a =
      (at_device dev, (λ ms. refl), ap (λ l. record dev { peers = l }) e)
  peer_sections_Leads dev (p ∷ ps) e a =
      peers_Leads h n fuel dev r [] (at_device dev) p ps refl a.0 a.1

  device_Leads :
      (dev : WgDevice)
      → IsShownDevice h n dev
      → (end : ConfigCtx) × Leads h (suc fuel) (config_read_init false) (showconf n dev) end
        × (end.device ≡ device_as_read dev)
  unfolding showconf config_read_init process_line caseless_eq
  device_Leads dev s =
      let fu = suc fuel in
      let b = has_flag dev.flags wgdevice_has_private_key in
      let d0 = record new_device { flags = 27 } in
      let d1 = record d0 { listen_port = dev.listen_port } in
      let d2 = record d1 { fwmark = dev.fwmark } in
      let d3 = record d2 { private_key = if b then dev.private_key else zero_key } in
      let after = Leads-append h fu in
      let rest = peer_sections_Leads d3 dev.peers refl s.3 in
      (
        rest.0,
        Leads-cons h fu (config_read_init false) (at_device d0) rest.0 _ _
            (read_heading h fu (config_read_init false) (codes "[Interface]") refl refl)
            (after (at_device d0) (at_device d1) rest.0 _ _
              (port_Leads h fu d0 dev.listen_port s.2 refl refl)
              (after (at_device d1) (at_device d2) rest.0 _ _
                (mark_Leads h fu d1 dev.fwmark r s.1 refl refl)
                (after (at_device d2) (at_device d3) rest.0 _ _
                  (private_key_Leads h fu d2 b dev.private_key s.0.0 s.0.1 refl refl)
                  (Leads-cons h fu (at_device d3) (at_device d3) rest.0 (b'\n' ∷ [])
                    (show_peers n dev.peers) (read_blank h fu (at_device d3)) rest.1)))),
        rest.2,
      )

  finish_read :
      (dev : WgDevice) (ls : List Bytes) (end : ConfigCtx)
      → Leads h (suc fuel) (config_read_init false) ls end
      → end.device ≡ device_as_read dev
      → read_file h (suc fuel) false ls ≡ some (device_as_read dev)
  unfolding config_read_finish config_read_lines
  finish_read dev ls end l e =
      let lines : config_read_lines h (suc fuel) (config_read_init false) ls ≡ ok end =
        ap (config_read_lines h (suc fuel) (config_read_init false)) (sym (append-nil ls)) ∙ l [] in
      ap by_finish lines
      ∙ ap (λ d. if all_have_public_key d.peers then some d else none) e
      ∙ rw (all_have_public_key-map dev.peers) refl
    where
      by_finish : Parsed ConfigCtx → Option WgDevice
      by_finish r = elim r [ ok ctx ↦ config_read_finish ctx | _ ↦ none ]

-- Where ipc_get_device gives a device whose keys have 32 bytes, whose mark and intervals fit in 32
-- and 16 bits, and whose entries have no flags and a prefix no longer than their address, the C
-- library prints each entry in the characters of addresses, with a colon for IPv6 alone, and each
-- endpoint of a family, in ASCII, as a host without spaces, `#`, a closing bracket or an opening
-- one in front, and a service that is not empty and has no spaces, `#` or colons, and it reads back
-- the port, the entries and, at the first attempt, these endpoints, an unsigned long has 32 bits at
-- least, and the number of retries in the environment does not end the process, showconf_main
-- returns 0, and what it prints is read by the reader of configuration files: the device that is
-- read has the mark, the port, the private key and the preshared keys that are flagged, and the
-- same peers in the same order with the same public keys, entries, intervals and endpoints of a
-- family.
pub showconf_main-read_file :
    (h : Host) (n : Names) (fuel : ℕ) (ipc_get_device : Bytes → Option WgDevice)
    (command iface : Bytes) (dev : WgDevice)
    → IsReading h
    → ipc_get_device iface ≡ some dev
    → IsShownDevice h n dev
    → ((showconf_main n ipc_get_device (command ∷ iface ∷ [])).ret ≡ 0)
      × (read_file h
            (suc fuel)
            false
            (showconf_main n ipc_get_device (command ∷ iface ∷ [])).printed
          ≡ some (device_as_read dev))
unfolding showconf_main
showconf_main-read_file h n fuel ipc_get_device command iface dev r g s =
    let end = device_Leads h n fuel r dev s in
    rw g (refl, finish_read h n fuel r dev (showconf n dev) end.0 end.1 end.2)
