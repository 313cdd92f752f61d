-- ===== src/Tests/Setconf.antt =====
-- Runs and instances of the theorems about setconf.c.
use wireguard_android_expres.Base.{
  ℕ, ◌≡◌, refl, not, ◌&&◌, length, true, Option, some, List, [], ◌∷◌, Bytes, map, replicate, codes,
  bytes_eq, All, IsSort, any, ◌+◌, ordered_insert, insertion_sort, insertion_sort-IsSort,
}
use wireguard_android_expres.Containers.{WgPeer, WgDevice, new_peer, new_device}
use wireguard_android_expres.Config.Valid.{OnSome, OnOk, IsDevice}
use wireguard_android_expres.Setconf.{
  PeerOrigin, peer_le, memcmp, peer_cmp, from_file_cmp, origins_from, sync_loop, sync_runtime,
  sync_peers, sync_conf, synced, remove_peer, update_at, reset_preshared_key, reset_keepalive,
}
use wireguard_android_expres.Setconf.Sorted.{peer_le_total, peer_le_trans}
use wireguard_android_expres.Setconf.Removed.{has_key}
use wireguard_android_expres.Setconf.Resets.{keys, has_distinct_keys}
use wireguard_android_expres.Setconf.Sync.{reset_for, sync_conf_lem}
use wireguard_android_expres.Setconf.Main.{Program, setconf_main}
use wireguard_android_expres.Setconf.Valid.{setconf_main-IsDevice}
use wireguard_android_expres.Tests.Config.{test_host, test_host-HasBytePorts, arguments}
use wireguard_android_expres.Setconf.Set.{set_main, set_main-IsDevice}

abbrev key : ℕ → Bytes
key n = replicate 32 n

abbrev peer_of : ℕ → WgPeer
peer_of n = record new_peer { flags = 4; public_key = key n }

-- Peers 2 and 1 in the file; 1, with a preshared key and an interval, and 3 run.
abbrev file_device : WgDevice
file_device = record new_device {
  name = codes "wg0";
  flags = 1;
  peers = peer_of 2 ∷ peer_of 1 ∷ [];
}

abbrev runtime_device : WgDevice
runtime_device = record new_device {
  peers =
      record (peer_of 1) { flags = 12; preshared_key = key 9; persistent_keepalive_interval = 25 }
      ∷ peer_of 3
      ∷ [];
}

abbrev running : Bytes → Option WgDevice
running name = some runtime_device

abbrev sort : List PeerOrigin → List PeerOrigin
sort = insertion_sort peer_le

sort-IsSort : IsSort peer_le sort
sort-IsSort = insertion_sort-IsSort peer_le peer_le_total peer_le_trans

file_distinct : has_distinct_keys (keys file_device.peers) ≡ true
unfolding has_distinct_keys any bytes_eq
file_distinct = refl

runtime_distinct : has_distinct_keys (keys runtime_device.peers) ≡ true
unfolding has_distinct_keys any bytes_eq
runtime_distinct = refl

-- The peers that are sent: 3 to be removed, 2 as it was, 1 with both values reset.
sync_conf_run :
    map
      (λ p. length p.public_key + p.flags + p.persistent_keepalive_interval)
      (sync_peers sort file_device file_device.peers runtime_device.peers).peers
    ≡ 33 ∷ 36 ∷ 60 ∷ []
unfolding sync_peers sync_loop sync_runtime update_at origins_from reset_preshared_key
    reset_keepalive insertion_sort ordered_insert peer_le peer_cmp memcmp from_file_cmp bytes_eq
sync_conf_run = refl

sync_conf_lem_example :
    (removed : List WgPeer) × (sync_conf sort running file_device
      ≡ some (
          synced file_device (record {
            removed = removed;
            file_peers = map (reset_for runtime_device.peers) file_device.peers;
          })))
    × ((k : Bytes)
        → has_key k removed ≡ (has_key k runtime_device.peers && not (has_key k file_device.peers)))
    × All (λ p. p ≡ remove_peer p.public_key) removed
sync_conf_lem_example =
    sync_conf_lem sort sort-IsSort running file_device runtime_device refl refl refl file_distinct
      runtime_distinct

abbrev program : Program
program = record {
  open_file = λ path.
      some
        (codes "[Peer]\n" ∷ codes "PublicKey=AQEBAQEBAQEBAQEBAQEBAQEBAQEBAQEBAQEBAQEBAQE=\n" ∷ []);
  qsort = sort;
  ipc_get_device = running;
  ipc_set_device_succeeds = λ d. true;
}

setconf_main-IsDevice_example :
    OnOk
      (λ e. OnSome IsDevice e.sent)
      (setconf_main test_host 20 program (codes "syncconf" ∷ codes "wg0" ∷ codes "wg.conf" ∷ []))
setconf_main-IsDevice_example =
    setconf_main-IsDevice program sort-IsSort (λ name. (refl, (refl, tt))) test_host 20
      test_host-HasBytePorts (codes "syncconf" ∷ codes "wg0" ∷ codes "wg.conf" ∷ [])

set_main-IsDevice_example :
    OnOk
      (λ e. OnSome IsDevice e.sent)
      (set_main test_host 20 program (codes "set" ∷ codes "wg0" ∷ arguments))
set_main-IsDevice_example =
    set_main-IsDevice test_host 20 program (codes "set" ∷ codes "wg0" ∷ arguments)
      test_host-HasBytePorts
