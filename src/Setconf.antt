-- ===== src/Setconf.antt =====
-- tunnel/tools/wireguard-tools/src/setconf.c: sync_conf, which turns the device of a file into the
-- difference to the device that runs, and setconf_main.
pub mod Origins
pub mod Turns
pub mod Main
pub mod Valid
pub mod Set
pub mod Sync
pub mod Resets
pub mod Removed
pub mod Sorted
use Prim.Native.Nat.{Ordering, compare}
use wireguard_android_expres.Base.{
  ℕ, zero, suc, ◌+◌, Bool, true, false, not, ◌&&◌, ◌==◌, if◌then◌else◌, Option, none, some, List,
  [], ◌∷◌, ◌++◌, Bytes, codes, take, bytes_eq,
}
use wireguard_android_expres.Containers.{
  WgPeer, WgDevice, set_flag, clear_flag, has_flag, new_peer, zero_key, wgpeer_remove_me,
  wgpeer_has_preshared_key, wgpeer_has_persistent_keepalive_interval, wgdevice_replace_peers,
}
use wireguard_android_expres.Host.{Host}
use wireguard_android_expres.Config.Endpoint.{Parsed, ok}
use wireguard_android_expres.Config.Line.{config_read_init, config_read_lines, config_read_finish}
use wireguard_android_expres.Uapi.Get.{ifnamsiz}

-- `struct peer_origin`. The pointer `peer` is the peer as it stood when the array was filled, and
-- its place in its own device's list.
pub record PeerOrigin : Type 0 where
  pub peer : WgPeer
  pub place : ℕ
  pub from_file : Bool

-- The sign of `memcmp` of two keys, which are of one length.
unfoldable pub memcmp : Bytes → Bytes → Ordering
memcmp [] [] = Ordering.eq
memcmp [] (y ∷ ys) = Ordering.lt
memcmp (x ∷ xs) [] = Ordering.gt
memcmp (x ∷ xs) (y ∷ ys) =
    let rest = memcmp xs ys in
    elim (compare x y) [
      | Ordering.lt ↦ Ordering.lt
      | Ordering.eq ↦ rest
      | Ordering.gt ↦ Ordering.gt
    ]

-- The sign of the difference of two `bool`.
unfoldable pub from_file_cmp : Bool → Bool → Ordering
from_file_cmp true true = Ordering.eq
from_file_cmp true false = Ordering.gt
from_file_cmp false true = Ordering.lt
from_file_cmp false false = Ordering.eq

unfoldable pub peer_cmp : PeerOrigin → PeerOrigin → Ordering
peer_cmp a b = elim (memcmp a.peer.public_key b.peer.public_key) [
  | Ordering.eq ↦ from_file_cmp a.from_file b.from_file
  | Ordering.lt ↦ Ordering.lt
  | Ordering.gt ↦ Ordering.gt
]

-- The order that `qsort` makes: an element is not greater than those behind it.
unfoldable pub peer_le : PeerOrigin → PeerOrigin → Bool
peer_le a b = elim (peer_cmp a b) [ Ordering.gt ↦ false | _ ↦ true ]

unfoldable pub origins_from : Bool → ℕ → List WgPeer → List PeerOrigin
origins_from from_file place [] = []
origins_from from_file place (p ∷ ps) =
    record { peer = p; place = place; from_file = from_file }
    ∷ origins_from from_file (suc place) ps

-- The array `peers` before it is sorted.
abbrev pub origins : List WgPeer → List WgPeer → List PeerOrigin
origins file runtime = origins_from true 0 file ++ origins_from false 0 runtime

abbrev pub key_eq : PeerOrigin → PeerOrigin → Bool
key_eq a b = bytes_eq a.peer.public_key b.peer.public_key

abbrev pub remove_peer : Bytes → WgPeer
remove_peer key = record new_peer { flags = wgpeer_remove_me; public_key = key }

unfoldable pub reset_preshared_key : Bool → WgPeer → WgPeer
reset_preshared_key set p =
    if set && not (has_flag p.flags wgpeer_has_preshared_key)
    then record p { preshared_key = zero_key; flags = set_flag p.flags wgpeer_has_preshared_key }
    else p

unfoldable pub reset_keepalive : Bool → WgPeer → WgPeer
reset_keepalive set p =
    if set && not (has_flag p.flags wgpeer_has_persistent_keepalive_interval)
    then record p {
      persistent_keepalive_interval = 0;
      flags = set_flag p.flags wgpeer_has_persistent_keepalive_interval;
    }
    else p

-- Whether the peer that runs has a value that the file may have to reset.
abbrev pub runs_preshared_key : WgPeer → Bool
runs_preshared_key r = has_flag r.flags wgpeer_has_preshared_key

abbrev pub runs_keepalive : WgPeer → Bool
runs_keepalive r = not (r.persistent_keepalive_interval == 0)

-- What the branch for a peer that both devices have does to the peer of the file. Its tests of
-- `from_file` and of the keys are those of the branch.
abbrev pub reset_peer : WgPeer → WgPeer → WgPeer
reset_peer r p = reset_keepalive (runs_keepalive r) (reset_preshared_key (runs_preshared_key r) p)

-- A write through a pointer to a peer of a list.
unfoldable pub update_at : ℕ → (WgPeer → WgPeer) → List WgPeer → List WgPeer
update_at i f [] = []
update_at zero f (p ∷ ps) = f p ∷ ps
update_at (suc i) f (p ∷ ps) = p ∷ update_at i f ps

-- The file's device in the loop: the peers put in front of it, and the ones it had.
pub record SyncState : Type 0 where
  pub removed : List WgPeer
  pub file_peers : List WgPeer

abbrev pub sync_remove : PeerOrigin → SyncState → SyncState
sync_remove o st = record st { removed = remove_peer o.peer.public_key ∷ st.removed }

abbrev pub sync_reset : PeerOrigin → PeerOrigin → SyncState → SyncState
sync_reset o n st = record st { file_peers = update_at n.place (reset_peer o.peer) st.file_peers }

-- The turn for a peer that runs, with the elements behind it.
unfoldable pub sync_runtime : PeerOrigin → List PeerOrigin → SyncState → SyncState
sync_runtime o [] st = sync_remove o st
sync_runtime o (n ∷ ns) st =
    if n.from_file && key_eq o n then sync_reset o n st else sync_remove o st

unfoldable pub sync_loop : List PeerOrigin → SyncState → SyncState
sync_loop [] st = st
sync_loop (o ∷ rest) st = sync_loop rest (if o.from_file then st else sync_runtime o rest st)

abbrev pub synced : WgDevice → SyncState → WgDevice
synced file st = record file {
  flags = clear_flag file.flags wgdevice_replace_peers;
  peers = st.removed ++ st.file_peers;
}

unfoldable pub sync_peers :
    (List PeerOrigin → List PeerOrigin) → WgDevice → List WgPeer → List WgPeer → WgDevice
sync_peers qsort file fs [] = file
sync_peers qsort file [] rs = file
sync_peers qsort file fs rs =
    synced file (sync_loop (qsort (origins fs rs)) (record { removed = []; file_peers = fs }))

unfoldable pub sync_with :
    (List PeerOrigin → List PeerOrigin) → WgDevice → List WgPeer → Option WgDevice → Option WgDevice
sync_with qsort file [] answer = some file
sync_with qsort file fs none = none
sync_with qsort file fs (some runtime) = some (sync_peers qsort file fs runtime.peers)

-- `sync_conf`, with `qsort` and the answer of `ipc_get_device` as arguments. `none` is `false`.
abbrev pub sync_conf :
    (List PeerOrigin → List PeerOrigin) → (Bytes → Option WgDevice) → WgDevice → Option WgDevice
sync_conf qsort ipc_get_device file = sync_with qsort file file.peers (ipc_get_device file.name)
