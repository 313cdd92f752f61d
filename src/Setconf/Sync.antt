-- ===== src/Setconf/Sync.antt =====
-- sync_conf as a whole: what it gives for a device of a file and one that runs.
use wireguard_android_expres.Base.{
  ◌≡◌, refl, ap, ap₂, ◌∙◌, arith, Bool, true, not, ◌&&◌, ◌||◌, Option, some, List, [], ◌∷◌, Bytes,
  map, All, bytes_eq, bytes_eq_iff, any, any-perm, IsSort,
}
use wireguard_android_expres.Containers.{WgPeer, WgDevice}
use wireguard_android_expres.Config.Number.Digits.{false-ne-true}
use wireguard_android_expres.Config.Valid.{non_empty}
use wireguard_android_expres.Setconf.{
  PeerOrigin, peer_le, SyncState, sync_loop, runs_preshared_key, runs_keepalive, origins, synced,
  sync_peers, sync_with, sync_conf, remove_peer,
}
use wireguard_android_expres.Setconf.Removed.{
  has_key, runtime_with, file_with, has_distinct_runtime, sync_loop-removed, sync_loop-IsRemove,
}
use wireguard_android_expres.Setconf.Resets.{
  keys, has_distinct_keys, misplaced, sync_peer, reset_with,
}
use wireguard_android_expres.Setconf.Turns.{sync_loop-file_peers}
use wireguard_android_expres.Setconf.Origins.{
  distinct-perm, distinct_origins, misplaced-origins, runtime_origins, file_origins, or-none,
}

-- Whether a peer with the key runs, and has the value.
abbrev pub runs_with : (WgPeer → Bool) → List WgPeer → Bytes → Bool
runs_with runs rs k = any (λ r. bytes_eq k r.public_key && runs r) rs

-- What the file's peer must say for the kernel to end with what the file has: a value that the
-- peer that runs has and the file does not set is reset.
abbrev pub reset_for : List WgPeer → WgPeer → WgPeer
reset_for rs p =
    reset_with (runs_with runs_preshared_key rs p.public_key)
      (runs_with runs_keepalive rs p.public_key) p

and-true_right : (a : Bool) → (a && true) ≡ a
and-true_right a = ground arith

-- The loop of sync_conf over the sorted array.
unfoldable loop_end : (List PeerOrigin → List PeerOrigin) → List WgPeer → List WgPeer → SyncState
loop_end qsort fs rs = sync_loop (qsort (origins fs rs)) (record { removed = []; file_peers = fs })

All-present :
    (fs gs : List WgPeer)
    → All (λ p. has_key p.public_key fs ≡ true) gs
    → (q : WgPeer) → All (λ p. has_key p.public_key (q ∷ fs) ≡ true) gs
unfolding any
All-present fs [] a q = tt
All-present fs (p ∷ gs) a q = (ground (arith, a.0), All-present fs gs a.1 q)

present : (fs : List WgPeer) → All (λ p. has_key p.public_key fs ≡ true) fs
unfolding any
present [] = tt
present (p ∷ fs) = (
  ap (λ t. t || has_key p.public_key fs) ((bytes_eq_iff p.public_key p.public_key).1 refl),
  All-present fs fs (present fs) p,
)

map_cong-All :
    (P : WgPeer → Type 0) (f g : WgPeer → WgPeer) (ps : List WgPeer)
    → ((p : WgPeer) → P p → f p ≡ g p)
    → All P ps
    → map f ps ≡ map g ps
map_cong-All P f g [] e a = refl
map_cong-All P f g (p ∷ ps) e a = ap₂ ◌∷◌ (e p a.0) (map_cong-All P f g ps e a.1)

module _ (qsort : List PeerOrigin → List PeerOrigin) (sorts : IsSort peer_le qsort) where
  sorted_runtime :
      (runs : WgPeer → Bool) (fs rs : List WgPeer) (k : Bytes)
      → any (λ o. runtime_with k o && runs o.peer) (qsort (origins fs rs)) ≡ runs_with runs rs k
  sorted_runtime runs fs rs k =
      any-perm (λ o. runtime_with k o && runs o.peer) (sorts (origins fs rs)).0
      ∙ runtime_origins (λ o. runtime_with k o && runs o.peer)
          (λ r. bytes_eq k r.public_key && runs r) fs rs (λ p j. refl) (λ p j. refl)

  sorted_file :
      (fs rs : List WgPeer) (k : Bytes) → any (file_with k) (qsort (origins fs rs)) ≡ has_key k fs
  sorted_file fs rs k =
      any-perm (file_with k) (sorts (origins fs rs)).0
      ∙ file_origins (file_with k) (λ p. bytes_eq k p.public_key) fs rs (λ p j. refl) (λ p j. refl)

  sorted_distinct :
      (fs rs : List WgPeer)
      → has_distinct_runtime (qsort (origins fs rs)) ≡ has_distinct_keys (keys rs)
  sorted_distinct fs rs = distinct-perm (sorts (origins fs rs)).0 ∙ distinct_origins fs rs

  removed_key :
      (fs rs : List WgPeer)
      → has_distinct_keys (keys rs) ≡ true
      → (k : Bytes)
      → has_key k (loop_end qsort fs rs).removed ≡ (has_key k rs && not (has_key k fs))
  unfolding loop_end any
  removed_key fs rs d k =
      let l = qsort (origins fs rs) in
      sync_loop-removed k l (record { removed = []; file_peers = fs }) (sorts (origins fs rs)).1
        (sorted_distinct fs rs ∙ d)
      ∙ or-none (any (runtime_with k) l && not (any (file_with k) l))
      ∙ ap₂ (λ s t. s && not t)
          (any-perm (runtime_with k) (sorts (origins fs rs)).0
            ∙ runtime_origins (runtime_with k) (λ p. bytes_eq k p.public_key) fs rs (λ p j. refl)
                (λ p j. refl))
          (sorted_file fs rs k)

  removed_IsRemove :
      (fs rs : List WgPeer) → All (λ p. p ≡ remove_peer p.public_key) (loop_end qsort fs rs).removed
  unfolding loop_end
  removed_IsRemove fs rs =
      sync_loop-IsRemove (qsort (origins fs rs)) (record { removed = []; file_peers = fs }) tt

  peer_part :
      (fs rs : List WgPeer) (p : WgPeer)
      → has_key p.public_key fs ≡ true
      → sync_peer (qsort (origins fs rs)) p ≡ reset_for rs p
  peer_part fs rs p e =
      let k = p.public_key in
      let same = λ (runs : WgPeer → Bool).
        ap₂ ◌&&◌ (sorted_runtime runs fs rs k) (sorted_file fs rs k ∙ e)
        ∙ and-true_right (runs_with runs rs k) in
      ap₂ (λ s t. reset_with s t p) (same runs_preshared_key) (same runs_keepalive)

  file_part :
      (fs rs : List WgPeer)
      → has_distinct_keys (keys rs) ≡ true
      → has_distinct_keys (keys fs) ≡ true
      → (loop_end qsort fs rs).file_peers ≡ map (reset_for rs) fs
  unfolding loop_end
  file_part fs rs d df =
      let l = qsort (origins fs rs) in
      sync_loop-file_peers l (record { removed = []; file_peers = fs }) (sorts (origins fs rs)).1
        (sorted_distinct fs rs ∙ d) df
        (any-perm (misplaced (keys fs)) (sorts (origins fs rs)).0 ∙ misplaced-origins fs rs)
      ∙ map_cong-All (λ p. has_key p.public_key fs ≡ true) (sync_peer l) (reset_for rs) fs
          (peer_part fs rs) (present fs)

  peers_lem :
      (file : WgDevice) (fs rs : List WgPeer)
      → non_empty fs ≡ true
      → non_empty rs ≡ true
      → sync_peers qsort file fs rs ≡ synced file (loop_end qsort fs rs)
  unfolding sync_peers loop_end
  peers_lem file [] rs f r = absurd (false-ne-true f)
  peers_lem file (p ∷ fs) [] f r = absurd (false-ne-true r)
  peers_lem file (p ∷ fs) (q ∷ rs) f r = refl

  with_lem :
      (file : WgDevice) (fs : List WgPeer) (runtime : WgDevice)
      → non_empty fs ≡ true
      → non_empty runtime.peers ≡ true
      → sync_with qsort file fs (some runtime)
        ≡ some (synced file (loop_end qsort fs runtime.peers))
  unfolding sync_with
  with_lem file [] runtime f r = absurd (false-ne-true f)
  with_lem file (p ∷ fs) runtime f r = ap some (peers_lem file (p ∷ fs) runtime.peers f r)

  -- For a file's device and a device that runs, with peers and no key twice in either, sync_conf
  -- clears the flag that replaces all peers, keeps the file's peers in their order, each with the
  -- preshared key and the keepalive interval reset where the peer that runs has one and the file
  -- sets none, and puts in front of them, to be removed and with nothing but its key, a peer for
  -- each key that runs and that the file does not have, and for no other key. `qsort` may be any
  -- function that sorts.
  pub sync_conf_lem :
      (ipc_get_device : Bytes → Option WgDevice) (file runtime : WgDevice)
      → ipc_get_device file.name ≡ some runtime
      → non_empty file.peers ≡ true
      → non_empty runtime.peers ≡ true
      → has_distinct_keys (keys file.peers) ≡ true
      → has_distinct_keys (keys runtime.peers) ≡ true
      → (removed : List WgPeer) × (sync_conf qsort ipc_get_device file
          ≡ some (
              synced file (record {
                removed = removed;
                file_peers = map (reset_for runtime.peers) file.peers;
              })))
        × ((k : Bytes)
            → has_key k removed ≡ (has_key k runtime.peers && not (has_key k file.peers)))
        × All (λ p. p ≡ remove_peer p.public_key) removed
  sync_conf_lem get file runtime e f r df dr = (
    (loop_end qsort file.peers runtime.peers).removed,
    ap (sync_with qsort file file.peers) e
        ∙ with_lem file file.peers runtime f r
        ∙ ap
            (λ fs. some (
              synced file (record {
                removed = (loop_end qsort file.peers runtime.peers).removed;
                file_peers = fs;
              })))
            (file_part file.peers runtime.peers dr df),
    removed_key file.peers runtime.peers dr,
    removed_IsRemove file.peers runtime.peers,
  )
