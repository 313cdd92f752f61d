-- ===== src/Tests/Show.antt =====
-- The order of the peers that are shown, on three peers.
use mathlib.Core.List.{Perm}
use wireguard_android_expres.Base.{
  ℕ, ◌≡◌, refl, arith, true, false, List, [], ◌∷◌, map, any, IsSortedBy, insertion_sort,
  ordered_insert, insertion_sort-perm,
}
use wireguard_android_expres.Containers.{WgPeer, WgDevice, new_peer, new_device}
use wireguard_android_expres.Show.{time_32, time_64, shown_before, peer_cmp, sort_peers}
use wireguard_android_expres.Show.Recent.{recent_first, is_outside, sort_peers_lem}

abbrev at_time : ℕ → ℕ → WgPeer
at_time sec nsec = record new_peer { last_handshake_time = record { tv_sec = sec; tv_nsec = nsec } }

-- Two handshakes after 2038, and a peer without one.
abbrev device : WgDevice
device = record new_device {
  peers = at_time 3000000005 1 ∷ at_time 0 0 ∷ at_time 3000000005 9 ∷ [];
}

abbrev qsort : List WgPeer → List WgPeer
qsort = insertion_sort (shown_before time_32)

sorted_run : IsSortedBy (shown_before time_32) (qsort device.peers)
unfolding insertion_sort ordered_insert shown_before peer_cmp
sorted_run = ((refl, (refl, tt)), ((refl, tt), (tt, tt)))

sort_peers_run :
    map (λ p. p.last_handshake_time.tv_nsec) (sort_peers qsort device).peers ≡ 9 ∷ 1 ∷ 0 ∷ []
unfolding sort_peers insertion_sort ordered_insert shown_before peer_cmp
sort_peers_run = refl

-- Where a `time_t` has 32 bits, of two times that are 2 ^ 31 seconds apart the earlier one may be
-- shown first; with 64 bits it is not.
narrowed_run : shown_before time_32 (at_time 5 0) (at_time 2147483700 0) ≡ true
unfolding shown_before peer_cmp
narrowed_run = refl

wide_run : shown_before time_64 (at_time 5 0) (at_time 2147483700 0) ≡ false
unfolding shown_before peer_cmp
wide_run = refl

none_outside : any (is_outside time_32 3000000000) device.peers ≡ false
unfolding any
none_outside = refl

sort_peers_lem_example :
    (sort_peers qsort device ≡ record device { peers = (sort_peers qsort device).peers })
    × Perm (sort_peers qsort device).peers device.peers
    × IsSortedBy recent_first (sort_peers qsort device).peers
sort_peers_lem_example =
    sort_peers_lem time_32 3000000000 qsort device (omega arith) none_outside
      (insertion_sort-perm (shown_before time_32) device.peers) sorted_run
