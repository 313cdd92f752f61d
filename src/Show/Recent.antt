-- ===== src/Show/Recent.antt =====
-- sort_peers puts the peer of the latest handshake first.
use mathlib.Core.List.{Perm}
use mathlib.Core.List.Perm
use wireguard_android_expres.Base.{
  ℕ, ◌+◌, ◌≤◌, ◌^◌, ◌≡◌, refl, ◌∙◌, arith, Bool, true, false, not, ◌&&◌, ◌||◌, ◌==◌, ltb, leb, List,
  [], ◌∷◌, All, any, any-perm, IsSortedBy,
}
use wireguard_android_expres.Containers.{WgPeer, WgDevice}
use wireguard_android_expres.Show.{
  TimeT, time_32, time_64, time_limit, is_unset, peer_cmp, shown_before, relinked, sort_peers,
}

-- A handshake that is no earlier: more seconds, or as many and no fewer nanoseconds.
abbrev pub recent_first : WgPeer → WgPeer → Bool
recent_first a b =
    let ta = a.last_handshake_time in
    let tb = b.last_handshake_time in
    ltb tb.tv_sec ta.tv_sec || (ta.tv_sec == tb.tv_sec && leb tb.tv_nsec ta.tv_nsec)

-- A handshake that is not in a window of times: there is one, and its seconds are before `base`, or
-- as far behind it as a `time_t` does not reach, or its nanoseconds do not fit in one.
abbrev pub is_outside : TimeT → ℕ → WgPeer → Bool
is_outside w base p =
    let t = p.last_handshake_time in
    not (
      is_unset t
      || (leb base t.tv_sec && ltb t.tv_sec (base + time_limit w) && ltb t.tv_nsec (time_limit w)))

shown_before_lem :
    (w : TimeT) (base : ℕ) (a b : WgPeer)
    → base + time_limit w ≤ 2 ^ 63
    → is_outside w base a ≡ false
    → is_outside w base b ≡ false
    → shown_before w a b ≡ true
    → recent_first a b ≡ true
unfolding shown_before peer_cmp
shown_before_lem time_32 base a b f i j h = ground arith
shown_before_lem time_64 base a b f i j h = ground arith

module _ (w : TimeT) (base : ℕ) (fits : base + time_limit w ≤ 2 ^ 63) where
  in_order :
      (a : WgPeer) (l : List WgPeer)
      → is_outside w base a ≡ false
      → any (is_outside w base) l ≡ false
      → All (λ b. shown_before w a b ≡ true) l
      → All (λ b. recent_first a b ≡ true) l
  unfolding any
  in_order a [] i n h = tt
  in_order a (b ∷ l) i n h = (
    shown_before_lem w base a b fits i (ground (arith, n)) h.0,
    in_order a l i (ground (arith, n)) h.1,
  )

  sorted_lem :
      (l : List WgPeer)
      → any (is_outside w base) l ≡ false
      → IsSortedBy (shown_before w) l
      → IsSortedBy recent_first l
  unfolding any
  sorted_lem [] n h = tt
  sorted_lem (a ∷ l) n h = (
    in_order a l (ground (arith, n)) (ground (arith, n)) h.0,
    sorted_lem l (ground (arith, n)) h.1,
  )

-- Where a `time_t` has 32 or 64 bits, the seconds of the handshakes there are stand in one window
-- of 2 ^ 31 or 2 ^ 63 seconds from `base` on that ends by 2 ^ 63, their nanoseconds are below the
-- same number, and qsort gives the peers of the device in the order of peer_cmp, sort_peers changes
-- the order of the peers alone, and each peer's handshake is no earlier than those of the peers
-- behind it, so that peers without one come last.
pub sort_peers_lem :
    (w : TimeT) (base : ℕ) (qsort : List WgPeer → List WgPeer) (device : WgDevice)
    → base + time_limit w ≤ 2 ^ 63
    → any (is_outside w base) device.peers ≡ false
    → Perm (qsort device.peers) device.peers
    → IsSortedBy (shown_before w) (qsort device.peers)
    → (sort_peers qsort device ≡ record device { peers = (sort_peers qsort device).peers })
      × Perm (sort_peers qsort device).peers device.peers
      × IsSortedBy recent_first (sort_peers qsort device).peers
unfolding sort_peers
sort_peers_lem w base qsort device f n p s =
    let r = sorted_peers device.peers n p s in (refl, r.0, r.1)
  where
    sorted_peers :
        (l : List WgPeer)
        → any (is_outside w base) l ≡ false
        → Perm (qsort l) l
        → IsSortedBy (shown_before w) (qsort l)
        → Perm (relinked qsort l) l × IsSortedBy recent_first (relinked qsort l)
    sorted_peers [] n p s = (Perm.rfl, tt)
    sorted_peers (a ∷ l) n p s =
        (p, sorted_lem w base f (qsort (a ∷ l)) (any-perm (is_outside w base) p ∙ n) s)
