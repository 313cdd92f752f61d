-- ===== src/Show.antt =====
-- tunnel/tools/wireguard-tools/src/show.c: the order in which the peers of a device are
-- shown.
pub mod Recent
use Prim.Native.Nat.{Ordering}
use wireguard_android_expres.Base.{
  ℕ, ◌+◌, ◌-◌, ◌%◌, ◌^◌, Bool, true, false, not, ◌&&◌, ◌==◌, leb, if◌then◌else◌, List, [], ◌∷◌,
}
use wireguard_android_expres.Containers.{WgPeer, WgDevice, Timespec64}

-- The two widths of `time_t`: 64 bits, and the 32 of Android's 32-bit targets.
pub data TimeT : Type 0 where
  time_32 time_64 : TimeT

-- One more than the largest `time_t`.
abbrev pub time_limit : TimeT → ℕ
time_limit time_32 = 2 ^ 31
time_limit time_64 = 2 ^ 63

-- The difference of two `int64_t`, cut to the bits of a `time_t`.
abbrev time_diff : TimeT → ℕ → ℕ → ℕ
time_diff time_32 a b = (a + 2 ^ 64 - b) % 2 ^ 64 % 2 ^ 32
time_diff time_64 a b = (a + 2 ^ 64 - b) % 2 ^ 64

abbrev pub is_unset : Timespec64 → Bool
is_unset t = t.tv_sec == 0 && t.tv_nsec == 0

-- 1 for a negative difference and -1 for a positive one.
abbrev from_diff : TimeT → ℕ → Ordering
from_diff w diff =
    if leb (time_limit w) diff then Ordering.gt else if diff == 0 then Ordering.eq else Ordering.lt

unfoldable pub peer_cmp : TimeT → WgPeer → WgPeer → Ordering
peer_cmp w a b =
    let ta = a.last_handshake_time in
    let tb = b.last_handshake_time in
    if is_unset ta && not (is_unset tb)
    then Ordering.gt
    else if is_unset tb && not (is_unset ta)
    then Ordering.lt
    else let diff = time_diff w ta.tv_sec tb.tv_sec in
      from_diff w (if diff == 0 then time_diff w ta.tv_nsec tb.tv_nsec else diff)

-- The order that qsort is asked for.
unfoldable pub shown_before : TimeT → WgPeer → WgPeer → Bool
shown_before w a b = elim (peer_cmp w a b) [ Ordering.gt ↦ false | _ ↦ true ]

abbrev pub relinked : (List WgPeer → List WgPeer) → List WgPeer → List WgPeer
relinked qsort [] = []
relinked qsort (p ∷ ps) = qsort (p ∷ ps)

unfoldable pub sort_peers : (List WgPeer → List WgPeer) → WgDevice → WgDevice
sort_peers qsort device = record device { peers = relinked qsort device.peers }
