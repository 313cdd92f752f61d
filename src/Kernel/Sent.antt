-- ===== src/Kernel/Sent.antt =====
-- kernel_set_device as a whole: what it has sent when it returns.
use wireguard_android_expres.Base.{
  ℕ, zero, suc, ◌+◌, ◌≤◌, ◌<◌, ◌≡◌, refl, sym, ap, subst, arith, Bool, true, false, not, Option,
  none, some, List, [], ◌∷◌, ◌++◌, All,
}
use wireguard_android_expres.Containers.{WgAllowedIp, WgPeer, WgDevice}
use wireguard_android_expres.Config.Valid.{non_empty}
use wireguard_android_expres.Config.Number.Digits.{false-ne-true}
use wireguard_android_expres.Kernel.{Mnl, PeerMessage, Message, device_message}
use wireguard_android_expres.Kernel.Fill.{
  put_peer_part, put_allowedips, Filled, after_ips, peer_turn, put_peers, device_len, size_when,
  fill, todo, Outcome, returned, next_round, cons_sent, rounds, kernel_set_device,
}
use wireguard_android_expres.Kernel.Room.{peer_size, allowedip_size, IsMonotone}
use wireguard_android_expres.Kernel.Split.{
  IsSplit, put_peers-IsFilled, assigned, wanted, assigned-wanted,
}
use wireguard_android_expres.Kernel.Progress.{total, weight, put_peers-less}
use wireguard_android_expres.Kernel.Bounds.{put_peers-le}

-- The parts about peers of all messages.
abbrev pub all_peers : List Message → List PeerMessage
all_peers [] = []
all_peers (msg ∷ msgs) = msg.peers ++ all_peers msgs

-- The first message has the device's attributes, the others its name and peers only.
abbrev pub IsAbout : Bool → WgDevice → List Message → Type 0
IsAbout first dev [] = ⊥
IsAbout first dev (msg ∷ msgs) =
    (msg ≡ device_message first dev msg.peers msg.nlmsg_len)
    × All (λ x. x ≡ device_message false dev x.peers x.nlmsg_len) msgs

IsAbout-All :
    (dev : WgDevice) (msgs : List Message)
    → IsAbout false dev msgs
    → All (λ x. x ≡ device_message false dev x.peers x.nlmsg_len) msgs
IsAbout-All dev [] v = tt
IsAbout-All dev (msg ∷ msgs) v = v

-- Where all that is left are no peers, no address is left.
abbrev IsClean : Filled → Type 0
IsClean f = non_empty f.peer ≡ false → f.allowedip ≡ []

after_ips-IsClean :
    (first : Bool) (p : WgPeer) (ps : List WgPeer) (next : ℕ → Filled) (put left : List WgAllowedIp)
    (len : ℕ)
    → ((k : ℕ) → IsClean (next k))
    → IsClean (after_ips first p ps next put left len)
after_ips-IsClean first p ps next put [] len h = h len
after_ips-IsClean first p ps next put (a ∷ left) len h = λ e. absurd (false-ne-true (sym e))

peer_turn-IsClean :
    (m : Mnl) (ips : List WgAllowedIp) (p : WgPeer) (ps : List WgPeer) (len : ℕ) (next : ℕ → Filled)
    (r : Option ℕ)
    → ((k : ℕ) → IsClean (next k))
    → IsClean (peer_turn m ips p ps len next r)
peer_turn-IsClean m ips p ps len next none h = λ e. absurd (false-ne-true (sym e))
peer_turn-IsClean m ips p ps len next (some l) h =
    let i = put_allowedips m (todo ips p) l in
    after_ips-IsClean (not (non_empty ips)) p ps next i.put i.left i.len h

put_peers-IsClean : (m : Mnl) (peers : List WgPeer) (len : ℕ) → IsClean (put_peers m [] peers len)
unfolding put_peers
put_peers-IsClean m [] len = λ e. refl
put_peers-IsClean m (p ∷ ps) len =
    peer_turn-IsClean m [] p ps len (λ k. put_peers m [] ps k) (put_peer_part m true p len)
      (λ k. put_peers-IsClean m ps k)

put_peers-cons-IsClean :
    (m : Mnl) (ips : List WgAllowedIp) (p : WgPeer) (ps : List WgPeer) (len : ℕ)
    → IsClean (put_peers m ips (p ∷ ps) len)
unfolding put_peers
put_peers-cons-IsClean m ips p ps len =
    peer_turn-IsClean m ips p ps len (λ k. put_peers m [] ps k)
      (put_peer_part m (not (non_empty ips)) p len) (λ k. put_peers-IsClean m ps k)

-- The buffer holds the device's attributes and, with them, the largest peer with the largest
-- address; 0 is the room of a nest.
abbrev pub HasRoom : Mnl → WgDevice → Type 0
HasRoom m dev =
    device_len m true dev + m.attr_size 0 + peer_size m + m.attr_size 0 + allowedip_size m
    ≤ m.buffer_size

size_when-le : (b : Bool) (n : ℕ) → size_when false n ≤ size_when b n
size_when-le b n = omega arith

device_len-le :
    (m : Mnl) (first : Bool) (dev : WgDevice) → device_len m first dev ≤ device_len m true dev
unfolding device_len
device_len-le m true dev = omega arith
device_len-le m false dev = omega arith

-- What the rounds from one on give.
abbrev Sends : Mnl → WgDevice → Bool → List WgAllowedIp → List WgPeer → Outcome → Type 0
Sends m dev first ips peers o =
    (msgs : List Message) × (o ≡ returned 0 msgs)
    × IsSplit ips peers (all_peers msgs)
    × All (λ msg. msg.nlmsg_len ≤ m.buffer_size) msgs
    × IsAbout first dev msgs

-- One message that is taken, and what follows it.
next_round-Sends :
    (m : Mnl) (dev : WgDevice) (first : Bool) (ips : List WgAllowedIp) (peers : List WgPeer)
    (put : List PeerMessage) (left : List WgAllowedIp) (peer : List WgPeer) (len : ℕ)
    (rest : Outcome)
    → ((ms : List PeerMessage) → IsSplit left peer ms → IsSplit ips peers (put ++ ms))
    → (non_empty peer ≡ false → left ≡ [])
    → len ≤ m.buffer_size
    → (non_empty peer ≡ true → Sends m dev false left peer rest)
    → Sends m dev first ips peers (next_round 0 (device_message first dev put len) peer rest)
unfolding device_message
next_round-Sends m dev first ips peers put left [] len rest split clean le h = (
  device_message first dev put len ∷ [],
  refl,
  split [] (subst (λ l. IsSplit l [] []) (sym (clean refl)) IsSplit.done),
  (le, tt),
  (refl, tt),
)
next_round-Sends m dev first ips peers put left (q ∷ qs) len rest split clean le h =
    let r = h refl in
    (
      device_message first dev put len ∷ r.0,
      ap (cons_sent (device_message first dev put len)) r.1,
      split (all_peers r.0) r.2,
      (le, r.3),
      (refl, IsAbout-All dev r.0 r.4),
    )

module _ (m : Mnl) (answer : Message → ℕ) (dev : WgDevice) where
  rounds-Sends :
      (fuel : ℕ) (first : Bool) (ips : List WgAllowedIp) (peers : List WgPeer)
      → ((msg : Message) → answer msg ≡ 0)
      → IsMonotone m
      → HasRoom m dev
      → weight ips peers < fuel
      → non_empty peers ≡ true
      → Sends m dev first ips peers (rounds m answer dev fuel first ips peers)
  unfolding rounds fill
  rounds-Sends zero first ips peers a o room w n = absurd (omega (arith, w))
  rounds-Sends (suc fuel) first ips [] a o room w n = absurd (false-ne-true n)
  rounds-Sends (suc fuel) first ips (p ∷ ps) a o room w n =
      let start = device_len m first dev + m.attr_size 0 in
      let f = put_peers m ips (p ∷ ps) start in
      let d = device_len-le m first dev in
      let less = put_peers-less m ips p ps start o (omega (arith, d, room)) in
      let rest = rounds m answer dev fuel false f.allowedip f.peer in
      let msg = device_message first dev f.peers f.len in
      subst (λ e. Sends m dev first ips (p ∷ ps) (next_round e msg f.peer rest)) (sym (a msg))
        (next_round-Sends m dev first ips (p ∷ ps) f.peers f.allowedip f.peer f.len rest
          (put_peers-IsFilled m ips (p ∷ ps) start) (put_peers-cons-IsClean m ips p ps start)
          (put_peers-le m ips (p ∷ ps) start (omega (arith, d, room)))
          (rounds-Sends fuel false f.allowedip f.peer a o room (omega (arith, less, w))))

  all-Sends :
      (fuel : ℕ) (peers : List WgPeer)
      → ((msg : Message) → answer msg ≡ 0)
      → IsMonotone m
      → HasRoom m dev
      → total peers < fuel
      → Sends m dev true [] peers (rounds m answer dev fuel true [] peers)
  unfolding rounds fill device_message
  all-Sends zero [] a o room w = absurd (omega (arith, w))
  all-Sends (suc fuel) [] a o room w =
      let msg = device_message true dev [] (device_len m true dev) in
      subst
        (λ e. Sends m dev true [] [] (next_round e msg [] (rounds m answer dev fuel false [] [])))
        (sym (a msg)) (msg ∷ [], refl, IsSplit.done, (omega (arith, room), tt), (refl, tt))
  all-Sends fuel (p ∷ ps) a o room w = rounds-Sends fuel true [] (p ∷ ps) a o room w refl

  -- Where the kernel takes each message, the buffer has room for the device with one peer and one
  -- address, and longer attributes take no less room, kernel_set_device returns 0 within one round
  -- more than the device has peers and addresses. No message that it sent is longer than the
  -- buffer; the first has the device's attributes and the others its name only; and the parts about
  -- peers, over all messages, are for each peer in order one part with all that the peer has but
  -- addresses, and further parts with its key, whose addresses are together the peer's, in order.
  pub kernel_set_device_lem :
      (fuel : ℕ)
      → ((msg : Message) → answer msg ≡ 0)
      → IsMonotone m
      → HasRoom m dev
      → total dev.peers < fuel
      → (msgs : List Message) × (kernel_set_device m answer fuel dev ≡ returned 0 msgs)
        × IsSplit [] dev.peers (all_peers msgs)
        × (assigned (all_peers msgs) ≡ wanted dev.peers)
        × All (λ msg. msg.nlmsg_len ≤ m.buffer_size) msgs
        × IsAbout true dev msgs
  unfolding kernel_set_device
  kernel_set_device_lem fuel a o room w =
      let r = all-Sends fuel dev.peers a o room w in (r.0, r.1, r.2, assigned-wanted r.2, r.3, r.4)
