-- ===== src/Kernel/Split.antt =====
-- How the peers of a device are spread over the parts of messages.
use wireguard_android_expres.Base.{
  ℕ, ◌≡◌, refl, sym, ap, ap₂, ◌∙◌, true, not, Option, none, some, List, [], ◌∷◌, ◌++◌, append_assoc,
  append-nil, Bytes, map,
}
use wireguard_android_expres.Containers.{WgAllowedIp, WgPeer}
use wireguard_android_expres.Config.Valid.{non_empty}
use wireguard_android_expres.Config.Number.Digits.{false-ne-true}
use wireguard_android_expres.Kernel.{Mnl, PeerMessage, peer_message}
use wireguard_android_expres.Kernel.Fill.{
  put_check, put_peer_part, put_allowedip, Ips, put_loop, put_allowedips, Filled, after_ips,
  peer_turn, put_peers, put_turn, put_nested, todo,
}

-- Parts that say all there is to say of the peers from `allowedip` and `peer` on. A peer has one
-- part with everything that it has but its addresses, and behind it, as long as addresses are left,
-- further parts with its key and more of them.
pub data IsSplit : List WgAllowedIp → List WgPeer → List PeerMessage → Type 0 where
  done : IsSplit [] [] []
  last :
      {ips : List WgAllowedIp} {p : WgPeer} {ps : List WgPeer} {ms : List PeerMessage}
      → (put : List WgAllowedIp) → put ≡ todo ips p
      → IsSplit [] ps ms
      → IsSplit ips (p ∷ ps) (peer_message (not (non_empty ips)) p put ∷ ms)
  more :
      {ips : List WgAllowedIp} {p : WgPeer} {ps : List WgPeer} {ms : List PeerMessage}
      → (put left : List WgAllowedIp) → put ++ left ≡ todo ips p
      → non_empty left ≡ true
      → IsSplit left (p ∷ ps) ms
      → IsSplit ips (p ∷ ps) (peer_message (not (non_empty ips)) p put ∷ ms)

abbrev pub IsCut : List WgAllowedIp → Ips → Type 0
IsCut ips i = i.put ++ i.left ≡ ips

put_turn-IsCut :
    (a : WgAllowedIp) (ips : List WgAllowedIp) (len : ℕ) (next : ℕ → Ips) (r : Option ℕ)
    → ((l : ℕ) → IsCut ips (next l))
    → IsCut (a ∷ ips) (put_turn a ips len next r)
put_turn-IsCut a ips len next none h = refl
put_turn-IsCut a ips len next (some l) h = ap (◌∷◌ a) (h l)

pub put_loop-IsCut : (m : Mnl) (ips : List WgAllowedIp) (len : ℕ) → IsCut ips (put_loop m ips len)
unfolding put_loop
put_loop-IsCut m [] len = refl
put_loop-IsCut m (a ∷ ips) len =
    put_turn-IsCut a ips len (λ l. put_loop m ips l) (put_allowedip m a len)
      (λ l. put_loop-IsCut m ips l)

put_nested-IsCut :
    (ips : List WgAllowedIp) (len : ℕ) (next : ℕ → Ips) (r : Option ℕ)
    → ((l : ℕ) → IsCut ips (next l))
    → IsCut ips (put_nested ips len next r)
put_nested-IsCut ips len next none h = refl
put_nested-IsCut ips len next (some l) h = h l

pub put_allowedips-IsCut :
    (m : Mnl) (ips : List WgAllowedIp) (len : ℕ) → IsCut ips (put_allowedips m ips len)
unfolding put_allowedips
put_allowedips-IsCut m [] len = refl
put_allowedips-IsCut m (a ∷ ips) len =
    put_nested-IsCut (a ∷ ips) len (λ l. put_loop m (a ∷ ips) l) (put_check m 0 len)
      (λ l. put_loop-IsCut m (a ∷ ips) l)

-- What a filled message holds goes before what splits the rest.
abbrev IsFilled : List WgAllowedIp → List WgPeer → Filled → Type 0
IsFilled ips peers f =
    (ms : List PeerMessage) → IsSplit f.allowedip f.peer ms → IsSplit ips peers (f.peers ++ ms)

after_ips-IsFilled :
    (ips : List WgAllowedIp) (p : WgPeer) (ps : List WgPeer) (next : ℕ → Filled)
    (put left : List WgAllowedIp) (len : ℕ)
    → put ++ left ≡ todo ips p
    → ((k : ℕ) → IsFilled [] ps (next k))
    → IsFilled ips (p ∷ ps) (after_ips (not (non_empty ips)) p ps next put left len)
after_ips-IsFilled ips p ps next put [] len e h ms s =
    IsSplit.last put (sym (append-nil put) ∙ e) (h len ms s)
after_ips-IsFilled ips p ps next put (a ∷ left) len e h ms s = IsSplit.more put (a ∷ left) e refl s

peer_turn-IsFilled :
    (m : Mnl) (ips : List WgAllowedIp) (p : WgPeer) (ps : List WgPeer) (len : ℕ) (next : ℕ → Filled)
    (r : Option ℕ)
    → ((k : ℕ) → IsFilled [] ps (next k))
    → IsFilled ips (p ∷ ps) (peer_turn m ips p ps len next r)
peer_turn-IsFilled m ips p ps len next none h = λ ms s. s
peer_turn-IsFilled m ips p ps len next (some l) h =
    let i = put_allowedips m (todo ips p) l in
    after_ips-IsFilled ips p ps next i.put i.left i.len (put_allowedips-IsCut m (todo ips p) l) h

pub put_peers-IsFilled :
    (m : Mnl) (ips : List WgAllowedIp) (peers : List WgPeer) (len : ℕ)
    → IsFilled ips peers (put_peers m ips peers len)
unfolding put_peers
put_peers-IsFilled m ips [] len = λ ms s. s
put_peers-IsFilled m ips (p ∷ ps) len =
    peer_turn-IsFilled m ips p ps len (λ k. put_peers m [] ps k)
      (put_peer_part m (not (non_empty ips)) p len) (λ k. put_peers-IsFilled m [] ps k)

-- The addresses that the parts assign, each with its peer's key, in order.
abbrev pub assigned_by : Bytes → List WgAllowedIp → List (Bytes × WgAllowedIp)
assigned_by key ips = map (λ a. (key, a)) ips

abbrev pub assigned : List PeerMessage → List (Bytes × WgAllowedIp)
assigned [] = []
assigned (p ∷ ms) = assigned_by p.public_key p.allowedips ++ assigned ms

abbrev pub wanted : List WgPeer → List (Bytes × WgAllowedIp)
wanted [] = []
wanted (p ∷ ps) = assigned_by p.public_key p.allowedips ++ wanted ps

assigned_by-append :
    (key : Bytes) (xs ys : List WgAllowedIp)
    → assigned_by key (xs ++ ys) ≡ assigned_by key xs ++ assigned_by key ys
assigned_by-append key [] ys = refl
assigned_by-append key (x ∷ xs) ys = ap (◌∷◌ (key, x)) (assigned_by-append key xs ys)

abbrev wanted_from : List WgAllowedIp → List WgPeer → List (Bytes × WgAllowedIp)
wanted_from ips [] = []
wanted_from ips (p ∷ ps) = assigned_by p.public_key (todo ips p) ++ wanted ps

wanted_from-nil : (ps : List WgPeer) → wanted_from [] ps ≡ wanted ps
wanted_from-nil [] = refl
wanted_from-nil (p ∷ ps) = refl

todo-non_empty : (ips : List WgAllowedIp) (p : WgPeer) → non_empty ips ≡ true → todo ips p ≡ ips
todo-non_empty [] p e = absurd (false-ne-true e)
todo-non_empty (a ∷ ips) p e = refl

assigned_from :
    {ips : List WgAllowedIp} {ps : List WgPeer} {ms : List PeerMessage}
    → IsSplit ips ps ms
    → assigned ms ≡ wanted_from ips ps
unfolding peer_message
assigned_from IsSplit.done = refl
assigned_from (IsSplit.last {p = p} {ps = ps} put e s) =
    ap₂ (λ xs ys. assigned_by p.public_key xs ++ ys) e (assigned_from s ∙ wanted_from-nil ps)
assigned_from (IsSplit.more {p = p} {ps = ps} put left e n s) =
    ap (λ ys. assigned_by p.public_key put ++ ys) (assigned_from s)
    ∙ ap (λ xs. assigned_by p.public_key put ++ (assigned_by p.public_key xs ++ wanted ps))
        (todo-non_empty left p n)
    ∙ sym (append_assoc (assigned_by p.public_key put) (assigned_by p.public_key left) (wanted ps))
    ∙ ap (λ xs. xs ++ wanted ps) (sym (assigned_by-append p.public_key put left))
    ∙ ap (λ xs. assigned_by p.public_key xs ++ wanted ps) e

pub assigned-wanted :
    {ps : List WgPeer} {ms : List PeerMessage} → IsSplit [] ps ms → assigned ms ≡ wanted ps
assigned-wanted {ps} s = assigned_from s ∙ wanted_from-nil ps
