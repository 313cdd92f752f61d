-- ===== src/Kernel/Progress.antt =====
-- Each message that is filled takes something from what is left.
use wireguard_android_expres.Base.{
  ℕ, suc, ◌+◌, ◌≤◌, ◌<◌, ◌≡◌, refl, sym, ap, subst, arith, Bool, true, not, Option, none, some,
  List, [], ◌∷◌, ◌++◌, length, length-append,
}
use wireguard_android_expres.Containers.{WgAllowedIp, WgPeer}
use wireguard_android_expres.Config.Valid.{non_empty}
use wireguard_android_expres.Config.Number.Digits.{false-ne-true}
use wireguard_android_expres.Kernel.{Mnl}
use wireguard_android_expres.Kernel.Fill.{
  put_peer_part, put_turn, put_loop, put_nested, put_allowedips, Filled, after_ips, peer_turn,
  put_peers, todo,
}
use wireguard_android_expres.Kernel.Room.{
  peer_size, allowedip_size, IsMonotone, put_peer_part-Gives, put_allowedip-Gives, put_nest-Gives,
}
use wireguard_android_expres.Kernel.Split.{put_loop-IsCut, put_allowedips-IsCut}

-- How much is left: peers and addresses, a peer that has begun included.
abbrev pub total : List WgPeer → ℕ
total [] = 0
total (p ∷ ps) = suc (length p.allowedips) + total ps

abbrev pub weight : List WgAllowedIp → List WgPeer → ℕ
weight ips [] = 0
weight ips (p ∷ ps) = suc (length (todo ips p)) + total ps

pub weight-total : (ps : List WgPeer) → weight [] ps ≡ total ps
weight-total [] = refl
weight-total (p ∷ ps) = refl

abbrev pub weight_of : Filled → ℕ
weight_of f = weight f.allowedip f.peer

cut_length :
    (put left ts : List WgAllowedIp) → put ++ left ≡ ts → length put + length left ≡ length ts
cut_length put left ts e = omega (arith, length-append put left, ap length e)

after_ips-weight :
    (first : Bool) (p : WgPeer) (ps : List WgPeer) (next : ℕ → Filled) (put left : List WgAllowedIp)
    (len n : ℕ)
    → ((k : ℕ) → weight_of (next k) ≤ total ps)
    → (non_empty left ≡ true → length left ≤ n)
    → weight_of (after_ips first p ps next put left len) ≤ n + suc (total ps)
after_ips-weight first p ps next put [] len n h k = omega (arith, h len)
after_ips-weight first p ps next put (a ∷ left) len n h k = omega (arith, k refl)

after_ips-less :
    (first : Bool) (p : WgPeer) (ps : List WgPeer) (next : ℕ → Filled) (put left : List WgAllowedIp)
    (len n : ℕ)
    → ((k : ℕ) → weight_of (next k) ≤ total ps)
    → (non_empty left ≡ true → length left < n)
    → weight_of (after_ips first p ps next put left len) < suc n + total ps
after_ips-less first p ps next put [] len n h k = omega (arith, h len)
after_ips-less first p ps next put (a ∷ left) len n h k = omega (arith, k refl)

module _ (m : Mnl) where
  peer_turn-weight :
      (ips : List WgAllowedIp) (p : WgPeer) (ps : List WgPeer) (len : ℕ) (next : ℕ → Filled)
      (r : Option ℕ)
      → ((k : ℕ) → weight_of (next k) ≤ total ps)
      → weight_of (peer_turn m ips p ps len next r) ≤ weight ips (p ∷ ps)
  peer_turn-weight ips p ps len next none h = omega arith
  peer_turn-weight ips p ps len next (some l) h =
      let i = put_allowedips m (todo ips p) l in
      let cut = cut_length i.put i.left (todo ips p) (put_allowedips-IsCut m (todo ips p) l) in
      let bound =
        after_ips-weight (not (non_empty ips)) p ps next i.put i.left i.len (length (todo ips p)) h
          (λ _. omega (arith, cut)) in
      omega (arith, bound)

  put_peers-weight :
      (ips : List WgAllowedIp) (peers : List WgPeer) (len : ℕ)
      → weight_of (put_peers m ips peers len) ≤ weight ips peers
  unfolding put_peers
  put_peers-weight ips [] len = omega arith
  put_peers-weight ips (p ∷ ps) len =
      peer_turn-weight ips p ps len (λ k. put_peers m [] ps k)
        (put_peer_part m (not (non_empty ips)) p len)
        (λ k. omega (arith, put_peers-weight [] ps k, weight-total ps))

  -- Where there is room for an address, one is put.
  put_loop-less :
      (a : WgAllowedIp) (ips : List WgAllowedIp) (len : ℕ)
      → IsMonotone m
      → len + allowedip_size m ≤ m.buffer_size
      → length (put_loop m (a ∷ ips) len).left ≤ length ips
  unfolding put_loop
  put_loop-less a ips len o h =
      let g = put_allowedip-Gives m a len m.buffer_size o h (omega arith) in
      let i = put_loop m ips g.0 in
      subst (λ r. length (put_turn a ips len (λ l. put_loop m ips l) r).left ≤ length ips) (sym g.1)
        (omega (arith, cut_length i.put i.left ips (put_loop-IsCut m ips g.0)))

  put_allowedips-less :
      (ips : List WgAllowedIp) (len : ℕ)
      → IsMonotone m
      → len + m.attr_size 0 + allowedip_size m ≤ m.buffer_size
      → non_empty (put_allowedips m ips len).left ≡ true
      → length (put_allowedips m ips len).left < length ips
  unfolding put_allowedips
  put_allowedips-less [] len o h e = absurd (false-ne-true e)
  put_allowedips-less (a ∷ ips) len o h e =
      let g = put_nest-Gives m len (len + m.attr_size 0) (omega arith) (omega arith) in
      subst
        (λ r.
          length (put_nested (a ∷ ips) len (λ l. put_loop m (a ∷ ips) l) r).left < suc (length ips))
        (sym g.1) (omega (arith, put_loop-less a ips g.0 o (omega (arith, g.2))))

  pub put_peers-less :
      (ips : List WgAllowedIp) (p : WgPeer) (ps : List WgPeer) (len : ℕ)
      → IsMonotone m
      → len + peer_size m + m.attr_size 0 + allowedip_size m ≤ m.buffer_size
      → weight_of (put_peers m ips (p ∷ ps) len) < weight ips (p ∷ ps)
  unfolding put_peers
  put_peers-less ips p ps len o h =
      let first = not (non_empty ips) in
      let next = λ (k : ℕ). put_peers m [] ps k in
      let g = put_peer_part-Gives m first p len (len + peer_size m) o (omega arith) (omega arith) in
      let i = put_allowedips m (todo ips p) g.0 in
      subst (λ r. weight_of (peer_turn m ips p ps len next r) < weight ips (p ∷ ps)) (sym g.1)
        (after_ips-less first p ps next i.put i.left i.len (length (todo ips p))
          (λ k. omega (arith, put_peers-weight [] ps k, weight-total ps))
          (put_allowedips-less (todo ips p) g.0 o (omega (arith, g.2))))
