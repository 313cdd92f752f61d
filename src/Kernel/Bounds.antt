-- ===== src/Kernel/Bounds.antt =====
-- No message outgrows the buffer.
use wireguard_android_expres.Base.{
  ℕ, ◌+◌, ◌≤◌, Bool, true, false, not, leb, leb→le, Option, none, some, List, [], ◌∷◌, ◌>>=◌, ◌==◌,
}
use wireguard_android_expres.Containers.{
  Family, af_unspec, af_inet, af_inet6, WgAllowedIp, WgPeer, has_flag, wgpeer_has_preshared_key,
  wgpeer_has_persistent_keepalive_interval,
}
use wireguard_android_expres.Config.Valid.{OnSome, either, non_empty}
use wireguard_android_expres.Config.Valid.Parsers.{OnSome-bind, OnSome-any}
use wireguard_android_expres.Kernel.{Mnl, peer_flags}
use wireguard_android_expres.Kernel.Fill.{
  put_check, put_when, put_sockaddr, put_ipaddr, put_first, put_peer_part, put_allowedip, Ips,
  put_turn, put_loop, put_nested, put_allowedips, Filled, after_ips, peer_turn, put_peers, todo,
}

module _ (m : Mnl) where
  put_check-le : (payload len : ℕ) → OnSome (λ l. l ≤ m.buffer_size) (put_check m payload len)
  unfolding put_check
  put_check-le payload len =
      either (OnSome (λ l. l ≤ m.buffer_size)) (leb (len + m.attr_size payload) m.buffer_size) _ _
        (λ e. leb→le (len + m.attr_size payload) m.buffer_size e) (λ _. tt)

  put_when-le :
      (t : Bool) (payload len : ℕ)
      → len ≤ m.buffer_size
      → OnSome (λ l. l ≤ m.buffer_size) (put_when m t payload len)
  put_when-le true payload len h = put_check-le payload len
  put_when-le false payload len h = h

  put_sockaddr-le :
      (family : Family) (len : ℕ)
      → len ≤ m.buffer_size
      → OnSome (λ l. l ≤ m.buffer_size) (put_sockaddr m family len)
  put_sockaddr-le af_unspec len h = h
  put_sockaddr-le af_inet len h = put_check-le 16 len
  put_sockaddr-le af_inet6 len h = put_check-le 28 len

  put_first-le :
      (first : Bool) (p : WgPeer) (r : Option ℕ)
      → OnSome (λ l. l ≤ m.buffer_size) r
      → OnSome (λ l. l ≤ m.buffer_size) (r >>= put_first m first p)
  unfolding put_first
  put_first-le first p none h = tt
  put_first-le false p (some len) h = h
  put_first-le true p (some len) h =
      let P = λ (l : ℕ). l ≤ m.buffer_size in
      let psk = has_flag p.flags wgpeer_has_preshared_key in
      OnSome-bind P P (put_when m psk 32 len >>= put_sockaddr m p.endpoint.sa_family) _
        (OnSome-bind P P (put_when m psk 32 len) (put_sockaddr m p.endpoint.sa_family)
          (put_when-le psk 32 len h) (put_sockaddr-le p.endpoint.sa_family))
        (put_when-le (has_flag p.flags wgpeer_has_persistent_keepalive_interval) 2)

  put_peer_part-le :
      (first : Bool) (p : WgPeer) (len : ℕ)
      → OnSome (λ l. l ≤ m.buffer_size) (put_peer_part m first p len)
  unfolding put_peer_part
  put_peer_part-le first p len =
      let P = λ (l : ℕ). l ≤ m.buffer_size in
      OnSome-bind P P (put_check m 0 len >>= put_check m 32 >>= put_first m first p) _
        (put_first-le first p (put_check m 0 len >>= put_check m 32) (
          OnSome-bind P P (put_check m 0 len) (put_check m 32) (put_check-le 0 len)
            (λ l q. put_check-le 32 l)))
        (λ l q. put_when-le (not (peer_flags first p == 0)) 4 l q)

  put_allowedip-le :
      (a : WgAllowedIp) (len : ℕ) → OnSome (λ l. l ≤ m.buffer_size) (put_allowedip m a len)
  unfolding put_allowedip
  put_allowedip-le a len =
      let P = λ (l : ℕ). l ≤ m.buffer_size in
      OnSome-bind P P
        (put_check m 0 len >>= put_check m 2 >>= put_ipaddr m a.family >>= put_check m 1) _
        (OnSome-any P (put_check m 0 len >>= put_check m 2 >>= put_ipaddr m a.family)
          (put_check m 1) (put_check-le 1))
        (put_when-le (not (a.flags == 0)) 4)

  put_turn-le :
      (a : WgAllowedIp) (ips : List WgAllowedIp) (len : ℕ) (next : ℕ → Ips) (r : Option ℕ)
      → len ≤ m.buffer_size
      → OnSome (λ l. l ≤ m.buffer_size) r
      → ((l : ℕ) → l ≤ m.buffer_size → (next l).len ≤ m.buffer_size)
      → (put_turn a ips len next r).len ≤ m.buffer_size
  put_turn-le a ips len next none h g k = h
  put_turn-le a ips len next (some l) h g k = k l g

  put_loop-le :
      (ips : List WgAllowedIp) (len : ℕ)
      → len ≤ m.buffer_size
      → (put_loop m ips len).len ≤ m.buffer_size
  unfolding put_loop
  put_loop-le [] len h = h
  put_loop-le (a ∷ ips) len h =
      put_turn-le a ips len (λ l. put_loop m ips l) (put_allowedip m a len) h
        (put_allowedip-le a len) (λ l q. put_loop-le ips l q)

  put_nested-le :
      (ips : List WgAllowedIp) (len : ℕ) (next : ℕ → Ips) (r : Option ℕ)
      → len ≤ m.buffer_size
      → OnSome (λ l. l ≤ m.buffer_size) r
      → ((l : ℕ) → l ≤ m.buffer_size → (next l).len ≤ m.buffer_size)
      → (put_nested ips len next r).len ≤ m.buffer_size
  put_nested-le ips len next none h g k = h
  put_nested-le ips len next (some l) h g k = k l g

  put_allowedips-le :
      (ips : List WgAllowedIp) (len : ℕ)
      → len ≤ m.buffer_size
      → (put_allowedips m ips len).len ≤ m.buffer_size
  unfolding put_allowedips
  put_allowedips-le [] len h = h
  put_allowedips-le (a ∷ ips) len h =
      put_nested-le (a ∷ ips) len (λ l. put_loop m (a ∷ ips) l) (put_check m 0 len) h
        (put_check-le 0 len) (λ l q. put_loop-le (a ∷ ips) l q)

  after_ips-le :
      (first : Bool) (p : WgPeer) (ps : List WgPeer) (next : ℕ → Filled)
      (put left : List WgAllowedIp) (len : ℕ)
      → len ≤ m.buffer_size
      → ((k : ℕ) → k ≤ m.buffer_size → (next k).len ≤ m.buffer_size)
      → (after_ips first p ps next put left len).len ≤ m.buffer_size
  after_ips-le first p ps next put [] len h k = k len h
  after_ips-le first p ps next put (a ∷ left) len h k = h

  peer_turn-le :
      (ips : List WgAllowedIp) (p : WgPeer) (ps : List WgPeer) (len : ℕ) (next : ℕ → Filled)
      (r : Option ℕ)
      → len ≤ m.buffer_size
      → OnSome (λ l. l ≤ m.buffer_size) r
      → ((k : ℕ) → k ≤ m.buffer_size → (next k).len ≤ m.buffer_size)
      → (peer_turn m ips p ps len next r).len ≤ m.buffer_size
  peer_turn-le ips p ps len next none h g k = h
  peer_turn-le ips p ps len next (some l) h g k =
      let i = put_allowedips m (todo ips p) l in
      after_ips-le (not (non_empty ips)) p ps next i.put i.left i.len
        (put_allowedips-le (todo ips p) l g) k

  pub put_peers-le :
      (ips : List WgAllowedIp) (peers : List WgPeer) (len : ℕ)
      → len ≤ m.buffer_size
      → (put_peers m ips peers len).len ≤ m.buffer_size
  unfolding put_peers
  put_peers-le ips [] len h = h
  put_peers-le ips (p ∷ ps) len h =
      peer_turn-le ips p ps len (λ k. put_peers m [] ps k)
        (put_peer_part m (not (non_empty ips)) p len) h
        (put_peer_part-le (not (non_empty ips)) p len) (λ k q. put_peers-le [] ps k q)
