-- ===== src/Kernel/Room.antt =====
-- How long a message gets, and what always finds room in one.
use wireguard_android_expres.Base.{
  ℕ, ◌+◌, ◌≤◌, ◌≡◌, refl, arith, Bool, true, false, not, ◌==◌, le→leb, Option, some, ◌>>=◌,
}
use wireguard_android_expres.Containers.{
  Family, af_unspec, af_inet, af_inet6, WgAllowedIp, WgPeer, has_flag, wgpeer_has_preshared_key,
  wgpeer_has_persistent_keepalive_interval,
}
use wireguard_android_expres.Kernel.{Mnl, peer_flags}
use wireguard_android_expres.Kernel.Fill.{
  put_check, put_when, put_sockaddr, put_ipaddr, put_first, put_peer_part, put_allowedip,
}

-- A new length, within a bound.
abbrev pub Gives : ℕ → Option ℕ → Type 0
Gives bound r = (l : ℕ) × (r ≡ some l) × (l ≤ bound)

Gives-bind :
    (b c : ℕ) (r : Option ℕ) (f : ℕ → Option ℕ)
    → Gives b r
    → ((l : ℕ) → l ≤ b → Gives c (f l))
    → Gives c (r >>= f)
Gives-bind b c r f g k = rw (g.1) (k g.0 g.2)

module _ (m : Mnl) where
  put_check-Gives :
      (payload len b : ℕ)
      → len + m.attr_size payload ≤ b
      → b ≤ m.buffer_size
      → Gives b (put_check m payload len)
  unfolding put_check
  put_check-Gives payload len b h k =
      rw (le→leb (len + m.attr_size payload) m.buffer_size (omega arith))
        (len + m.attr_size payload, refl, h)

  put_when-Gives :
      (t : Bool) (payload len b : ℕ)
      → len + m.attr_size payload ≤ b
      → b ≤ m.buffer_size
      → Gives b (put_when m t payload len)
  put_when-Gives true payload len b h k = put_check-Gives payload len b h k
  put_when-Gives false payload len b h k = (len, refl, omega arith)

  -- What the largest peer takes without its addresses, and the largest address.
  abbrev pub peer_size : ℕ
  peer_size =
      m.attr_size 0
      + m.attr_size 32
      + m.attr_size 32
      + m.attr_size 28
      + m.attr_size 2
      + m.attr_size 4

  abbrev pub allowedip_size : ℕ
  allowedip_size = m.attr_size 0 + m.attr_size 2 + m.attr_size 16 + m.attr_size 1 + m.attr_size 4

  -- A longer attribute takes as much room or more.
  abbrev pub IsMonotone : Type 0
  IsMonotone = (m.attr_size 4 ≤ m.attr_size 16) × (m.attr_size 16 ≤ m.attr_size 28)

  put_sockaddr-Gives :
      (family : Family) (len b : ℕ)
      → IsMonotone
      → len + m.attr_size 28 ≤ b
      → b ≤ m.buffer_size
      → Gives b (put_sockaddr m family len)
  put_sockaddr-Gives af_unspec len b o h k = (len, refl, omega arith)
  put_sockaddr-Gives af_inet len b o h k = put_check-Gives 16 len b (omega arith) k
  put_sockaddr-Gives af_inet6 len b o h k = put_check-Gives 28 len b h k

  put_ipaddr-Gives :
      (family : Family) (len b : ℕ)
      → IsMonotone
      → len + m.attr_size 16 ≤ b
      → b ≤ m.buffer_size
      → Gives b (put_ipaddr m family len)
  put_ipaddr-Gives af_unspec len b o h k = (len, refl, omega arith)
  put_ipaddr-Gives af_inet len b o h k = put_check-Gives 4 len b (omega arith) k
  put_ipaddr-Gives af_inet6 len b o h k = put_check-Gives 16 len b h k

  put_first-Gives :
      (first : Bool) (p : WgPeer) (len b : ℕ)
      → IsMonotone
      → len + m.attr_size 32 + m.attr_size 28 + m.attr_size 2 ≤ b
      → b ≤ m.buffer_size
      → Gives b (put_first m first p len)
  unfolding put_first
  put_first-Gives false p len b o h k = (len, refl, omega arith)
  put_first-Gives true p len b o h k =
      let e = p.endpoint.sa_family in
      let psk = has_flag p.flags wgpeer_has_preshared_key in
      let two = len + m.attr_size 32 + m.attr_size 28 in
      Gives-bind two b (put_when m psk 32 len >>= put_sockaddr m e) _
        (Gives-bind (len + m.attr_size 32) two (put_when m psk 32 len) (put_sockaddr m e)
          (put_when-Gives psk 32 len (len + m.attr_size 32) (omega arith) (omega arith))
          (λ l q. put_sockaddr-Gives e l two o (omega arith) (omega arith)))
        (λ l q.
          put_when-Gives (has_flag p.flags wgpeer_has_persistent_keepalive_interval) 2 l b
            (omega arith) k)

  pub put_peer_part-Gives :
      (first : Bool) (p : WgPeer) (len b : ℕ)
      → IsMonotone
      → len + peer_size ≤ b
      → b ≤ m.buffer_size
      → Gives b (put_peer_part m first p len)
  unfolding put_peer_part
  put_peer_part-Gives first p len b o h k =
      let one = len + m.attr_size 0 in
      let two = one + m.attr_size 32 in
      let three = two + m.attr_size 32 + m.attr_size 28 + m.attr_size 2 in
      Gives-bind three b (put_check m 0 len >>= put_check m 32 >>= put_first m first p) _
        (Gives-bind two three (put_check m 0 len >>= put_check m 32) (put_first m first p)
          (Gives-bind one two (put_check m 0 len) (put_check m 32)
            (put_check-Gives 0 len one (omega arith) (omega arith))
            (λ l q. put_check-Gives 32 l two (omega arith) (omega arith)))
          (λ l q. put_first-Gives first p l three o (omega arith) (omega arith)))
        (λ l q. put_when-Gives (not (peer_flags first p == 0)) 4 l b (omega arith) k)

  pub put_allowedip-Gives :
      (a : WgAllowedIp) (len b : ℕ)
      → IsMonotone
      → len + allowedip_size ≤ b
      → b ≤ m.buffer_size
      → Gives b (put_allowedip m a len)
  unfolding put_allowedip
  put_allowedip-Gives a len b o h k =
      let one = len + m.attr_size 0 in
      let two = one + m.attr_size 2 in
      let three = two + m.attr_size 16 in
      let four = three + m.attr_size 1 in
      Gives-bind four b
        (put_check m 0 len >>= put_check m 2 >>= put_ipaddr m a.family >>= put_check m 1) _
        (Gives-bind three four (put_check m 0 len >>= put_check m 2 >>= put_ipaddr m a.family)
          (put_check m 1)
          (Gives-bind two three (put_check m 0 len >>= put_check m 2) (put_ipaddr m a.family)
            (Gives-bind one two (put_check m 0 len) (put_check m 2)
              (put_check-Gives 0 len one (omega arith) (omega arith))
              (λ l q. put_check-Gives 2 l two (omega arith) (omega arith)))
            (λ l q. put_ipaddr-Gives a.family l three o (omega arith) (omega arith)))
          (λ l q. put_check-Gives 1 l four (omega arith) (omega arith)))
        (λ l q. put_when-Gives (not (a.flags == 0)) 4 l b (omega arith) k)

  pub put_nest-Gives :
      (len b : ℕ) → len + m.attr_size 0 ≤ b → b ≤ m.buffer_size → Gives b (put_check m 0 len)
  put_nest-Gives len b h k = put_check-Gives 0 len b h k
