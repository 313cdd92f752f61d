-- ===== src/Config/Endpoint/Resolve.antt =====
-- The loop of `parse_endpoint` around `getaddrinfo`: how often it tries and how long it sleeps.
use wireguard_android_expres.Base.{
  ℕ, zero, suc, ◌+◌, ◌-◌, ◌≤◌, ◌<◌, ◌≡◌, ◌≢◌, refl, arith, Bool, ◌||◌, ◌==◌, if◌then◌else◌, List,
  [], ◌∷◌, Bytes, length, All, Bool-cases, inl, inr,
}
use wireguard_android_expres.Host.{
  Host, Addrinfo, Resolved, found, eai_noname, eai_fail, eai_nodata, eai_other,
}
use wireguard_android_expres.Config.Endpoint.{
  bounded, Lookup, resolved, failed, waiting, next_timeout, is_permanent, resolve_loop,
}

-- What a run of the loop shows: it has ended, it slept `n` times at most, and never longer than
-- 20 seconds.
abbrev pub EndsWithin : ℕ → Lookup × List ℕ → Type 0
EndsWithin n r = (r.0 ≢ waiting) × (length r.1 ≤ n) × All (λ t. t ≤ 20000000) r.1

next_timeout-le : (timeout : ℕ) → next_timeout timeout ≤ 20000000
next_timeout-le timeout = ground arith

failed-ne-waiting : failed ≢ waiting
failed-ne-waiting e = cc

-- One turn at a result that is no address, where `rest` is what the next turn gives.
turn-EndsWithin :
    (n timeout : ℕ) (permanent : Bool) (rest : Lookup × List ℕ)
    → timeout ≤ 20000000
    → (n ≢ 0 → EndsWithin (n - 1) rest)
    → EndsWithin n (if permanent || n == 0 then (failed, []) else (rest.0, timeout ∷ rest.1))
turn-EndsWithin n timeout permanent rest t h = elim (Bool-cases (permanent || n == 0)) [
  | inl stop ↦ rw stop (failed-ne-waiting, omega arith, tt)
  | inr go ↦
      let pos : n ≢ 0 = ground arith in
      let r = h pos in rw go (r.0, omega (arith, r.1, pos), (t, r.2))
]

resolved-EndsWithin : (n : ℕ) (a : Addrinfo) → EndsWithin n (resolved a, [])
resolved-EndsWithin n a = ((λ e. cc), omega arith, tt)

module _ (h : Host) (begin end : Bytes) where
  turn :
      (fuel n attempt timeout : ℕ) (ret : Resolved)
      → h.getaddrinfo attempt begin end ≡ ret
      → timeout ≤ 20000000
      → (n ≢ 0
          → EndsWithin (n - 1) (
              resolve_loop h begin end fuel (attempt + 1) (bounded (n - 1)) (next_timeout timeout)))
      → EndsWithin n (resolve_loop h begin end (suc fuel) attempt (bounded n) timeout)
  unfolding resolve_loop
  turn fuel n attempt timeout (found a) e t r = rw (e, resolve_loop) (resolved-EndsWithin n a)
  turn fuel n attempt timeout eai_noname e t r =
      rw (e, resolve_loop) (turn-EndsWithin n timeout (is_permanent eai_noname) _ t r)
  turn fuel n attempt timeout eai_fail e t r =
      rw (e, resolve_loop) (turn-EndsWithin n timeout (is_permanent eai_fail) _ t r)
  turn fuel n attempt timeout eai_nodata e t r =
      rw (e, resolve_loop) (turn-EndsWithin n timeout (is_permanent eai_nodata) _ t r)
  turn fuel n attempt timeout (eai_other c) e t r =
      rw (e, resolve_loop) (turn-EndsWithin n timeout (is_permanent (eai_other c)) _ t r)

  -- With `n` retries and more attempts than that, whatever `getaddrinfo` answers, the loop of
  -- `parse_endpoint` ends, sleeps `n` times at most, and never longer than 20 seconds.
  pub resolve_loop-EndsWithin :
      (fuel n attempt timeout : ℕ)
      → n < fuel
      → timeout ≤ 20000000
      → EndsWithin n (resolve_loop h begin end fuel attempt (bounded n) timeout)
  resolve_loop-EndsWithin zero n attempt timeout lt t = absurd (omega arith)
  resolve_loop-EndsWithin (suc fuel) n attempt timeout lt t =
      turn fuel n attempt timeout (h.getaddrinfo attempt begin end) refl t (λ pos.
        resolve_loop-EndsWithin fuel (n - 1) (attempt + 1) (next_timeout timeout) (omega arith)
          (next_timeout-le timeout))
