-- ===== src/Config/Endpoint.antt =====
-- `parse_endpoint` of config.c: the text is cut into host and service, and the pair is resolved,
-- with waits between the attempts that fail for now.
pub mod Resolve
use wireguard_android_expres.Base.{
  ℕ, zero, suc, ◌+◌, ◌-◌, ◌*◌, ◌/◌, Bool, true, false, ◌||◌, not, ◌==◌, ltb, if◌then◌else◌, Option,
  none, some, ◌>>=◌, List, [], ◌∷◌, Bytes, length, char_at, drop, codes, bytes_eq, split_first,
  split_last,
}
use wireguard_android_expres.Containers.{Sockaddr}
use wireguard_android_expres.Host.{
  Host, Addrinfo, Resolved, found, eai_noname, eai_fail, eai_nodata,
}
use wireguard_android_expres.Config.Number.{strtoul}
use wireguard_android_expres.Config.Fields.{is_inet_addr}

-- `parse_dns_retries`: a bound, no bound (-1), or the end of the process.
pub data Retries : Type 0 where
  bounded : ℕ → Retries
  infinite : Retries
  exit_1 : Retries

unfoldable pub parse_dns_retries : Host → Retries
parse_dns_retries h = elim h.getenv_retries [
  | none ↦ bounded 15
  | some retries ↦
      if bytes_eq retries (codes "infinity")
      then infinite
      else let (ret, end) = strtoul h.ulong_max 10 retries in
        if not (length end == 0) || ltb 0x7fff_ffff ret then exit_1 else bounded ret
]

-- Host and service of `[host]:service`, whose host may hold colons, or of `host:service`.
unfoldable pub split_bracketed : Bytes → Option (Bytes × Bytes)
split_bracketed value = split_first b']' value >>= λ cut.
    if not (char_at cut.1 0 == b':') || length (drop 1 cut.1) == 0
    then none
    else some (drop 1 cut.0, drop 1 cut.1)

unfoldable pub split_plain : Bytes → Option (Bytes × Bytes)
split_plain value = split_last b':' value >>= λ cut. if length cut.1 == 0 then none else some cut

unfoldable pub split_endpoint : Bytes → Option (Bytes × Bytes)
split_endpoint value =
    if length value == 0
    then none
    else if char_at value 0 == b'['
    then split_bracketed value
    else split_plain value

-- The ways in which the loop ends; `waiting` is a loop that has used up the attempts it was given.
pub data Lookup : Type 0 where
  resolved : Addrinfo → Lookup
  failed : Lookup
  waiting : Lookup

-- `retries >= 0 && !retries--`: whether the attempts are used up, and what is left of them.
abbrev pub used_up : Retries → Bool
used_up (bounded n) = n == 0
used_up _ = false

abbrev pub one_less : Retries → Retries
one_less (bounded n) = bounded (n - 1)
one_less r = r

-- `min(20000000, timeout * 6 / 5)`, in `unsigned int`.
abbrev pub next_timeout : ℕ → ℕ
next_timeout timeout = let t = timeout * 6 / 5 in if ltb 20000000 t then 20000000 else t

abbrev pub is_permanent : Resolved → Bool
is_permanent eai_noname = true
is_permanent eai_fail = true
is_permanent eai_nodata = true
is_permanent _ = false

-- The loop from one attempt on, with its result and the times that it sleeps.
unfoldable pub resolve_loop : Host → Bytes → Bytes → ℕ → ℕ → Retries → ℕ → Lookup × List ℕ
resolve_loop h begin end zero attempt retries timeout = (waiting, [])
resolve_loop h begin end (suc fuel) attempt retries timeout =
    elim (h.getaddrinfo attempt begin end) [
      | found a ↦ (resolved a, [])
      | ret ↦
          let rest =
            resolve_loop h begin end fuel (attempt + 1) (one_less retries) (next_timeout timeout) in
          if is_permanent ret || used_up retries then (failed, []) else (rest.0, timeout ∷ rest.1)
    ]

-- What a parser that may wait or leave the process gives.
pub data Parsed {ℓ} (A : Type ℓ) : Type ℓ where
  ok : A → Parsed A
  err : Parsed A
  exited : Parsed A
  still_waiting : Parsed A

abbrev pub take_address : Lookup → Parsed Sockaddr
take_address (resolved a) =
    if is_inet_addr a then ok (record { sa_family = a.ai_family; sa_bytes = a.ai_addr }) else err
take_address failed = err
take_address waiting = still_waiting

-- `parse_endpoint`, with `fuel` attempts at most.
unfoldable pub parse_endpoint : Host → ℕ → Bytes → Parsed Sockaddr
parse_endpoint h fuel value = elim (parse_dns_retries h) [
  | exit_1 ↦ exited
  | retries ↦ elim (split_endpoint value) [
    | none ↦ err
    | some (begin, end) ↦ take_address (resolve_loop h begin end fuel 0 retries 1000000).0
  ]
]
