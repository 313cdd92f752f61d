-- ===== src/Showconf/Endpoints.antt =====
-- An endpoint that showconf prints, read by parse_endpoint.
use wireguard_android_expres.Base.{
  ℕ, suc, ◌≤◌, ◌≡◌, ◌≢◌, refl, sym, ap, ap₂, ◌∙◌, Bool, true, false, ◌&&◌, ◌==◌, if◌then◌else◌,
  some, ◌>>=◌, [], ◌∷◌, ◌++◌, Bytes, char_at, All, All-append,
}
use wireguard_android_expres.Containers.{Sockaddr}
use wireguard_android_expres.Host.{Host, Addrinfo, found}
use wireguard_android_expres.Config.Fields.{has_char, is_inet_addr}
use wireguard_android_expres.Config.Endpoint.{
  Retries, bounded, infinite, exit_1, take_address, parse_dns_retries, parse_endpoint,
  split_endpoint, resolve_loop, resolved, ok,
}
use wireguard_android_expres.Config.Valid.{non_empty}
use wireguard_android_expres.Uapi.Print.{Names}
use wireguard_android_expres.Uapi.Set.{print_named}
use wireguard_android_expres.Uapi.Endpoints.{split_endpoint-print_named}
use wireguard_android_expres.Showconf.Text.{IsClean}

-- What is asked of the C library for an endpoint: `getnameinfo` gives a numeric host and service,
-- which `getaddrinfo` resolves to the same address at its first attempt.
abbrev pub IsNamed : Host → Names → Sockaddr → Type 0
IsNamed h n e =
    (host : Bytes) × (service : Bytes) × (a : Addrinfo) × (n.getnameinfo e ≡ some (host, service))
    × (h.getaddrinfo 0 host service ≡ found a)
    × ((is_inet_addr a ≡ true) × (a.ai_family ≡ e.sa_family) × (a.ai_addr ≡ e.sa_bytes))
    × (All IsClean host × All IsClean service)
    × ((has_char b']' host ≡ false) × ((char_at host 0 == b'[') ≡ false))
    × ((has_char b':' service ≡ false) × (service ≢ []))

-- What the reader's machine is asked: a long that holds 32 bits, and a number of retries from the
-- environment that does not end the process.
abbrev pub IsReading : Host → Type 0
IsReading h = (0xffff_ffff ≤ h.ulong_max) × (parse_dns_retries h ≢ exit_1)

pub named_text :
    (six : Bool) (host service : Bytes)
    → (t : Bytes) × (print_named six (some (host, service)) ≡ some t)
      × (All IsClean host → All IsClean service → All IsClean t)
      × (non_empty t ≡ true)
unfolding print_named
named_text six host service = by_test (six && has_char b':' host)
  where
    by_test :
        (b : Bool)
        → (t : Bytes) × (some
              (if b then b'[' ∷ (host ++ (b']' ∷ (b':' ∷ service))) else host ++ (b':' ∷ service))
            ≡ some t)
          × (All IsClean host → All IsClean service → All IsClean t)
          × (non_empty t ≡ true)
    by_test true = (
      b'[' ∷ (host ++ (b']' ∷ (b':' ∷ service))),
      refl,
      (λ a b. (refl, All-append IsClean host (b']' ∷ (b':' ∷ service)) a (refl, (refl, b)))),
      refl,
    )
    by_test false = (
      host ++ (b':' ∷ service),
      refl,
      (λ a b. All-append IsClean host (b':' ∷ service) a (refl, b)),
      colon host,
    )
      where
        colon : (host : Bytes) → non_empty (host ++ (b':' ∷ service)) ≡ true
        colon [] = refl
        colon (c ∷ host) = refl

resolve_first :
    (h : Host) (fuel : ℕ) (host service : Bytes) (retries : Retries) (a : Addrinfo)
    → h.getaddrinfo 0 host service ≡ found a
    → resolve_loop h host service (suc fuel) 0 retries 1000000 ≡ (resolved a, [])
unfolding resolve_loop
resolve_first h fuel host service retries a g = rw (g, resolve_loop) refl

pub parse_endpoint-named :
    (h : Host) (fuel : ℕ) (host service value : Bytes) (a : Addrinfo) (e : Sockaddr)
    → IsReading h
    → split_endpoint value ≡ some (host, service)
    → h.getaddrinfo 0 host service ≡ found a
    → is_inet_addr a ≡ true
    → a.ai_family ≡ e.sa_family
    → a.ai_addr ≡ e.sa_bytes
    → parse_endpoint h (suc fuel) value ≡ ok e
unfolding parse_endpoint
parse_endpoint-named h fuel host service value a e r s g i f b =
    by_retries (parse_dns_retries h) refl
  where
    read : take_address (resolved a) ≡ ok e
    read = rw i (ap₂ (λ x y. ok (record { sa_family = x; sa_bytes = y })) f b)

    by_retries : (n : Retries) → parse_dns_retries h ≡ n → parse_endpoint h (suc fuel) value ≡ ok e
    by_retries (bounded k) n =
        rw (n, s, resolve_first h fuel host service (bounded k) a g, parse_endpoint) read
    by_retries infinite n =
        rw (n, s, resolve_first h fuel host service infinite a g, parse_endpoint) read
    by_retries exit_1 n = absurd (r.1 n)

-- What print_endpoint gives, and that it is read.
pub printed_endpoint :
    (h : Host) (n : Names) (fuel : ℕ) (six : Bool) (e : Sockaddr)
    → IsReading h
    → IsNamed h n e
    → (t : Bytes) × (print_named six (n.getnameinfo e) ≡ some t)
      × All IsClean t
      × (non_empty t ≡ true)
      × (parse_endpoint h (suc fuel) t ≡ ok e)
printed_endpoint h n fuel six e r p =
    let t = named_text six p.0 p.1 in
    let cut = split_endpoint-print_named six p.0 p.1 p.7.0 p.7.1 p.8.0 p.8.1 in
    let cut' : split_endpoint t.0 ≡ some (p.0, p.1) =
      sym (ap (λ x. x >>= split_endpoint) t.1) ∙ cut in
    (
      t.0,
      ap (print_named six) p.3 ∙ t.1,
      t.2 p.6.0 p.6.1,
      t.3,
      parse_endpoint-named h fuel p.0 p.1 t.0 p.2 e r cut' p.4 p.5.0 p.5.1 p.5.2,
    )
