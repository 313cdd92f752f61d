-- ===== src/Showconf/Sections.antt =====
-- The sections of the file that showconf prints, read one after the other.
use wireguard_android_expres.Base.{
  ℕ, suc, ◌+◌, ◌≡◌, refl, sym, ap, ◌∙◌, arith, subst, Bool, true, false, not, ◌==◌, if◌then◌else◌,
  List, [], ◌∷◌, ◌++◌, append_assoc, append-nil, Bytes, codes, caseless_eq, map, All,
}
use wireguard_android_expres.Encoding.{key_to_base64}
use wireguard_android_expres.Containers.{
  Family, af_unspec, af_inet, af_inet6, WgAllowedIp, WgPeer, WgDevice, Sockaddr, new_peer, zero_key,
  set_flag, has_flag, wgpeer_has_public_key, wgpeer_has_preshared_key, wgpeer_replace_allowedips,
}
use wireguard_android_expres.Host.{Host}
use wireguard_android_expres.Config.Fields.{set_keepalive}
use wireguard_android_expres.Config.Endpoint.{ok}
use wireguard_android_expres.Config.Line.{ConfigCtx, begin_peer, process_line, config_read_line}
use wireguard_android_expres.Config.Valid.{non_empty}
use wireguard_android_expres.Config.Number.Digits.{false-ne-true}
use wireguard_android_expres.Uapi.Print.{decimal, Names}
use wireguard_android_expres.Uapi.Set.{print_endpoint, print_by_family, print_named}
use wireguard_android_expres.Showconf.{
  setting, when_line, show_peer, show_peers, show_allowedips, show_endpoint,
}
use wireguard_android_expres.Showconf.Text.{
  read_heading, read_blank, Leads, Leads-cons, Leads-append, Leads-one,
}
use wireguard_android_expres.Showconf.Endpoints.{IsNamed, IsReading, printed_endpoint}
use wireguard_android_expres.Showconf.Peers.{
  at_peer, start_peer, IsShown, IsNamedBy, read_public_key, read_preshared_key, read_keepalive,
  read_allowedips, read_endpoint,
}

-- The endpoint that is read: none where the printed peer has no address.
abbrev pub named_endpoint : Sockaddr → Family → Sockaddr
named_endpoint e af_unspec = record { sa_family = af_unspec; sa_bytes = [] }
named_endpoint e af_inet = e
named_endpoint e af_inet6 = e

-- `WGPEER_REPLACE_ALLOWEDIPS` and `WGPEER_HAS_PUBLIC_KEY`, and the flags of what is there.
abbrev pub flags_as_read : Bool → Bool → ℕ
flags_as_read preshared keepalive = 6 + (if preshared then 8 else 0) + (if keepalive then 16 else 0)

-- The peer that is read from what was printed of a peer.
abbrev pub peer_as_read : WgPeer → WgPeer
peer_as_read p = record {
  flags =
      flags_as_read (has_flag p.flags wgpeer_has_preshared_key)
        (not (p.persistent_keepalive_interval == 0));
  public_key = p.public_key;
  preshared_key = if has_flag p.flags wgpeer_has_preshared_key then p.preshared_key else zero_key;
  endpoint = named_endpoint p.endpoint p.endpoint.sa_family;
  last_handshake_time = record { tv_sec = 0; tv_nsec = 0 };
  rx_bytes = 0;
  tx_bytes = 0;
  persistent_keepalive_interval = p.persistent_keepalive_interval;
  allowedips = p.allowedips;
}

-- What the lines do to a peer, one after the other.
abbrev with_public : Bytes → WgPeer → WgPeer
with_public k q = record q { public_key = k; flags = set_flag q.flags wgpeer_has_public_key }

abbrev with_preshared : Bytes → WgPeer → WgPeer
with_preshared k q = record q {
  preshared_key = k;
  flags = set_flag q.flags wgpeer_has_preshared_key;
}

abbrev with_list : List WgAllowedIp → WgPeer → WgPeer
with_list ips q = record q { flags = set_flag q.flags wgpeer_replace_allowedips; allowedips = ips }

abbrev with_endpoint : Sockaddr → WgPeer → WgPeer
with_endpoint e q = record q { endpoint = e }

abbrev built : Bool → Bool → Bool → Bytes → Bytes → List WgAllowedIp → Sockaddr → ℕ → WgPeer
built psk some_ips ka key preshared ips e k =
    let q1 = with_public key start_peer in
    let q2 = if psk then with_preshared preshared q1 else q1 in
    let q3 = if some_ips then with_list ips q2 else q2 in
    let q4 = with_endpoint e q3 in if ka then set_keepalive q4 k else q4

with_interval :
    (q : WgPeer) (k : ℕ)
    → q.persistent_keepalive_interval ≡ k
    → q ≡ record q { persistent_keepalive_interval = k }
with_interval q k e = ap (λ n. record q { persistent_keepalive_interval = n }) e

with_entries :
    (q : WgPeer) (ips : List WgAllowedIp) → q.allowedips ≡ ips → q ≡ record q { allowedips = ips }
with_entries q ips e = ap (λ l. record q { allowedips = l }) e

built_lem :
    (psk some_ips ka : Bool) (key preshared : Bytes) (ips : List WgAllowedIp) (e : Sockaddr) (k : ℕ)
    → (some_ips ≡ false → [] ≡ ips)
    → (ka ≡ false → 0 ≡ k)
    → built psk some_ips ka key preshared ips e k ≡ record {
      flags = flags_as_read psk ka;
      public_key = key;
      preshared_key = if psk then preshared else zero_key;
      endpoint = e;
      last_handshake_time = record { tv_sec = 0; tv_nsec = 0 };
      rx_bytes = 0;
      tx_bytes = 0;
      persistent_keepalive_interval = k;
      allowedips = ips;
    }
built_lem true true true key preshared ips e k i j = refl
built_lem true true false key preshared ips e k i j =
    with_interval (built true true false key preshared ips e k) k (j refl)
built_lem true false true key preshared ips e k i j =
    with_entries (built true false true key preshared ips e k) ips (i refl)
built_lem true false false key preshared ips e k i j =
    with_interval (built true false false key preshared ips e k) k (j refl)
    ∙ with_entries
        (record (built true false false key preshared ips e k) {
          persistent_keepalive_interval = k;
        })
        ips (i refl)
built_lem false true true key preshared ips e k i j = refl
built_lem false true false key preshared ips e k i j =
    with_interval (built false true false key preshared ips e k) k (j refl)
built_lem false false true key preshared ips e k i j =
    with_entries (built false false true key preshared ips e k) ips (i refl)
built_lem false false false key preshared ips e k i j =
    with_interval (built false false false key preshared ips e k) k (j refl)
    ∙ with_entries
        (record (built false false false key preshared ips e k) {
          persistent_keepalive_interval = k;
        })
        ips (i refl)

no_endpoint :
    (psk some_ips : Bool) (key preshared : Bytes) (ips : List WgAllowedIp)
    → (let q1 = with_public key start_peer in
        let q2 = if psk then with_preshared preshared q1 else q1 in
        (if some_ips then with_list ips q2 else q2).endpoint)
      ≡ new_peer.endpoint
no_endpoint true true key preshared ips = refl
no_endpoint true false key preshared ips = refl
no_endpoint false true key preshared ips = refl
no_endpoint false false key preshared ips = refl

none_there : (ips : List WgAllowedIp) → non_empty ips ≡ false → [] ≡ ips
none_there [] e = refl
none_there (a ∷ ips) e = absurd (false-ne-true (sym e))

-- What show_peer prints behind the line of the public key, and with it.
abbrev peer_rest : Names → WgPeer → List Bytes
peer_rest n p =
    when_line (has_flag p.flags wgpeer_has_preshared_key)
      (setting (codes "PresharedKey") (key_to_base64 p.preshared_key))
    ++ (when_line (non_empty p.allowedips)
          (setting (codes "AllowedIPs") (show_allowedips n p.allowedips))
        ++ (show_endpoint (print_endpoint n p.endpoint)
            ++ when_line (not (p.persistent_keepalive_interval == 0))
                (setting (codes "PersistentKeepalive") (decimal p.persistent_keepalive_interval))))

abbrev peer_lines : Names → WgPeer → List Bytes
peer_lines n p = setting (codes "PublicKey") (key_to_base64 p.public_key) ∷ peer_rest n p

-- The lines of one peer, read by the state at a new peer.
module _ (h : Host) (n : Names) (fuel : ℕ) (dev : WgDevice) (ps : List WgPeer)
    (r : IsReading h) where
  keep_endpoint :
      (q : WgPeer) → q.endpoint ≡ new_peer.endpoint → with_endpoint new_peer.endpoint q ≡ q
  keep_endpoint q e = ap (λ x. record q { endpoint = x }) (sym e)

  -- A line under a condition.
  optional :
      (b : Bool) (q q' : WgPeer) (last : Bool → Bool) (l : Bytes)
      → (b ≡ true
          → config_read_line h (suc fuel) (at_peer dev ps q (last false)) l
            ≡ ok (at_peer dev ps q' (last true)))
      → Leads h
          (suc fuel)
          (at_peer dev ps q (last false))
          (when_line b l)
          (at_peer dev ps (if b then q' else q) (last b))
  optional true q q' last l e =
      Leads-one h (suc fuel) (at_peer dev ps q (last false)) (at_peer dev ps q' (last true)) l
        (e refl)
  optional false q q' last l e = λ ms. refl

  named_Leads :
      (q : WgPeer) (last : Bool) (e : Sockaddr) (six : Bool)
      → IsNamed h n e
      → Leads h
          (suc fuel)
          (at_peer dev ps q last)
          (show_endpoint (print_named six (n.getnameinfo e)))
          (at_peer dev ps (with_endpoint e q) last)
  named_Leads q last e six p =
      let t = printed_endpoint h n fuel six e r p in
      subst
        (λ o.
          Leads h (suc fuel) (at_peer dev ps q last) (show_endpoint o)
            (at_peer dev ps (with_endpoint e q) last))
        (sym t.1)
        (Leads-one h (suc fuel) (at_peer dev ps q last) (at_peer dev ps (with_endpoint e q) last)
          (setting (codes "Endpoint") t.0)
          (read_endpoint h (suc fuel) dev ps q last e fuel t.0 refl t.2 t.3 t.4))

  endpoint_Leads :
      (q : WgPeer) (last : Bool) (e : Sockaddr) (f : Family)
      → q.endpoint ≡ new_peer.endpoint
      → IsNamedBy h n e f
      → Leads h
          (suc fuel)
          (at_peer dev ps q last)
          (show_endpoint (print_by_family n e f))
          (at_peer dev ps (with_endpoint (named_endpoint e f) q) last)
  endpoint_Leads q last e af_unspec i p =
      subst (λ x. Leads h (suc fuel) (at_peer dev ps q last) [] (at_peer dev ps x last))
        (sym (keep_endpoint q i)) (λ ms. refl)
  endpoint_Leads q last e af_inet i p = named_Leads q last e false p
  endpoint_Leads q last e af_inet6 i p = named_Leads q last e true p

  -- The lines after `[Peer]`.
  peer_Leads :
      (p : WgPeer)
      → IsShown h n p
      → Leads h
          (suc fuel)
          (at_peer dev ps start_peer false)
          (peer_lines n p)
          (at_peer dev ps (peer_as_read p) (non_empty p.allowedips))
  peer_Leads p s =
      let psk = has_flag p.flags wgpeer_has_preshared_key in
      let ips = non_empty p.allowedips in
      let ka = not (p.persistent_keepalive_interval == 0) in
      let e = p.endpoint in
      let q1 = with_public p.public_key start_peer in
      let q2 = if psk then with_preshared p.preshared_key q1 else q1 in
      let q3 = if ips then with_list p.allowedips q2 else q2 in
      let q4 = with_endpoint (named_endpoint e e.sa_family) q3 in
      let q5 = if ka then set_keepalive q4 p.persistent_keepalive_interval else q4 in
      let fu = suc fuel in
      let after = Leads-append h fu in
      let lines : Leads h fu (at_peer dev ps start_peer false) (peer_lines n p)
          (at_peer dev ps q5 ips) =
        Leads-cons h fu (at_peer dev ps start_peer false) (at_peer dev ps q1 false)
          (at_peer dev ps q5 ips) (setting (codes "PublicKey") (key_to_base64 p.public_key))
          (peer_rest n p) (read_public_key h fu dev ps start_peer false p.public_key s.0.0 s.0.1)
          (after (at_peer dev ps q1 false) (at_peer dev ps q2 false) (at_peer dev ps q5 ips) _ _
            (optional psk q1 (with_preshared p.preshared_key q1) (λ b. false) _
              (λ _. read_preshared_key h fu dev ps q1 false p.preshared_key s.1.0 s.1.1))
            (after (at_peer dev ps q2 false) (at_peer dev ps q3 ips) (at_peer dev ps q5 ips) _ _
              (optional ips q2 (with_list p.allowedips q2) (λ b. b) _
                (λ t. read_allowedips h fu dev ps q2 false n p.allowedips s.3 r t refl))
              (after (at_peer dev ps q3 ips) (at_peer dev ps q4 ips) (at_peer dev ps q5 ips) _ _
                (endpoint_Leads q3 ips e e.sa_family
                  (no_endpoint psk ips p.public_key p.preshared_key p.allowedips) s.4)
                (optional ka q4 (set_keepalive q4 p.persistent_keepalive_interval) (λ b. ips) _
                  (λ _.
                    read_keepalive h fu dev ps q4 ips p.persistent_keepalive_interval r s.2))))) in
      subst
        (λ q. Leads h fu (at_peer dev ps start_peer false) (peer_lines n p) (at_peer dev ps q ips))
        (built_lem psk ips ka p.public_key p.preshared_key p.allowedips
          (named_endpoint e e.sa_family) p.persistent_keepalive_interval (none_there p.allowedips)
          (λ z. ground (arith, z)))
        lines

  -- A peer's section, behind a state that `[Peer]` takes to a new peer.
  section_Leads :
      (ctx : ConfigCtx) (p : WgPeer)
      → begin_peer ctx ≡ at_peer dev ps start_peer false
      → IsShown h n p
      → Leads h
          (suc fuel)
          ctx
          (show_peer n p)
          (at_peer dev ps (peer_as_read p) (non_empty p.allowedips))
  unfolding show_peer process_line caseless_eq
  section_Leads ctx p e s =
      Leads-cons h (suc fuel) ctx (at_peer dev ps start_peer false)
        (at_peer dev ps (peer_as_read p) (non_empty p.allowedips)) (codes "[Peer]" ++ (b'\n' ∷ []))
        (peer_lines n p) (read_heading h (suc fuel) ctx (codes "[Peer]") refl refl ∙ ap ok e)
        (peer_Leads p s)

-- The sections of all peers, with the device that is read.
module _ (h : Host) (n : Names) (fuel : ℕ) (dev : WgDevice) (r : IsReading h) where
  pub peers_Leads :
      (ps : List WgPeer) (ctx : ConfigCtx) (p : WgPeer) (qs : List WgPeer)
      → begin_peer ctx ≡ at_peer dev ps start_peer false
      → IsShown h n p
      → All (IsShown h n) qs
      → (end : ConfigCtx) × Leads h (suc fuel) ctx (show_peers n (p ∷ qs)) end
        × (end.device ≡ record dev { peers = ps ++ (peer_as_read p ∷ map peer_as_read qs) })
  unfolding show_peers begin_peer
  peers_Leads ps ctx p [] e s a = (
    at_peer dev ps (peer_as_read p) (non_empty p.allowedips),
    subst (λ l. Leads h (suc fuel) ctx l (at_peer dev ps (peer_as_read p) (non_empty p.allowedips)))
        (sym (append-nil (show_peer n p))) (section_Leads h n fuel dev ps r ctx p e s),
    refl,
  )
  peers_Leads ps ctx p (q ∷ qs) e s a =
      let here = at_peer dev ps (peer_as_read p) (non_empty p.allowedips) in
      let rest = peers_Leads (ps ++ (peer_as_read p ∷ [])) here q qs refl a.0 a.1 in
      (
        rest.0,
        Leads-append h (suc fuel) ctx here rest.0 (show_peer n p) _
            (section_Leads h n fuel dev ps r ctx p e s)
            (Leads-cons h (suc fuel) here here rest.0 (b'\n' ∷ []) (show_peers n (q ∷ qs))
              (read_blank h (suc fuel) here) rest.1),
        rest.2
            ∙ ap (λ l. record dev { peers = l })
                (append_assoc ps (peer_as_read p ∷ []) (map peer_as_read (q ∷ qs))),
      )
