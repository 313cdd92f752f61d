-- ===== src/Showconf/Keys.antt =====
-- Which key `process_line` finds in a line `Key=value`.
use wireguard_android_expres.Base.{
  ℕ, ◌≡◌, refl, ◌∙◌, arith, true, false, leb, none, some, [], ◌∷◌, ◌++◌, Bytes, length,
  length-append, drop, codes, caseless_eq, caseless_prefix,
}
use wireguard_android_expres.Host.{Host}
use wireguard_android_expres.Config.Fields.{
  get_value, parse_port, parse_fwmark, parse_key, parse_persistent_keepalive,
}
use wireguard_android_expres.Config.Endpoint.{parse_endpoint}
use wireguard_android_expres.Config.AllowedIps.{parse_allowedips}
use wireguard_android_expres.Config.Line.{
  ConfigCtx, last_peer, set_last_peer, set_device, set_allowedips, from_option, map_parsed,
  store_private_key, store_public_key, store_preshared_key, key_match, device_line, peer_line,
  process_line,
}
use wireguard_android_expres.Config.Valid.{non_empty}
use wireguard_android_expres.Config.Number.Digits.{false-ne-true}

prefix_lem : (k v : Bytes) → caseless_prefix (k ++ v) k ≡ true
unfolding caseless_prefix
prefix_lem [] [] = refl
prefix_lem [] (x ∷ v) = refl
prefix_lem (c ∷ k) v = ground (arith, prefix_lem k v)

drop-append : (k v : Bytes) → drop (length k) (k ++ v) ≡ v
drop-append [] v = refl
drop-append (c ∷ k) v = drop-append k v

line_longer : (k v : Bytes) → non_empty v ≡ true → leb (length (k ++ v)) (length k) ≡ false
line_longer k [] e = absurd (false-ne-true e)
line_longer k (x ∷ v) e = ground (arith, length-append k (x ∷ v))

get_value-hit : (k v : Bytes) → non_empty v ≡ true → get_value (k ++ v) k ≡ some v
unfolding get_value
get_value-hit k v e = rw (line_longer k v e, prefix_lem k v, drop-append k v) refl

get_value-miss : (line k : Bytes) → caseless_prefix line k ≡ false → get_value line k ≡ none
unfolding get_value
get_value-miss line k e = ground (arith, e)

module _ {ℓ} {A : Type ℓ} where
  match-hit :
      (k v : Bytes) (f : Bytes → A) (otherwise : A)
      → non_empty v ≡ true
      → key_match (k ++ v) k f otherwise ≡ f v
  match-hit k v f otherwise e = rw (get_value-hit k v e, key_match) refl

  match-miss :
      (line k : Bytes) (f : Bytes → A) (otherwise : A)
      → caseless_prefix line k ≡ false
      → key_match line k f otherwise ≡ otherwise
  match-miss line k f otherwise e = rw (get_value-miss line k e, key_match) refl

module _ (h : Host) (fuel : ℕ) (ctx : ConfigCtx) (v : Bytes) (n : non_empty v ≡ true) where
  module _ (d : ctx.is_device_section ≡ true) where
    pub port_setting :
        process_line h fuel ctx (codes "ListenPort" ++ (b'=' ∷ v))
        ≡ from_option (parse_port h ctx.device v) (set_device ctx)
    unfolding process_line caseless_eq device_line
    port_setting = rw d (match-hit (codes "ListenPort=") v _ _ n)

    pub mark_setting :
        process_line h fuel ctx (codes "FwMark" ++ (b'=' ∷ v))
        ≡ from_option (parse_fwmark h ctx.device v) (set_device ctx)
    unfolding process_line caseless_eq device_line caseless_prefix
    mark_setting = rw d (
        match-miss (codes "FwMark=" ++ v) (codes "ListenPort=") _ _ refl
        ∙ match-hit (codes "FwMark=") v _ _ n)

    pub private_key_setting :
        process_line h fuel ctx (codes "PrivateKey" ++ (b'=' ∷ v))
        ≡ from_option (store_private_key ctx.device (parse_key h v)) (set_device ctx)
    unfolding process_line caseless_eq device_line caseless_prefix
    private_key_setting = rw d (
        match-miss (codes "PrivateKey=" ++ v) (codes "ListenPort=") _ _ refl
        ∙ match-miss (codes "PrivateKey=" ++ v) (codes "FwMark=") _ _ refl
        ∙ match-hit (codes "PrivateKey=") v _ _ n)

  module _ (d : ctx.is_device_section ≡ false) (p : ctx.is_peer_section ≡ true) where
    pub endpoint_setting :
        process_line h fuel ctx (codes "Endpoint" ++ (b'=' ∷ v))
        ≡ map_parsed
            (λ e. set_last_peer ctx (record (last_peer ctx) { endpoint = e }))
            (parse_endpoint h fuel v)
    unfolding process_line caseless_eq peer_line
    endpoint_setting = rw (d, p) (match-hit (codes "Endpoint=") v _ _ n)

    pub public_key_setting :
        process_line h fuel ctx (codes "PublicKey" ++ (b'=' ∷ v))
        ≡ from_option (store_public_key (last_peer ctx) (parse_key h v)) (set_last_peer ctx)
    unfolding process_line caseless_eq peer_line caseless_prefix
    public_key_setting =
        rw (d, p)
          (match-miss (codes "PublicKey=" ++ v) (codes "Endpoint=") _ _ refl
            ∙ match-hit (codes "PublicKey=") v _ _ n)

    pub allowedips_setting :
        process_line h fuel ctx (codes "AllowedIPs" ++ (b'=' ∷ v))
        ≡ from_option
            (parse_allowedips h (last_peer ctx) ctx.has_last_allowedip v)
            (set_allowedips ctx)
    unfolding process_line caseless_eq peer_line caseless_prefix
    allowedips_setting =
        rw (d, p)
          (match-miss (codes "AllowedIPs=" ++ v) (codes "Endpoint=") _ _ refl
            ∙ match-miss (codes "AllowedIPs=" ++ v) (codes "PublicKey=") _ _ refl
            ∙ match-hit (codes "AllowedIPs=") v _ _ n)

    pub keepalive_setting :
        process_line h fuel ctx (codes "PersistentKeepalive" ++ (b'=' ∷ v))
        ≡ from_option (parse_persistent_keepalive h (last_peer ctx) v) (set_last_peer ctx)
    unfolding process_line caseless_eq peer_line caseless_prefix
    keepalive_setting =
        let line = codes "PersistentKeepalive=" ++ v in
        rw (d, p)
          (match-miss line (codes "Endpoint=") _ _ refl
            ∙ match-miss line (codes "PublicKey=") _ _ refl
            ∙ match-miss line (codes "AllowedIPs=") _ _ refl
            ∙ match-hit (codes "PersistentKeepalive=") v _ _ n)

    pub preshared_key_setting :
        process_line h fuel ctx (codes "PresharedKey" ++ (b'=' ∷ v))
        ≡ from_option (store_preshared_key (last_peer ctx) (parse_key h v)) (set_last_peer ctx)
    unfolding process_line caseless_eq peer_line caseless_prefix
    preshared_key_setting =
        let line = codes "PresharedKey=" ++ v in
        rw (d, p)
          (match-miss line (codes "Endpoint=") _ _ refl
            ∙ match-miss line (codes "PublicKey=") _ _ refl
            ∙ match-miss line (codes "AllowedIPs=") _ _ refl
            ∙ match-miss line (codes "PersistentKeepalive=") _ _ refl
            ∙ match-hit (codes "PresharedKey=") v _ _ n)
