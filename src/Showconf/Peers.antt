-- ===== src/Showconf/Peers.antt =====
-- The lines of one peer that showconf prints, read one after the other.
use wireguard_android_expres.Base.{
  ℕ, suc, ◌≤◌, ◌≡◌, refl, ap, ◌∙◌, arith, Bool, true, false, List, [], ◌∷◌, ◌++◌, Bytes, length,
  codes, All, update_last, get_last_or,
}
use wireguard_android_expres.Encoding.{key_to_base64}
use wireguard_android_expres.Encoding.Hex.{IsByte}
use wireguard_android_expres.Encoding.Base64.RoundTrip.{key_from_base64-key_to_base64}
use wireguard_android_expres.Containers.{
  Family, af_unspec, WgAllowedIp, WgPeer, WgDevice, Sockaddr, new_peer, set_flag,
  wgpeer_replace_allowedips, wgpeer_has_public_key, wgpeer_has_preshared_key,
}
use wireguard_android_expres.Host.{Host}
use wireguard_android_expres.Config.Fields.{parse_key, set_keepalive}
use wireguard_android_expres.Config.Endpoint.{parse_endpoint, Parsed, ok}
use wireguard_android_expres.Config.AllowedIps.{parse_allowedips}
use wireguard_android_expres.Config.Line.{
  set_allowedips, ConfigCtx, last_peer, set_last_peer, config_read_line, from_option,
  store_public_key, store_preshared_key, map_parsed,
}
use wireguard_android_expres.Config.Valid.{non_empty}
use wireguard_android_expres.Uapi.Print.{decimal, Names}
use wireguard_android_expres.Showconf.{setting, show_allowedips}
use wireguard_android_expres.Showconf.Text.{IsClean, IsClean-IsPlain, strip_clean, read_setting}
use wireguard_android_expres.Showconf.Values.{
  key_to_base64-IsClean, key_to_base64-non_empty, decimal-IsClean, decimal-non_empty,
  parse_keepalive-printed,
}
use wireguard_android_expres.Showconf.Keys.{
  endpoint_setting, public_key_setting, allowedips_setting, keepalive_setting,
  preshared_key_setting,
}
use wireguard_android_expres.Showconf.Endpoints.{IsNamed, IsReading}
use wireguard_android_expres.Showconf.Entries.{IsPrinted, texts}
use wireguard_android_expres.Showconf.Lists.{
  joined, show-IsPlain, strip-show, joined-non_empty, parse_allowedips-printed,
}

-- The reader's state at a peer `q` behind the peers `ps`.
abbrev pub at_peer : WgDevice → List WgPeer → WgPeer → Bool → ConfigCtx
at_peer dev ps q last = record {
  device = record dev { peers = ps ++ (q ∷ []) };
  has_last_peer = true;
  has_last_allowedip = last;
  is_peer_section = true;
  is_device_section = false;
}

last_peer-at : (ps : List WgPeer) (d q : WgPeer) → get_last_or d (ps ++ (q ∷ [])) ≡ q
last_peer-at [] d q = refl
last_peer-at (p ∷ ps) d q = last_peer-at ps p q

update_last-at :
    (ps : List WgPeer) (q r : WgPeer) → update_last (λ _. r) (ps ++ (q ∷ [])) ≡ ps ++ (r ∷ [])
update_last-at [] q r = refl
update_last-at (p ∷ []) q r = refl
update_last-at (p ∷ s ∷ ps) q r = ap (◌∷◌ p) (update_last-at (s ∷ ps) q r)

set_last_peer-at :
    (dev : WgDevice) (ps : List WgPeer) (q r : WgPeer) (last : Bool)
    → set_last_peer (at_peer dev ps q last) r ≡ at_peer dev ps r last
set_last_peer-at dev ps q r last =
    ap (λ l. record (at_peer dev ps q last) { device = record dev { peers = l } })
      (update_last-at ps q r)

abbrev pub start_peer : WgPeer
start_peer = record new_peer { flags = set_flag 0 wgpeer_replace_allowedips }

pub parse_key-printed :
    (h : Host) (k : Bytes)
    → length k ≡ 32
    → All IsByte k
    → parse_key h (key_to_base64 k) ≡ (true, k)
unfolding parse_key
parse_key-printed h k l b = rw (key_from_base64-key_to_base64 h.signed_char k l b, parse_key) refl

abbrev pub IsNamedBy : Host → Names → Sockaddr → Family → Type 0
IsNamedBy h n e af_unspec = Unit
IsNamedBy h n e _ = IsNamed h n e

-- A peer whose keys have 32 bytes, whose numbers fit, and whose addresses the C library prints and
-- reads back.
abbrev pub IsShown : Host → Names → WgPeer → Type 0
IsShown h n p =
    ((length p.public_key ≡ 32) × All IsByte p.public_key)
    × ((length p.preshared_key ≡ 32) × All IsByte p.preshared_key)
    × (p.persistent_keepalive_interval ≤ 65535)
    × All (IsPrinted h n) p.allowedips
    × IsNamedBy h n p.endpoint p.endpoint.sa_family

module _ (h : Host) (fuel : ℕ) (dev : WgDevice) (ps : List WgPeer) (q : WgPeer) (last : Bool) where
  set_lem :
      (f : WgPeer → WgPeer)
      → ok (set_last_peer (at_peer dev ps q last) (f (last_peer (at_peer dev ps q last))))
        ≡ ok (at_peer dev ps (f q) last)
  set_lem f =
      ap (λ r. ok (set_last_peer (at_peer dev ps q last) (f r))) (last_peer-at ps new_peer q)
      ∙ ap ok (set_last_peer-at dev ps q (f q) last)

  pub read_public_key :
      (k : Bytes)
      → length k ≡ 32
      → All IsByte k
      → config_read_line h fuel
          (at_peer dev ps q last)
          (setting (codes "PublicKey") (key_to_base64 k))
        ≡ ok (
            at_peer dev ps
              (record q { public_key = k; flags = set_flag q.flags wgpeer_has_public_key })
              last)
  read_public_key k l b =
      let c = key_to_base64-IsClean k l in
      read_setting h fuel (at_peer dev ps q last) (codes "PublicKey") (key_to_base64 k)
        (key_to_base64 k) refl (IsClean-IsPlain (key_to_base64 k) c)
        (strip_clean h.signed_char (key_to_base64 k) c)
      ∙ public_key_setting h fuel (at_peer dev ps q last) (key_to_base64 k)
          (key_to_base64-non_empty k l) refl refl
      ∙ ap
          (λ r.
            from_option (store_public_key (last_peer (at_peer dev ps q last)) r)
              (set_last_peer (at_peer dev ps q last)))
          (parse_key-printed h k l b)
      ∙ set_lem (λ p. record p { public_key = k; flags = set_flag p.flags wgpeer_has_public_key })

  pub read_preshared_key :
      (k : Bytes)
      → length k ≡ 32
      → All IsByte k
      → config_read_line h fuel
          (at_peer dev ps q last)
          (setting (codes "PresharedKey") (key_to_base64 k))
        ≡ ok (
            at_peer dev ps
              (record q { preshared_key = k; flags = set_flag q.flags wgpeer_has_preshared_key })
              last)
  read_preshared_key k l b =
      let c = key_to_base64-IsClean k l in
      read_setting h fuel (at_peer dev ps q last) (codes "PresharedKey") (key_to_base64 k)
        (key_to_base64 k) refl (IsClean-IsPlain (key_to_base64 k) c)
        (strip_clean h.signed_char (key_to_base64 k) c)
      ∙ preshared_key_setting h fuel (at_peer dev ps q last) (key_to_base64 k)
          (key_to_base64-non_empty k l) refl refl
      ∙ ap
          (λ r.
            from_option (store_preshared_key (last_peer (at_peer dev ps q last)) r)
              (set_last_peer (at_peer dev ps q last)))
          (parse_key-printed h k l b)
      ∙ set_lem
          (λ p. record p { preshared_key = k; flags = set_flag p.flags wgpeer_has_preshared_key })

  pub read_keepalive :
      (k : ℕ)
      → IsReading h
      → k ≤ 65535
      → config_read_line h fuel
          (at_peer dev ps q last)
          (setting (codes "PersistentKeepalive") (decimal k))
        ≡ ok (at_peer dev ps (set_keepalive q k) last)
  read_keepalive k r le =
      let c = decimal-IsClean k in
      read_setting h fuel (at_peer dev ps q last) (codes "PersistentKeepalive") (decimal k)
        (decimal k) refl (IsClean-IsPlain (decimal k) c) (strip_clean h.signed_char (decimal k) c)
      ∙ keepalive_setting h fuel (at_peer dev ps q last) (decimal k) (decimal-non_empty k) refl refl
      ∙ ap (λ r. from_option r (set_last_peer (at_peer dev ps q last)))
          (parse_keepalive-printed h (last_peer (at_peer dev ps q last)) k (omega (arith, r.0)) le)
      ∙ set_lem (λ p. set_keepalive p k)

  pub read_allowedips :
      (n : Names) (ips : List WgAllowedIp) (p : All (IsPrinted h n) ips)
      → IsReading h
      → non_empty ips ≡ true
      → last ≡ false
      → config_read_line h fuel
          (at_peer dev ps q last)
          (setting (codes "AllowedIPs") (show_allowedips n ips))
        ≡ ok (
            at_peer dev ps
              (record q { flags = set_flag q.flags wgpeer_replace_allowedips; allowedips = ips })
              true)
  read_allowedips n ips p r e l =
      let value = joined (texts h n ips p) in
      read_setting h fuel (at_peer dev ps q last) (codes "AllowedIPs") (show_allowedips n ips) value
        refl (show-IsPlain h n ips p) (strip-show h n h.signed_char ips p)
      ∙ allowedips_setting h fuel (at_peer dev ps q last) value (joined-non_empty h n ips p e) refl
          refl
      ∙ ap
          (λ b.
            from_option (parse_allowedips h (last_peer (at_peer dev ps q last)) b value)
              (set_allowedips (at_peer dev ps q last)))
          l
      ∙ ap (λ r. from_option r (set_allowedips (at_peer dev ps q last)))
          (parse_allowedips-printed h n ips p (last_peer (at_peer dev ps q last))
            (omega (arith, r.0)) e)
      ∙ ap linked
          (ap put_filled (last_peer-at ps new_peer q) ∙ set_last_peer-at dev ps q (filled q) last)
    where
      linked : ConfigCtx → Parsed ConfigCtx
      linked c = ok (record c { has_last_allowedip = true })

      filled : WgPeer → WgPeer
      filled r = record r { flags = set_flag r.flags wgpeer_replace_allowedips; allowedips = ips }

      put_filled : WgPeer → ConfigCtx
      put_filled r = set_last_peer (at_peer dev ps q last) (filled r)

  pub read_endpoint :
      (e : Sockaddr) (fuel' : ℕ) (t : Bytes)
      → fuel ≡ suc fuel'
      → All IsClean t
      → non_empty t ≡ true
      → parse_endpoint h (suc fuel') t ≡ ok e
      → config_read_line h fuel (at_peer dev ps q last) (setting (codes "Endpoint") t)
        ≡ ok (at_peer dev ps (record q { endpoint = e }) last)
  read_endpoint e fuel' t f c ne p =
      read_setting h fuel (at_peer dev ps q last) (codes "Endpoint") t t refl (IsClean-IsPlain t c)
        (strip_clean h.signed_char t c)
      ∙ endpoint_setting h fuel (at_peer dev ps q last) t ne refl refl
      ∙ ap
          (map_parsed (λ x.
            set_last_peer (at_peer dev ps q last)
              (record (last_peer (at_peer dev ps q last)) { endpoint = x })))
          (ap (λ k. parse_endpoint h k t) f ∙ p)
      ∙ set_lem (λ p. record p { endpoint = e })
