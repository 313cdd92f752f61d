-- ===== src/Config/Valid/Lines.antt =====
-- The lines of the configuration file keep the promises of the context.
use wireguard_android_expres.Base.{
  ℕ, ◌≡◌, refl, sym, ap, ◌∙◌, arith, Bool, true, false, if◌then◌else◌, Option, none, some, List, [],
  ◌∷◌, ◌++◌, Bytes, length, All, All-append, codes, get_last_or, update_last,
}
use wireguard_android_expres.Containers.{
  WgPeer, WgDevice, new_peer, set_flag, wgpeer_replace_allowedips,
}
use wireguard_android_expres.Host.{Host}
use wireguard_android_expres.Config.Fields.{
  get_value, parse_key, parse_port, parse_fwmark, parse_persistent_keepalive,
}
use wireguard_android_expres.Config.AllowedIps.{parse_allowedips}
use wireguard_android_expres.Config.Endpoint.{
  Parsed, ok, err, exited, still_waiting, parse_endpoint,
}
use wireguard_android_expres.Config.Line.{
  ConfigCtx, last_peer, set_last_peer, set_device, set_allowedips, from_option, map_parsed,
  begin_peer, store_private_key, store_public_key, store_preshared_key, key_match, device_line,
  peer_line,
}
use wireguard_android_expres.Config.Number.Digits.{false-ne-true}
use wireguard_android_expres.Config.Valid.{
  OnSome, OnOk, IsPeer, IsDevice, IsValid, HasBytePorts, non_empty,
}
use wireguard_android_expres.Config.Valid.Parsers.{
  Over, With, IsLinkedPeer, parse_key-length, parse_fwmark-Over, parse_port-Over,
  parse_persistent_keepalive-With, parse_allowedips-IsLinkedPeer, non_empty-append,
}

pub key_match_lem {ℓ κ} :
    {A : Type ℓ} (P : A → Type κ) (line key : Bytes) (f : Bytes → A) (otherwise : A)
    → ((v : Bytes) → P (f v))
    → P otherwise
    → P (key_match line key f otherwise)
key_match_lem P line key f otherwise h k = go (get_value line key)
  where
    go : (o : Option Bytes) → P (elim o [ some v ↦ f v | none ↦ otherwise ])
    go none = k
    go (some v) = h v

pub OnOk-from_option {ℓ κ} :
    {A : Type ℓ} {B : Type κ} (P : A → Type 0) (Q : B → Type 0) (o : Option A) (f : A → B)
    → OnSome P o
    → ((a : A) → P a → Q (f a))
    → OnOk Q (from_option o f)
OnOk-from_option P Q none f p h = tt
OnOk-from_option P Q (some a) f p h = h a p

pub OnOk-map_parsed {ℓ κ} :
    {A : Type ℓ} {B : Type κ} (Q : B → Type 0) (o : Parsed A) (f : A → B)
    → ((a : A) → Q (f a))
    → OnOk Q (map_parsed f o)
OnOk-map_parsed Q (ok a) f h = h a
OnOk-map_parsed Q err f h = tt
OnOk-map_parsed Q exited f h = tt
OnOk-map_parsed Q still_waiting f h = tt

-- The last element of a list, changed.
module _ {ℓ} {A : Type ℓ} where
  pub last_update :
      (d p : A) (xs : List A) → non_empty xs ≡ true → get_last_or d (update_last (λ _. p) xs) ≡ p
  last_update d p [] e = absurd (false-ne-true e)
  last_update d p (x ∷ []) e = refl
  last_update d p (x ∷ y ∷ ys) e = last_update x p (y ∷ ys) refl

  pub non_empty-update : (f : A → A) (xs : List A) → non_empty (update_last f xs) ≡ non_empty xs
  non_empty-update f [] = refl
  non_empty-update f (x ∷ []) = refl
  non_empty-update f (x ∷ y ∷ ys) = refl

  pub All-update :
      (P : A → Type 0) (p : A) (xs : List A) → All P xs → P p → All P (update_last (λ _. p) xs)
  All-update P p [] h k = tt
  All-update P p (x ∷ []) h k = (k, tt)
  All-update P p (x ∷ y ∷ ys) h k = (h.0, All-update P p (y ∷ ys) h.1 k)

  pub All-last : (P : A → Type 0) (d : A) (xs : List A) → All P xs → P d → P (get_last_or d xs)
  All-last P d [] h k = k
  All-last P d (x ∷ xs) h k = All-last P x xs h.1 h.0

  last_append : (d p : A) (xs : List A) → get_last_or d (xs ++ (p ∷ [])) ≡ p
  last_append d p [] = refl
  last_append d p (x ∷ xs) = last_append x p xs

-- The peer that the lines of a section change, at the end of the list.
set_last_peer-IsValid :
    (ctx : ConfigCtx) (p : WgPeer) (last : Bool)
    → IsValid ctx
    → ctx.has_last_peer ≡ true
    → IsLinkedPeer (p, last)
    → IsValid (set_allowedips ctx (p, last))
set_last_peer-IsValid ctx p last v e q =
    let peers = ctx.device.peers in
    (
      (v.0.0, v.0.1, v.0.2, All-update IsPeer p peers v.0.3 q.0),
      (
        v.1.0 ∙ sym (non_empty-update (λ _. p) peers),
        q.1
            ∙ ap (λ (t : WgPeer). non_empty t.allowedips)
                (sym (last_update new_peer p peers (sym v.1.0 ∙ e))),
        v.1.2,
      ),
    )

last_peer-IsLinkedPeer :
    (ctx : ConfigCtx) → IsValid ctx → IsLinkedPeer (last_peer ctx, ctx.has_last_allowedip)
last_peer-IsLinkedPeer ctx v =
    (All-last IsPeer new_peer ctx.device.peers v.0.3 (refl, refl, omega arith, tt), v.1.1)

-- A device over the same peers leaves the pointers as they are.
set_device-IsValid :
    (ctx : ConfigCtx) (d : WgDevice)
    → IsValid ctx
    → Over ctx.device.peers d
    → IsValid (set_device ctx d)
set_device-IsValid ctx d v o = (
  o.0,
  (
    v.1.0 ∙ ap (λ (t : List WgPeer). non_empty t) (sym o.1),
    v.1.1 ∙ ap (λ (t : List WgPeer). non_empty (get_last_or new_peer t).allowedips) (sym o.1),
    v.1.2,
  ),
)

-- The list of peers with one more at its end, or as its only one.
pub grown_peers :
    (has : Bool) (peers : List WgPeer) (p : WgPeer)
    → All IsPeer peers
    → IsPeer p
    → (let grown = if has then peers ++ (p ∷ []) else p ∷ [] in
        All IsPeer grown × (true ≡ non_empty grown) × (get_last_or new_peer grown ≡ p))
grown_peers true peers p h k = (
  All-append IsPeer peers (p ∷ []) h (k, tt),
  sym (non_empty-append peers p),
  last_append new_peer p peers,
)
grown_peers false peers p h k = ((k, tt), refl, refl)

pub begin_peer-IsValid : (ctx : ConfigCtx) → IsValid ctx → IsValid (begin_peer ctx)
unfolding begin_peer
begin_peer-IsValid ctx v =
    let p : WgPeer = record new_peer { flags = set_flag 0 wgpeer_replace_allowedips } in
    let a = grown_peers ctx.has_last_peer ctx.device.peers p v.0.3 (refl, refl, omega arith, tt) in
    (
      (v.0.0, v.0.1, v.0.2, a.0),
      (a.1, ap (λ (t : WgPeer). non_empty t.allowedips) (sym a.2), λ e. refl),
    )

store_private_key-Over :
    (dev : WgDevice) (r : Bool × Bytes)
    → IsDevice dev
    → length r.1 ≡ 32
    → OnSome (Over dev.peers) (store_private_key dev r)
store_private_key-Over dev (true, key) d e = ((e, d.1, d.2, d.3), refl)
store_private_key-Over dev (false, key) d e = tt

pub store_public_key-With :
    (peer : WgPeer) (last : Bool) (r : Bool × Bytes)
    → With last peer
    → length r.1 ≡ 32
    → OnSome (With last) (store_public_key peer r)
store_public_key-With peer last (true, key) p e = ((e, p.0.1, p.0.2, p.0.3), p.1)
store_public_key-With peer last (false, key) p e = tt

store_preshared_key-With :
    (peer : WgPeer) (last : Bool) (r : Bool × Bytes)
    → With last peer
    → length r.1 ≡ 32
    → OnSome (With last) (store_preshared_key peer r)
store_preshared_key-With peer last (true, key) p e = ((p.0.0, e, p.0.2, p.0.3), p.1)
store_preshared_key-With peer last (false, key) p e = tt

pub device_line-IsValid :
    (h : Host) (ctx : ConfigCtx) (line : Bytes)
    → HasBytePorts h
    → IsValid ctx
    → OnOk IsValid (device_line h ctx line)
unfolding device_line
device_line-IsValid h ctx line bytes v =
    let dev = ctx.device in
    let put = set_device-IsValid ctx in
    let from = λ (o : Option WgDevice) (p : OnSome (Over dev.peers) o).
      OnOk-from_option (Over dev.peers) IsValid o (set_device ctx) p (λ d q. put d v q) in
    key_match_lem (OnOk IsValid) line (codes "ListenPort=") _ _
      (λ val. from (parse_port h dev val) (parse_port-Over h dev val bytes v.0))
      (key_match_lem (OnOk IsValid) line (codes "FwMark=") _ _
        (λ val. from (parse_fwmark h dev val) (parse_fwmark-Over h dev val v.0))
        (key_match_lem (OnOk IsValid) line (codes "PrivateKey=") _ _
          (λ val.
            from (store_private_key dev (parse_key h val))
              (store_private_key-Over dev (parse_key h val) v.0 (parse_key-length h val)))
          tt))

pub peer_line-IsValid :
    (h : Host) (fuel : ℕ) (ctx : ConfigCtx) (line : Bytes)
    → IsValid ctx
    → ctx.has_last_peer ≡ true
    → OnOk IsValid (peer_line h fuel ctx line)
unfolding peer_line
peer_line-IsValid h fuel ctx line v e =
    let peer = last_peer ctx in
    let last = ctx.has_last_allowedip in
    let linked = last_peer-IsLinkedPeer ctx v in
    let from = λ (o : Option WgPeer) (p : OnSome (With last) o).
      OnOk-from_option (With last) IsValid o (set_last_peer ctx) p
        (λ q l. set_last_peer-IsValid ctx q last v e l) in
    key_match_lem (OnOk IsValid) line (codes "Endpoint=") _ _
      (λ val.
        OnOk-map_parsed IsValid (parse_endpoint h fuel val) _
          (λ a. set_last_peer-IsValid ctx (record peer { endpoint = a }) last v e linked))
      (key_match_lem (OnOk IsValid) line (codes "PublicKey=") _ _
        (λ val.
          from (store_public_key peer (parse_key h val))
            (store_public_key-With peer last (parse_key h val) linked (parse_key-length h val)))
        (key_match_lem (OnOk IsValid) line (codes "AllowedIPs=") _ _
          (λ val.
            OnOk-from_option IsLinkedPeer IsValid (parse_allowedips h peer last val)
              (set_allowedips ctx) (parse_allowedips-IsLinkedPeer h peer last val linked)
              (λ r l. set_last_peer-IsValid ctx r.0 r.1 v e l))
          (key_match_lem (OnOk IsValid) line (codes "PersistentKeepalive=") _ _
            (λ val.
              from (parse_persistent_keepalive h peer val)
                (parse_persistent_keepalive-With h peer last val linked))
            (key_match_lem (OnOk IsValid) line (codes "PresharedKey=") _ _
              (λ val. from (store_preshared_key peer (parse_key h val)) (
                store_preshared_key-With peer last (parse_key h val) linked
                  (parse_key-length h val)))
              tt))))
