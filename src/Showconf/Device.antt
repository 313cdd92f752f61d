-- ===== src/Showconf/Device.antt =====
-- The `[Interface]` section that showconf prints, read line by line.
use wireguard_android_expres.Base.{
  ℕ, ◌≤◌, ◌≡◌, refl, sym, ap, ap₂, ◌∙◌, arith, subst, Bool, true, false, not, ◌==◌, if◌then◌else◌,
  some, [], ◌∷◌, Bytes, length, codes, All,
}
use wireguard_android_expres.Encoding.{key_to_base64}
use wireguard_android_expres.Encoding.Hex.{IsByte}
use wireguard_android_expres.Containers.{
  WgDevice, zero_key, set_flag, wgdevice_has_private_key, wgdevice_has_fwmark,
  wgdevice_has_listen_port,
}
use wireguard_android_expres.Host.{Host, Addrinfo, found}
use wireguard_android_expres.Config.Fields.{is_inet_addr, port_of, parse_port}
use wireguard_android_expres.Config.Endpoint.{ok}
use wireguard_android_expres.Config.Line.{
  ConfigCtx, config_read_line, from_option, set_device, store_private_key,
}
use wireguard_android_expres.Config.Valid.{non_empty}
use wireguard_android_expres.Config.Number.Digits.{false-ne-true}
use wireguard_android_expres.Uapi.Print.{decimal}
use wireguard_android_expres.Showconf.{setting, when_line, hexadecimal}
use wireguard_android_expres.Showconf.Text.{
  IsClean-IsPlain, strip_clean, read_setting, Leads, Leads-one,
}
use wireguard_android_expres.Showconf.Values.{
  key_to_base64-IsClean, key_to_base64-non_empty, decimal-IsClean, decimal-non_empty, mark-IsClean,
  parse_fwmark-printed,
}
use wireguard_android_expres.Showconf.Keys.{port_setting, mark_setting, private_key_setting}
use wireguard_android_expres.Showconf.Endpoints.{IsReading}
use wireguard_android_expres.Showconf.Peers.{parse_key-printed}

-- The reader's state in the section of the device, before any peer.
abbrev pub at_device : WgDevice → ConfigCtx
at_device dev = record {
  device = dev;
  has_last_peer = false;
  has_last_allowedip = false;
  is_peer_section = false;
  is_device_section = true;
}

-- What is asked of `getaddrinfo(NULL, port, …)`: an address of the internet with that port.
abbrev pub IsPort : Host → ℕ → Type 0
IsPort h port =
    (a : Addrinfo) × (h.getaddrinfo_port (decimal port) ≡ found a)
    × (is_inet_addr a ≡ true)
    × (port_of a.ai_addr ≡ port)

length-decimal : (t : Bytes) → non_empty t ≡ true → (length t == 0) ≡ false
length-decimal [] e = sym e
length-decimal (c ∷ t) e = ground arith

parse_port-printed :
    (h : Host) (d : WgDevice) (port : ℕ)
    → IsPort h port
    → set_flag d.flags wgdevice_has_listen_port ≡ d.flags
    → parse_port h d (decimal port) ≡ some (record d { listen_port = port })
unfolding parse_port
parse_port-printed h d port p f =
    rw (length-decimal (decimal port) (decimal-non_empty port), p.1, p.2)
      (ap₂ (λ x y. some (record d { listen_port = x; flags = y })) p.3 f)

module _ (h : Host) (fuel : ℕ) (d : WgDevice) where
  optional :
      (b : Bool) (d' : WgDevice) (l : Bytes)
      → (b ≡ true → config_read_line h fuel (at_device d) l ≡ ok (at_device d'))
      → (b ≡ false → d ≡ d')
      → Leads h fuel (at_device d) (when_line b l) (at_device d')
  optional true d' l t e = Leads-one h fuel (at_device d) (at_device d') l (t refl)
  optional false d' l t e =
      subst (λ x. Leads h fuel (at_device d) [] (at_device x)) (e refl) (λ ms. refl)

  pub port_Leads :
      (port : ℕ)
      → IsPort h port
      → set_flag d.flags wgdevice_has_listen_port ≡ d.flags
      → d.listen_port ≡ 0
      → Leads h fuel
          (at_device d)
          (when_line (not (port == 0)) (setting (codes "ListenPort") (decimal port)))
          (at_device (record d { listen_port = port }))
  port_Leads port p f z =
      let c = decimal-IsClean port in
      optional (not (port == 0)) (record d { listen_port = port }) _
        (λ _.
          read_setting h fuel (at_device d) (codes "ListenPort") (decimal port) (decimal port) refl
            (IsClean-IsPlain (decimal port) c) (strip_clean h.signed_char (decimal port) c)
          ∙ port_setting h fuel (at_device d) (decimal port) (decimal-non_empty port) refl
          ∙ ap (λ r. from_option r (set_device (at_device d))) (parse_port-printed h d port p f))
        (λ e. ap (λ x. record d { listen_port = x }) (z ∙ ground (arith, e)))

  pub mark_Leads :
      (mark : ℕ)
      → IsReading h
      → mark ≤ 0xffff_ffff
      → set_flag d.flags wgdevice_has_fwmark ≡ d.flags
      → d.fwmark ≡ 0
      → Leads h fuel
          (at_device d)
          (when_line (not (mark == 0)) (setting (codes "FwMark") (b'0' ∷ b'x' ∷ hexadecimal mark)))
          (at_device (record d { fwmark = mark }))
  mark_Leads mark r le f z =
      let text = b'0' ∷ b'x' ∷ hexadecimal mark in
      let c = mark-IsClean mark in
      optional (not (mark == 0)) (record d { fwmark = mark }) _
        (λ _.
          read_setting h fuel (at_device d) (codes "FwMark") text text refl (IsClean-IsPlain text c)
            (strip_clean h.signed_char text c)
          ∙ mark_setting h fuel (at_device d) text refl refl
          ∙ ap (λ r. from_option r (set_device (at_device d)))
              (parse_fwmark-printed h d mark r.0 le)
          ∙ ap (λ x. ok (at_device (record d { fwmark = mark; flags = x }))) f)
        (λ e. ap (λ x. record d { fwmark = x }) (z ∙ ground (arith, e)))

  pub private_key_Leads :
      (b : Bool) (k : Bytes)
      → length k ≡ 32
      → All IsByte k
      → set_flag d.flags wgdevice_has_private_key ≡ d.flags
      → d.private_key ≡ zero_key
      → Leads h fuel
          (at_device d)
          (when_line b (setting (codes "PrivateKey") (key_to_base64 k)))
          (at_device (record d { private_key = if b then k else zero_key }))
  private_key_Leads true k l a f z =
      let c = key_to_base64-IsClean k l in
      optional true (record d { private_key = k }) _
        (λ _.
          read_setting h fuel (at_device d) (codes "PrivateKey") (key_to_base64 k) (key_to_base64 k)
            refl (IsClean-IsPlain (key_to_base64 k) c)
            (strip_clean h.signed_char (key_to_base64 k) c)
          ∙ private_key_setting h fuel (at_device d) (key_to_base64 k) (key_to_base64-non_empty k l)
              refl
          ∙ ap (λ r. from_option (store_private_key d r) (set_device (at_device d)))
              (parse_key-printed h k l a)
          ∙ ap (λ x. ok (at_device (record d { private_key = k; flags = x }))) f)
        (λ e. ap (λ x. record d { private_key = x }) (absurd (false-ne-true (sym e))))
  private_key_Leads false k l a f z =
      optional false (record d { private_key = zero_key }) [] (λ e. absurd (false-ne-true e))
        (λ _. ap (λ x. record d { private_key = x }) z)
