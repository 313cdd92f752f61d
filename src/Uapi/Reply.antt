-- ===== src/Uapi/Reply.antt =====
-- A reply with lines as `userspace_set_device` writes them, read by `userspace_get_device`.
use wireguard_android_expres.Base.{
  ℕ, ◌+◌, ◌-◌, ◌≤◌, ◌≡◌, ◌≢◌, refl, ◌∙◌, arith, Bool, true, false, ◌==◌, ◌&&◌, some, List, [], ◌∷◌,
  ◌++◌, Bytes, length, All, codes, bytes_eq, split_first, take,
}
use wireguard_android_expres.Encoding.{key_to_hex}
use wireguard_android_expres.Encoding.Hex.{IsByte}
use wireguard_android_expres.Encoding.Hex.RoundTrip.{key_from_hex-key_to_hex}
use wireguard_android_expres.Containers.{
  WgDevice, new_device, wgdevice_has_private_key, wgdevice_has_public_key, wgdevice_has_listen_port,
  wgdevice_has_fwmark,
}
use wireguard_android_expres.Host.{Host}
use wireguard_android_expres.Config.Fields.{has_char}
use wireguard_android_expres.Uapi.Print.{decimal}
use wireguard_android_expres.Uapi.Numbers.{num-decimal}
use wireguard_android_expres.Uapi.Endpoints.{split_first-append}
use wireguard_android_expres.Uapi.Set.{line, minus, eproto, chomp, cut_line}
use wireguard_android_expres.Uapi.Get.{
  GetState, Turn, next, put_private_key, put_listen_port, put_fwmark, put_errno, with_num,
  userspace_get_device, ifnamsiz, get_line, get_device_line, get_loop, finish, num,
}

chomp-append : (v : Bytes) → chomp (v ++ (b'\n' ∷ [])) ≡ some v
unfolding chomp
chomp-append [] = refl
chomp-append (c ∷ []) = refl
chomp-append (c ∷ d ∷ v) = rw (chomp-append (d ∷ v), chomp) refl

-- A line of the protocol is cut into the key and the value it was made of, where the key has no
-- `=`; the value may have any character.
pub cut_line-line :
    (key value : Bytes) → has_char b'=' key ≡ false → cut_line (line key value) ≡ some (key, value)
unfolding cut_line
cut_line-line key value h =
    rw (split_first-append b'=' key (value ++ (b'\n' ∷ [])) h, chomp-append value, cut_line) refl

and-false : (b : Bool) → (b && false) ≡ false
and-false true = refl
and-false false = refl

not_end : (key value : Bytes) → key ≢ [] → bytes_eq (line key value) (b'\n' ∷ []) ≡ false
unfolding bytes_eq
not_end [] value h = absurd (h refl)
not_end (x ∷ []) value h = and-false (x == b'\n')
not_end (x ∷ y ∷ key) value h = and-false (x == b'\n')

no_equals_in_private_key : has_char b'=' (codes "private_key") ≡ false
unfolding has_char split_first
no_equals_in_private_key = refl

no_equals_in_listen_port : has_char b'=' (codes "listen_port") ≡ false
unfolding has_char split_first
no_equals_in_listen_port = refl

no_equals_in_fwmark : has_char b'=' (codes "fwmark") ≡ false
unfolding has_char split_first
no_equals_in_fwmark = refl

no_equals_in_errno : has_char b'=' (codes "errno") ≡ false
unfolding has_char split_first
no_equals_in_errno = refl

module _ (h : Host) (g : Bytes → Bytes) where
  with_num-some :
      (value : Bytes) (limit n : ℕ) (f : ℕ → Turn)
      → num h value limit ≡ some n
      → with_num h value limit f ≡ f n
  with_num-some value limit n f e = rw (with_num, e) refl

  -- One line of a reply, where its turn of the loop goes on.
  turn :
      (st st' : GetState) (key value : Bytes) (ls : List Bytes)
      → key ≢ []
      → has_char b'=' key ≡ false
      → get_line h g st key value ≡ next st'
      → get_loop h g st (line key value ∷ ls) ≡ get_loop h g st' ls
  unfolding get_loop
  turn st st' key value ls n e l =
      rw (not_end key value n, cut_line-line key value e, l, get_loop) refl

  module _ (st : GetState) (no_peer : st.has_peer ≡ false) where
    private_key_turn :
        (key : Bytes)
        → length key ≡ 32
        → All IsByte key
        → get_line h g st (codes "private_key") (key_to_hex key) ≡ put_private_key g st key
    unfolding get_line get_device_line bytes_eq
    private_key_turn key len bytes = rw (no_peer, key_from_hex-key_to_hex key len bytes) refl

    listen_port_turn :
        (port : ℕ)
        → port ≤ 0xffff
        → get_line h g st (codes "listen_port") (decimal port) ≡ put_listen_port st port
    unfolding get_line get_device_line bytes_eq
    listen_port_turn port le =
        rw no_peer
          (with_num-some (decimal port) 0xffff port _ (num-decimal h 0xffff port (omega arith) le))

    fwmark_turn :
        (mark : ℕ)
        → mark ≤ 0xffff_ffff
        → get_line h g st (codes "fwmark") (decimal mark) ≡ put_fwmark st mark
    unfolding get_line get_device_line bytes_eq
    fwmark_turn mark le = rw no_peer (
        with_num-some (decimal mark) 0xffff_ffff mark _
          (num-decimal h 0xffff_ffff mark (omega arith) le))

    errno_turn :
        (n : ℕ) → n ≤ 0x7fff_ffff → get_line h g st (codes "errno") (decimal n) ≡ put_errno st n
    unfolding get_line get_device_line bytes_eq
    errno_turn n le =
        rw no_peer
          (with_num-some (decimal n) 0x7fff_ffff n _ (num-decimal h 0x7fff_ffff n (omega arith) le))

  end_turn : (st : GetState) → get_loop h g st ((b'\n' ∷ []) ∷ []) ≡ finish st.ret st.dev
  unfolding get_loop bytes_eq
  end_turn st = refl

  -- A reply with the private key, the port and the mark as `userspace_set_device` writes them, and
  -- `errno=0`, gives a device with that key, port and mark, the public key that is made from the
  -- private one, the flags of all four, and the interface's name.
  pub userspace_get_device_lines :
      (errno port mark : ℕ) (iface key : Bytes)
      → length key ≡ 32
      → All IsByte key
      → port ≤ 0xffff
      → mark ≤ 0xffff_ffff
      → userspace_get_device h g errno iface (
          some (
            line (codes "private_key") (key_to_hex key)
            ∷ line (codes "listen_port") (decimal port)
            ∷ line (codes "fwmark") (decimal mark)
            ∷ line (codes "errno") (decimal 0)
            ∷ (b'\n' ∷ [])
            ∷ []))
        ≡ record {
          ret = minus 0;
          out = some (record new_device {
            name = take (ifnamsiz - 1) iface;
            private_key = key;
            public_key = g key;
            listen_port = port;
            fwmark = mark;
            flags =
                wgdevice_has_private_key + wgdevice_has_public_key + wgdevice_has_listen_port
                + wgdevice_has_fwmark;
          });
        }
  unfolding userspace_get_device
  userspace_get_device_lines errno port mark iface key len bytes p m =
      let d0 : WgDevice = record new_device { name = take (ifnamsiz - 1) iface } in
      let d1 : WgDevice = record d0 { private_key = key; public_key = g key; flags = 6 } in
      let d2 : WgDevice = record d1 { listen_port = port; flags = 14 } in
      let d3 : WgDevice = record d2 { fwmark = mark; flags = 30 } in
      let at : WgDevice → GetState =
        λ d. record { dev = d; has_peer = false; has_allowedip = false; ret = minus eproto } in
      turn (at d0) (at d1) (codes "private_key") (key_to_hex key) _ (λ e. cc)
        no_equals_in_private_key (private_key_turn (at d0) refl key len bytes)
      ∙ turn (at d1) (at d2) (codes "listen_port") (decimal port) _ (λ e. cc)
          no_equals_in_listen_port (listen_port_turn (at d1) refl port p)
      ∙ turn (at d2) (at d3) (codes "fwmark") (decimal mark) _ (λ e. cc) no_equals_in_fwmark
          (fwmark_turn (at d2) refl mark m)
      ∙ turn (at d3) (record (at d3) { ret = minus 0 }) (codes "errno") (decimal 0) _ (λ e. cc)
          no_equals_in_errno (errno_turn (at d3) refl 0 (omega arith))
      ∙ end_turn (record (at d3) { ret = minus 0 })
