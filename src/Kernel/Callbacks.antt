-- ===== src/Kernel/Callbacks.antt =====
-- The callbacks of kernel_get_device, and the function as a whole, keep what is promised.
use wireguard_android_expres.Base.{
  ℕ, suc, ◌≤◌, ◌<◌, ◌≡◌, ◌^◌, refl, subst, arith, true, ◌==◌, ==_iff, leb, ltb, if◌then◌else◌, List,
  [], ◌∷◌, Bytes, length, take, All-append, ◌||◌,
}
use wireguard_android_expres.Containers.{
  Family, af_unspec, af_inet, af_inet6, WgAllowedIp, WgPeer, WgDevice, has_flag, new_peer,
  new_device, wgpeer_has_public_key,
}
use wireguard_android_expres.Config.Valid.{either}
use wireguard_android_expres.Uapi.Get.{ifnamsiz}
use wireguard_android_expres.Kernel.Get.{
  Attr, Reader, Cb, cb_error, cb_stop, cb_ok, mnl_attr_parse, has_bytes, family_of, parse_allowedip,
  allowedip_cb, new_allowedip, view, parse_allowedips, parse_sockaddr, parse_peer_value, parse_peer,
  check_peer, parse_peers, parse_device_value, parse_device,
}
use wireguard_android_expres.Kernel.Device.{
  Attempt, not_opened, not_sent, not_received, received, read_messages, error_or, try_again,
  kernel_get_device, einval,
}
use wireguard_android_expres.Kernel.Valid.{
  IsGo, IsReader, IsKernelPeer, IsKernelDevice, Runs, parse-Runs, Good, go_on-Good, parse-Good,
  check_entry-IsGo, check_peer-Good, OnRetrieved, retry-OnRetrieved, read_end-OnRetrieved,
  new-IsKernelDevice,
}

module _ (r : Reader) (reads : IsReader r) where
  number-le :
      (n bound : ℕ) (a : Attr)
      → has_bytes n a ≡ true
      → 256 ^ n ≤ suc bound
      → r.number a.payload ≤ bound
  number-le n bound a e le =
      let same : length a.payload ≡ n = (==_iff (length a.payload) n).0 e in
      let s = subst (λ k. r.number a.payload < 256 ^ k) same (reads a.payload) in
      omega (arith, s, le)

  allowedip-le : (at : Attr) (a : WgAllowedIp) → a.cidr ≤ 255 → (parse_allowedip r at a).cidr ≤ 255
  unfolding parse_allowedip
  allowedip-le at a v =
      let P = λ (x : WgAllowedIp). x.cidr ≤ 255 in
      either P (at.nla_type == 1) _ _ (λ _. either P (has_bytes 2 at) _ _ (λ _. v) (λ _. v))
        (λ _.
          either P (at.nla_type == 2) _ _
            (λ _. either P (has_bytes 4 at || has_bytes 16 at) _ _ (λ _. v) (λ _. v))
            (λ _.
              either P (at.nla_type == 3) _ _
                (λ _.
                  either P (has_bytes 1 at) _ _ (λ e. number-le 1 255 at e (omega arith)) (λ _. v))
                (λ _. v)))

  allowedips-Runs :
      (at : Attr) (p : WgPeer) → IsKernelPeer p → Runs IsKernelPeer (parse_allowedips r at p)
  unfolding parse_allowedips
  allowedips-Runs at p v =
      let a = mnl_attr_parse (allowedip_cb r) (r.nested at.payload) new_allowedip in
      let w =
        parse-Runs (λ x. x.cidr ≤ 255) (allowedip_cb r) (r.nested at.payload) new_allowedip
          (λ at' x q. (tt, allowedip-le at' x q)) (omega arith) in
      (
        check_entry-IsGo a w.0,
        (
          v.0,
          v.1,
          v.2,
          All-append (λ x. x.cidr ≤ 255) p.allowedips (view (a.1) ∷ []) v.3 (w.1, tt),
        ),
      )

  parse_sockaddr-IsKernelPeer :
      (f : Family) (bytes : Bytes) (p : WgPeer)
      → IsKernelPeer p
      → IsKernelPeer (parse_sockaddr f bytes p)
  parse_sockaddr-IsKernelPeer af_unspec bytes p v = v
  parse_sockaddr-IsKernelPeer af_inet bytes p v =
      either IsKernelPeer (length bytes == 16) _ _ (λ _. v) (λ _. v)
  parse_sockaddr-IsKernelPeer af_inet6 bytes p v =
      either IsKernelPeer (length bytes == 28) _ _ (λ _. v) (λ _. v)

  peer_value-IsKernelPeer :
      (at : Attr) (p : WgPeer) → IsKernelPeer p → IsKernelPeer (parse_peer_value r at p)
  unfolding parse_peer_value
  peer_value-IsKernelPeer at p v =
      let P = IsKernelPeer in
      let keep =
        λ (n : ℕ) (x : WgPeer) (q : P x). either P (has_bytes n at) x p (λ _. q) (λ _. v) in
      either P (at.nla_type == 1) _ _
        (λ _.
          either P (has_bytes 32 at) _ _ (λ e. ((==_iff (length at.payload) 32).0 e, v.1, v.2, v.3))
            (λ _. v))
        (λ _.
          either P (at.nla_type == 2) _ _
            (λ _.
              either P (has_bytes 32 at) _ _
                (λ e. (v.0, (==_iff (length at.payload) 32).0 e, v.2, v.3)) (λ _. v))
            (λ _.
              either P (at.nla_type == 4) _ _
                (λ _.
                  either P (ltb (length at.payload) 16) _ _ (λ _. v)
                    (λ _.
                      parse_sockaddr-IsKernelPeer (family_of (r.number (take 2 at.payload)))
                        at.payload p v))
                (λ _.
                  either P (at.nla_type == 5) _ _
                    (λ _.
                      either P (has_bytes 2 at) _ _
                        (λ e. (v.0, v.1, number-le 2 65535 at e (omega arith), v.3)) (λ _. v))
                    (λ _.
                      either P (at.nla_type == 6) _ _
                        (λ _. either P (has_bytes 16 at) _ _ (λ _. v) (λ _. v))
                        (λ _.
                          either P (at.nla_type == 7) _ _
                            (λ _. either P (has_bytes 8 at) _ _ (λ _. v) (λ _. v))
                            (λ _.
                              either P (at.nla_type == 8) _ _
                                (λ _. either P (has_bytes 8 at) _ _ (λ _. v) (λ _. v))
                                (λ _. v)))))))

  peer-Runs : (at : Attr) (p : WgPeer) → IsKernelPeer p → Runs IsKernelPeer (parse_peer r at p)
  unfolding parse_peer
  peer-Runs at p v =
      either (Runs IsKernelPeer) (at.nla_type == 9) _ _
        (λ _.
          parse-Runs IsKernelPeer (parse_allowedips r) (r.nested at.payload) p allowedips-Runs v)
        (λ _. (tt, peer_value-IsKernelPeer at p v))

  peers-Good : (at : Attr) (d : WgDevice) → IsKernelDevice d → Good (parse_peers r at d)
  unfolding parse_peers
  peers-Good at d v =
      let res = mnl_attr_parse (parse_peer r) (r.nested at.payload) new_peer in
      check_peer-Good res d
        (parse-Runs IsKernelPeer (parse_peer r) (r.nested at.payload) new_peer peer-Runs
          (refl, refl, omega arith, tt))
        v

  peers_ret :
      (x : Cb × WgPeer)
      → IsGo (x.0)
      → check_peer x ≡ (if has_flag (x.1).flags wgpeer_has_public_key then cb_ok else cb_error)
  peers_ret (cb_stop, p) v = absurd v
  peers_ret (cb_error, p) v = refl
  peers_ret (cb_ok, p) v = refl

  -- What parse_peers answers depends on the peer's public key alone: an error that the callbacks of
  -- the peer's attributes report, of an entry with a wrong prefix length for one, is lost.
  pub parse_peers-lost :
      (at : Attr) (d : WgDevice)
      → (parse_peers r at d).0 ≡ (
          if has_flag
            (mnl_attr_parse (parse_peer r) (r.nested at.payload) new_peer).1.flags
            wgpeer_has_public_key
          then cb_ok
          else cb_error)
  unfolding parse_peers
  parse_peers-lost at d =
      peers_ret (mnl_attr_parse (parse_peer r) (r.nested at.payload) new_peer)
        (parse-Runs IsKernelPeer (parse_peer r) (r.nested at.payload) new_peer peer-Runs
          (refl, refl, omega arith, tt)).0

  device_value-IsKernelDevice :
      (at : Attr) (d : WgDevice) → IsKernelDevice d → IsKernelDevice (parse_device_value r at d)
  unfolding parse_device_value
  device_value-IsKernelDevice at d v =
      let P = IsKernelDevice in
      either P (at.nla_type == 1) _ _ (λ _. either P (has_bytes 4 at) _ _ (λ _. v) (λ _. v))
        (λ _.
          either P (at.nla_type == 2) _ _
            (λ _. either P (length at.payload == 0) _ _ (λ _. v) (λ _. v))
            (λ _.
              either P (at.nla_type == 3) _ _
                (λ _.
                  either P (has_bytes 32 at) _ _
                    (λ e. ((==_iff (length at.payload) 32).0 e, v.1, v.2, v.3)) (λ _. v))
                (λ _.
                  either P (at.nla_type == 4) _ _
                    (λ _. either P (has_bytes 32 at) _ _ (λ _. v) (λ _. v))
                    (λ _.
                      either P (at.nla_type == 6) _ _
                        (λ _.
                          either P (has_bytes 2 at) _ _
                            (λ e. (v.0, v.1, number-le 2 65535 at e (omega arith), v.3)) (λ _. v))
                        (λ _.
                          either P (at.nla_type == 7) _ _
                            (λ _.
                              either P (has_bytes 4 at) _ _
                                (λ e. (v.0, number-le 4 0xffff_ffff at e (omega arith), v.2, v.3))
                                (λ _. v))
                            (λ _. v))))))

  device-Good : (at : Attr) (d : WgDevice) → IsKernelDevice d → Good (parse_device r at d)
  unfolding parse_device
  device-Good at d v =
      either Good (at.nla_type == 8) _ _
        (λ _. parse-Good (parse_peers r) (r.nested at.payload) d peers-Good v)
        (λ _. device_value-IsKernelDevice at d v)

  messages-Good :
      (msgs : List (List Attr)) (d : WgDevice) → IsKernelDevice d → Good (read_messages r msgs d)
  unfolding read_messages
  messages-Good [] d v = v
  messages-Good (msg ∷ msgs) d v =
      go_on-Good (mnl_attr_parse (parse_device r) msg d) (λ x. read_messages r msgs x)
        (parse-Good (parse_device r) msg d device-Good v) (λ x w. messages-Good msgs x w)

  try_again-OnRetrieved :
      (attempts : List Attempt) → OnRetrieved IsKernelDevice (try_again r attempts)
  unfolding try_again
  try_again-OnRetrieved [] = tt
  try_again-OnRetrieved (not_opened errno ∷ rest) = tt
  try_again-OnRetrieved (not_sent errno ∷ rest) =
      either (OnRetrieved IsKernelDevice) (errno == 0) _ _ (λ _. new-IsKernelDevice)
        (λ _. retry-OnRetrieved errno (try_again r rest) (try_again-OnRetrieved rest))
  try_again-OnRetrieved (not_received errno ∷ rest) =
      retry-OnRetrieved (error_or errno einval) (try_again r rest) (try_again-OnRetrieved rest)
  try_again-OnRetrieved (received errno msgs ∷ rest) =
      read_end-OnRetrieved errno (read_messages r msgs new_device) (try_again r rest)
        (messages-Good msgs new_device new-IsKernelDevice) (try_again-OnRetrieved rest)

  -- Whatever the kernel answers, a device that kernel_get_device gives has keys of 32 bytes, a mark,
  -- a port, intervals and prefix lengths that fit their types, and a public key for each peer,
  -- where a number of n bytes is below 256 ^ n.
  pub kernel_get_device-IsKernelDevice :
      (attempts : List Attempt) (iface : Bytes)
      → OnRetrieved IsKernelDevice (kernel_get_device r attempts iface)
  unfolding kernel_get_device
  kernel_get_device-IsKernelDevice attempts iface =
      either (OnRetrieved IsKernelDevice) (leb ifnamsiz (length iface)) _ _ (λ _. tt)
        (λ _. try_again-OnRetrieved attempts)
