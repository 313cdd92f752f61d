-- ===== src/Uapi/Valid/Loop.antt =====
-- The loop of `userspace_get_device` over the lines of a reply.
use wireguard_android_expres.Base.{
  ℕ, ◌≡◌, refl, arith, true, Option, none, some, List, [], ◌∷◌, Bytes, codes, bytes_eq,
}
use wireguard_android_expres.Containers.{WgPeer, WgDevice}
use wireguard_android_expres.Host.{Host}
use wireguard_android_expres.Config.Valid.{OnSome, either, IsDevice}
use wireguard_android_expres.Uapi.Set.{Ret, minus, eproto, cut_line}
use wireguard_android_expres.Uapi.Get.{
  GetState, Turn, next, broken, goto_err, with_num, put_private_key, put_listen_port, put_fwmark,
  put_keepalive, put_sec, put_nsec, put_rx, put_tx, put_errno, get_device_line, get_peer_line,
  get_line, is_zero, Got, finish, get_loop, userspace_get_device,
}
use wireguard_android_expres.Uapi.Valid.{
  IsGet, OnNext, with_key_lem, with_num_lem, put_last-IsGet, get_peer-IsLinkedPeer,
}
use wireguard_android_expres.Config.Valid.Parsers.{IsLinkedPeer}
use wireguard_android_expres.Uapi.Valid.Lines.{
  public_key-IsGet, preshared_key-IsGet, endpoint-IsGet, allowed_ip-IsGet,
}

device_line-IsGet :
    (h : Host) (g : Bytes → Bytes) (st : GetState) (key value : Bytes) (otherwise : Turn)
    → IsGet st
    → OnNext IsGet otherwise
    → OnNext IsGet (get_device_line h g st key value otherwise)
unfolding get_device_line
device_line-IsGet h g st key value otherwise v o =
    let P = OnNext IsGet in
    either P (bytes_eq key (codes "private_key")) _ _
      (λ _.
        with_key_lem IsGet value (put_private_key g st)
          (λ k len. ((len, v.0.1, v.0.2, v.0.3), v.1, v.2)))
      (λ _.
        either P (bytes_eq key (codes "listen_port")) _ _
          (λ _.
            with_num_lem IsGet h value 0xffff (put_listen_port st)
              (λ n le. ((v.0.0, v.0.1, le, v.0.3), v.1, v.2)))
          (λ _.
            either P (bytes_eq key (codes "fwmark")) _ _
              (λ _.
                with_num_lem IsGet h value 0xffff_ffff (put_fwmark st)
                  (λ n le. ((v.0.0, le, v.0.2, v.0.3), v.1, v.2)))
              (λ _. o)))

peer_line-IsGet :
    (h : Host) (st : GetState) (key value : Bytes) (otherwise : Turn)
    → IsGet st
    → st.has_peer ≡ true
    → OnNext IsGet otherwise
    → OnNext IsGet (get_peer_line h st key value otherwise)
unfolding get_peer_line
peer_line-IsGet h st key value otherwise v e o =
    let P = OnNext IsGet in
    let l = get_peer-IsLinkedPeer st v in
    let keep = λ (p : WgPeer) (q : IsLinkedPeer (p, st.has_allowedip)).
      put_last-IsGet st p st.has_allowedip v e q in
    either P (bytes_eq key (codes "preshared_key")) _ _ (λ _. preshared_key-IsGet st value v e)
      (λ _.
        either P (bytes_eq key (codes "endpoint")) _ _ (λ _. endpoint-IsGet h st value v e)
          (λ _.
            either P (bytes_eq key (codes "persistent_keepalive_interval")) _ _
              (λ _.
                with_num_lem IsGet h value 0xffff (put_keepalive st)
                  (λ n le. keep _ ((l.0.0, l.0.1, le, l.0.3), l.1)))
              (λ _.
                either P (bytes_eq key (codes "allowed_ip")) _ _
                  (λ _. allowed_ip-IsGet h st value v e)
                  (λ _.
                    either P (bytes_eq key (codes "last_handshake_time_sec")) _ _
                      (λ _.
                        with_num_lem IsGet h value 0x7fff_ffff_ffff_ffff (put_sec st)
                          (λ n le. keep _ l))
                      (λ _.
                        either P (bytes_eq key (codes "last_handshake_time_nsec")) _ _
                          (λ _.
                            with_num_lem IsGet h value 0x7fff_ffff_ffff_ffff (put_nsec st)
                              (λ n le. keep _ l))
                          (λ _.
                            either P (bytes_eq key (codes "rx_bytes")) _ _
                              (λ _.
                                with_num_lem IsGet h value 0xffff_ffff_ffff_ffff (put_rx st)
                                  (λ n le. keep _ l))
                              (λ _.
                                either P (bytes_eq key (codes "tx_bytes")) _ _
                                  (λ _.
                                    with_num_lem IsGet h value 0xffff_ffff_ffff_ffff (put_tx st)
                                      (λ n le. keep _ l))
                                  (λ _. o))))))))

line-IsGet :
    (h : Host) (g : Bytes → Bytes) (st : GetState) (key value : Bytes)
    → IsGet st
    → OnNext IsGet (get_line h g st key value)
unfolding get_line
line-IsGet h g st key value v =
    let P = OnNext IsGet in
    let last =
      either P (bytes_eq key (codes "errno")) (with_num h value 0x7fff_ffff (put_errno st))
        (next st) (λ _. with_num_lem IsGet h value 0x7fff_ffff (put_errno st) (λ n le. v))
        (λ _. v) in
    either P st.has_peer _ _
      (λ e.
        either P (bytes_eq key (codes "public_key")) _ _ (λ _. public_key-IsGet st value v)
          (λ _. peer_line-IsGet h st key value _ v e last))
      (λ _. device_line-IsGet h g st key value _ v (
        either P (bytes_eq key (codes "public_key")) _ _ (λ _. public_key-IsGet st value v)
          (λ _. last)))

finish-IsDevice : (ret : Ret) (dev : WgDevice) → IsDevice dev → OnSome IsDevice (finish ret dev).out
finish-IsDevice ret dev d =
    either (OnSome IsDevice) (is_zero ret) (some dev) none (λ _. d) (λ _. tt)

after_turn :
    (r : Turn) (loop : GetState → Got) (dev : WgDevice)
    → IsDevice dev
    → OnNext IsGet r
    → ((st' : GetState) → IsGet st' → OnSome IsDevice (loop st').out)
    → OnSome IsDevice
        (elim r as (λ _. Got) [
          | next st' ↦ loop st'
          | broken ↦ finish (minus eproto) dev
          | goto_err ret ↦ finish ret dev
        ]).out
after_turn (next st') loop dev d n h = h st' n
after_turn broken loop dev d n h = finish-IsDevice (minus eproto) dev d
after_turn (goto_err ret) loop dev d n h = finish-IsDevice ret dev d

after_cut :
    (r : Option (Bytes × Bytes)) (turn : Bytes → Bytes → Turn) (loop : GetState → Got)
    (dev : WgDevice)
    → IsDevice dev
    → ((key value : Bytes) → OnNext IsGet (turn key value))
    → ((st' : GetState) → IsGet st' → OnSome IsDevice (loop st').out)
    → OnSome IsDevice
        (elim r as (λ _. Got) [
          | none ↦ finish (minus eproto) dev
          | some (key, value) ↦ elim (turn key value) as (λ _. Got) [
            | next st' ↦ loop st'
            | broken ↦ finish (minus eproto) dev
            | goto_err ret ↦ finish ret dev
          ]
        ]).out
after_cut none turn loop dev d n h = finish-IsDevice (minus eproto) dev d
after_cut (some (key, value)) turn loop dev d n h =
    after_turn (turn key value) loop dev d (n key value) h

loop-IsDevice :
    (h : Host) (g : Bytes → Bytes) (st : GetState) (ls : List Bytes)
    → IsGet st
    → OnSome IsDevice (get_loop h g st ls).out
unfolding get_loop
loop-IsDevice h g st [] v = finish-IsDevice (minus eproto) st.dev v.0
loop-IsDevice h g st (l ∷ ls) v =
    either (λ (r : Got). OnSome IsDevice r.out) (bytes_eq l (b'\n' ∷ [])) _ _
      (λ _. finish-IsDevice st.ret st.dev v.0)
      (λ _.
        after_cut (cut_line l) (λ key value. get_line h g st key value) (λ st'. get_loop h g st' ls)
          st.dev v.0 (λ key value. line-IsGet h g st key value v)
          (λ st' v'. loop-IsDevice h g st' ls v'))

-- Whatever lines a reply has, a device that `userspace_get_device` gives has keys of 32 bytes, a
-- mark, a port and intervals in their ranges, and prefixes no longer than an address.
pub userspace_get_device-IsDevice :
    (h : Host) (g : Bytes → Bytes) (errno : ℕ) (iface : Bytes) (reply : Option (List Bytes))
    → OnSome IsDevice (userspace_get_device h g errno iface reply).out
unfolding userspace_get_device
userspace_get_device-IsDevice h g errno iface none = tt
userspace_get_device-IsDevice h g errno iface (some reply) =
    loop-IsDevice h g _ reply ((refl, omega arith, omega arith, tt), refl, refl)
