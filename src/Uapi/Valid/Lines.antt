-- ===== src/Uapi/Valid/Lines.antt =====
-- The lines of a reply that change a peer.
use wireguard_android_expres.Base.{
  ◌≡◌, refl, sym, ap, arith, true, false, not, if◌then◌else◌, Option, none, some, List, [], ◌∷◌,
  ◌++◌, Bytes, split_first, u8,
}
use wireguard_android_expres.Encoding.{key_is_zero}
use wireguard_android_expres.Containers.{
  WgPeer, new_peer, set_flag, wgpeer_has_public_key, wgpeer_has_preshared_key,
}
use wireguard_android_expres.Host.{
  Host, Resolved, found, eai_noname, eai_fail, eai_nodata, eai_other,
}
use wireguard_android_expres.Config.Number.{strtoul}
use wireguard_android_expres.Config.Fields.{first_is_digit, is_inet_addr, parse_ip}
use wireguard_android_expres.Config.Endpoint.{split_endpoint}
use wireguard_android_expres.Config.Valid.{either, non_empty}
use wireguard_android_expres.Config.Valid.Lines.{grown_peers}
use wireguard_android_expres.Uapi.Get.{
  GetState, broken, get_peer, put_peer, get_public_key, get_preshared_key, get_endpoint,
  get_allowed_ip, answered, masked,
}
use wireguard_android_expres.Uapi.Valid.{
  IsGet, OnNext, with_key_lem, put_last-IsGet, get_peer-IsLinkedPeer, put_allowed_ip-IsGet,
}

pub public_key-IsGet :
    (st : GetState) (value : Bytes) → IsGet st → OnNext IsGet (get_public_key st value)
unfolding get_public_key
public_key-IsGet st value v =
    let a = grown_peers st.has_peer st.dev.peers new_peer v.0.3 (refl, refl, omega arith, tt) in
    let peers : List WgPeer =
      if st.has_peer then st.dev.peers ++ (new_peer ∷ []) else new_peer ∷ [] in
    let st' : GetState = record st {
      dev = record (st.dev) { peers = peers };
      has_peer = true;
      has_allowedip = false;
    } in
    let v' : IsGet st' =
      ((v.0.0, v.0.1, v.0.2, a.0), a.1, ap (λ (t : WgPeer). non_empty t.allowedips) (sym a.2)) in
    with_key_lem IsGet value
      (λ key.
        put_peer st'
          (record new_peer { public_key = key; flags = set_flag 0 wgpeer_has_public_key }))
      (λ key k.
        put_last-IsGet st'
          (record new_peer { public_key = key; flags = set_flag 0 wgpeer_has_public_key }) false v'
          refl ((k, refl, omega arith, tt), refl))

pub preshared_key-IsGet :
    (st : GetState) (value : Bytes)
    → IsGet st
    → st.has_peer ≡ true
    → OnNext IsGet (get_preshared_key st value)
unfolding get_preshared_key
preshared_key-IsGet st value v e =
    let l = get_peer-IsLinkedPeer st v in
    with_key_lem IsGet value _ (λ key k.
      put_last-IsGet st
        (record (get_peer st) {
          preshared_key = key;
          flags =
              if not (key_is_zero key)
              then set_flag (get_peer st).flags wgpeer_has_preshared_key
              else (get_peer st).flags;
        })
        st.has_allowedip v e ((l.0.0, k, l.0.2, l.0.3), l.1))

-- An endpoint line with the answer of `getaddrinfo` for its host and service.
answer-IsGet :
    (st : GetState) (r : Resolved) → IsGet st → st.has_peer ≡ true → OnNext IsGet (answered st r)
answer-IsGet st (found a) v e =
    let l = get_peer-IsLinkedPeer st v in
    either (OnNext IsGet) (is_inet_addr a) _ _
      (λ _.
        put_last-IsGet st
          (record (get_peer st) {
            endpoint = record { sa_family = a.ai_family; sa_bytes = a.ai_addr };
          })
          st.has_allowedip v e l)
      (λ _. tt)
answer-IsGet st eai_noname v e = tt
answer-IsGet st eai_fail v e = tt
answer-IsGet st eai_nodata v e = tt
answer-IsGet st (eai_other c) v e = tt

pub cut-IsGet :
    (h : Host) (st : GetState) (r : Option (Bytes × Bytes))
    → IsGet st
    → st.has_peer ≡ true
    → OnNext IsGet
        (elim r [ none ↦ broken | some (begin, end) ↦ answered st (h.getaddrinfo 0 begin end) ])
cut-IsGet h st none v e = tt
cut-IsGet h st (some (begin, end)) v e = answer-IsGet st (h.getaddrinfo 0 begin end) v e

pub allowed-IsGet :
    (h : Host) (st : GetState) (r : Option (Bytes × Bytes))
    → IsGet st
    → st.has_peer ≡ true
    → OnNext IsGet (masked h st r)
allowed-IsGet h st none v e = tt
allowed-IsGet h st (some (ip, mask)) v e =
    let r = strtoul h.ulong_max 10 mask in
    either (OnNext IsGet) (not (first_is_digit h mask)) _ _ (λ _. tt)
      (λ _. put_allowed_ip-IsGet st (u8 r.0) r.1 (parse_ip h ip) v e)

pub endpoint-IsGet :
    (h : Host) (st : GetState) (value : Bytes)
    → IsGet st
    → st.has_peer ≡ true
    → OnNext IsGet (get_endpoint h st value)
unfolding get_endpoint
endpoint-IsGet h st value v e = cut-IsGet h st (split_endpoint value) v e

pub allowed_ip-IsGet :
    (h : Host) (st : GetState) (value : Bytes)
    → IsGet st
    → st.has_peer ≡ true
    → OnNext IsGet (get_allowed_ip h st value)
unfolding get_allowed_ip
allowed_ip-IsGet h st value v e = allowed-IsGet h st (split_first b'/' value) v e
