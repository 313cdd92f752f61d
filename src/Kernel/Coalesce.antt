-- ===== src/Kernel/Coalesce.antt =====
-- coalesce_peers: the parts of a peer that a reply has spread over messages are joined.
use wireguard_android_expres.Base.{
  Bool, true, false, if◌then◌else◌, Option, none, some, List, [], ◌∷◌, ◌++◌, bytes_eq,
}
use wireguard_android_expres.Containers.{WgAllowedIp, WgPeer}
use wireguard_android_expres.Config.Valid.{non_empty}

-- The peer with the entries of the next behind its own. Its pointer to the last entry, which may be
-- NULL, is followed where it has entries; `none` is the use of NULL.
abbrev pub joined_ips : Bool → List WgAllowedIp → List WgAllowedIp → Option (List WgAllowedIp)
joined_ips has_last [] next = some next
joined_ips true (a ∷ as') next = some ((a ∷ as') ++ next)
joined_ips false (a ∷ as') next = none

abbrev pub with_ips : WgPeer → List WgAllowedIp → WgPeer
with_ips p ips = record p { allowedips = ips }

abbrev pub cons_some : WgPeer → Option (List WgPeer) → Option (List WgPeer)
cons_some p none = none
cons_some p (some ps) = some (p ∷ ps)

abbrev pub join_or :
    Option (List WgAllowedIp) → (List WgAllowedIp → Option (List WgPeer)) → Option (List WgPeer)
join_or none next = none
join_or (some ips) next = next ips

-- The loop, at a peer, with whether its pointer to the last entry is set, and the peers behind it.
unfoldable pub coalesce_loop : Bool → WgPeer → List WgPeer → Option (List WgPeer)
coalesce_loop has_last p [] = some (p ∷ [])
coalesce_loop has_last p (q ∷ qs) =
    let apart = coalesce_loop (non_empty q.allowedips) q qs in
    let joined =
      join_or (joined_ips has_last p.allowedips q.allowedips)
        (λ ips. coalesce_loop (non_empty q.allowedips) (with_ips p ips) qs) in
    if bytes_eq p.public_key q.public_key then joined else cons_some p apart

unfoldable pub coalesce_peers : List WgPeer → Option (List WgPeer)
coalesce_peers [] = some []
coalesce_peers (p ∷ ps) = coalesce_loop (non_empty p.allowedips) p ps
