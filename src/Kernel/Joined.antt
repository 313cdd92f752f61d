-- ===== src/Kernel/Joined.antt =====
-- coalesce_peers gives back the peers whose entries were spread over parts.
use wireguard_android_expres.Base.{
  ◌≡◌, refl, sym, ap, ◌∙◌, arith, Bool, true, false, not, none, some, List, [], ◌∷◌, ◌++◌,
  append_assoc, append-nil, Bytes, bytes_eq, map, All,
}
use wireguard_android_expres.Containers.{WgAllowedIp, WgPeer}
use wireguard_android_expres.Config.Valid.{non_empty}
use wireguard_android_expres.Config.Number.Digits.{false-ne-true}
use wireguard_android_expres.Kernel.Coalesce.{
  joined_ips, with_ips, cons_some, coalesce_loop, coalesce_peers,
}

-- A peer's parts: the first, and those with more of its entries.
pub record Group : Type 0 where
  pub first : WgPeer
  pub more : List WgPeer

abbrev pub ips_of : List WgPeer → List WgAllowedIp
ips_of [] = []
ips_of (p ∷ ps) = p.allowedips ++ ips_of ps

-- The peer with all its entries.
abbrev pub whole : Group → WgPeer
whole g = with_ips g.first (g.first.allowedips ++ ips_of g.more)

abbrev pub parts : List Group → List WgPeer
parts [] = []
parts (g ∷ gs) = g.first ∷ (g.more ++ parts gs)

-- A further part has the peer's key and entries.
abbrev pub IsMore : Bytes → WgPeer → Type 0
IsMore key p = (bytes_eq key p.public_key ≡ true) × (non_empty p.allowedips ≡ true)

abbrev pub IsGroup : Group → Type 0
IsGroup g = All (IsMore g.first.public_key) g.more

-- Neighbours have different keys.
abbrev pub heads_differ : Bytes → List Group → Bool
heads_differ key [] = true
heads_differ key (g ∷ gs) = not (bytes_eq key g.first.public_key)

abbrev pub AreApart : List Group → Type 0
AreApart [] = Unit
AreApart (g ∷ gs) = (heads_differ g.first.public_key gs ≡ true) × AreApart gs

join_lem :
    (has_last : Bool) (xs ys : List WgAllowedIp)
    → has_last ≡ non_empty xs
    → joined_ips has_last xs ys ≡ some (xs ++ ys)
join_lem has_last [] ys e = refl
join_lem true (x ∷ xs) ys e = refl
join_lem false (x ∷ xs) ys e = absurd (false-ne-true e)

non_empty-append :
    (xs ys : List WgAllowedIp) → non_empty ys ≡ true → non_empty ys ≡ non_empty (xs ++ ys)
non_empty-append [] ys e = refl
non_empty-append (x ∷ xs) ys e = e

-- At the end of a group.
loop_end :
    (has_last : Bool) (p : WgPeer) (gs : List Group)
    → heads_differ p.public_key gs ≡ true
    → coalesce_loop has_last p (parts gs) ≡ cons_some p (coalesce_peers (parts gs))
unfolding coalesce_loop coalesce_peers
loop_end has_last p [] e = refl
loop_end has_last p (g ∷ gs) e =
    let apart : bytes_eq p.public_key g.first.public_key ≡ false = ground (arith, e) in
    rw apart refl

-- A group's further parts are joined to its first.
loop_group :
    (has_last : Bool) (p : WgPeer) (more : List WgPeer) (gs : List Group)
    → has_last ≡ non_empty p.allowedips
    → All (IsMore p.public_key) more
    → heads_differ p.public_key gs ≡ true
    → coalesce_loop has_last p (more ++ parts gs)
      ≡ cons_some (with_ips p (p.allowedips ++ ips_of more)) (coalesce_peers (parts gs))
unfolding coalesce_loop
loop_group has_last p [] gs l a d =
    loop_end has_last p gs d
    ∙ ap (λ ips. cons_some (with_ips p ips) (coalesce_peers (parts gs)))
        (sym (append-nil p.allowedips))
loop_group has_last p (q ∷ more) gs l a d =
    rw (a.0.0, join_lem has_last p.allowedips q.allowedips l)
      (loop_group (non_empty q.allowedips) (with_ips p (p.allowedips ++ q.allowedips)) more gs
          (non_empty-append p.allowedips q.allowedips a.0.1) a.1 d
        ∙ ap (λ ips. cons_some (with_ips p ips) (coalesce_peers (parts gs)))
            (append_assoc p.allowedips q.allowedips (ips_of more)))

-- Where each peer of a reply comes as one part, or as a first part and further ones that have its
-- key and entries, and neighbours have different keys, coalesce_peers gives each peer once, as its
-- first part has it, with the entries of all its parts in order; it uses no NULL.
pub coalesce_peers-parts :
    (gs : List Group)
    → All IsGroup gs
    → AreApart gs
    → coalesce_peers (parts gs) ≡ some (map whole gs)
unfolding coalesce_peers
coalesce_peers-parts [] a d = refl
coalesce_peers-parts (g ∷ gs) a d =
    loop_group (non_empty g.first.allowedips) g.first g.more gs refl a.0 d.0
    ∙ ap (cons_some (whole g)) (coalesce_peers-parts gs a.1 d.1)

null_lem :
    (xs ys zs : List WgAllowedIp) → non_empty xs ≡ true → joined_ips false (xs ++ ys) zs ≡ none
null_lem [] ys zs e = absurd (false-ne-true e)
null_lem (x ∷ xs) ys zs e = refl

-- Where a peer has entries and two further parts, the first of them without entries, coalesce_peers
-- follows a NULL pointer.
pub coalesce_peers-null :
    (p q r : WgPeer) (rest : List WgPeer)
    → non_empty p.allowedips ≡ true
    → bytes_eq p.public_key q.public_key ≡ true
    → q.allowedips ≡ []
    → bytes_eq p.public_key r.public_key ≡ true
    → coalesce_peers (p ∷ q ∷ r ∷ rest) ≡ none
unfolding coalesce_peers coalesce_loop
coalesce_peers-null p q r rest n e none_of f =
    let h : non_empty q.allowedips ≡ false = ap non_empty none_of in
    rw (e, join_lem (non_empty p.allowedips) p.allowedips q.allowedips refl)
      (rw (f, h, null_lem p.allowedips q.allowedips r.allowedips n) refl)
