-- ===== src/Setconf/Resets.antt =====
-- What sync_conf does to the peers that the file has.
use wireguard_android_expres.Base.{
  ℕ, zero, suc, ◌≡◌, refl, sym, ap, ap₂, ◌∙◌, arith, Bool, true, false, not, ◌&&◌, List, [], ◌∷◌,
  Bytes, map, bytes_eq, bytes_eq_iff, Bool-cases, inl, inr, any, IsSortedBy, if◌then◌else◌,
}
use wireguard_android_expres.Containers.{WgPeer}
use wireguard_android_expres.Setconf.{
  PeerOrigin, peer_le, reset_peer, reset_keepalive, reset_preshared_key, runs_preshared_key,
  runs_keepalive, update_at,
}
use wireguard_android_expres.Setconf.Removed.{
  runtime_with, file_with, has_distinct_runtime, head_matches, file_last_any, runtime_facts,
}

abbrev pub keys : List WgPeer → List Bytes
keys ps = map (λ p. p.public_key) ps

unfoldable pub has_distinct_keys : List Bytes → Bool
has_distinct_keys [] = true
has_distinct_keys (k ∷ ks) = not (any (λ x. bytes_eq x k) ks) && has_distinct_keys ks

-- Whether the key at a place is the one given.
unfoldable pub key_at : ℕ → List Bytes → Bytes → Bool
key_at i [] k = false
key_at zero (x ∷ xs) k = bytes_eq x k
key_at (suc i) (x ∷ xs) k = key_at i xs k

-- An element of the file whose place does not hold its key.
abbrev pub misplaced : List Bytes → PeerOrigin → Bool
misplaced ks o = o.from_file && not (key_at o.place ks o.peer.public_key)

-- A change of the peers with the key.
abbrev pub change : Bytes → (WgPeer → WgPeer) → WgPeer → WgPeer
change k f p = if bytes_eq p.public_key k then f p else p

change_none :
    (k : Bytes) (f : WgPeer → WgPeer) (ps : List WgPeer)
    → any (λ x. bytes_eq x k) (keys ps) ≡ false
    → map (change k f) ps ≡ ps
unfolding any
change_none k f [] e = refl
change_none k f (p ∷ ps) e =
    let h : bytes_eq p.public_key k ≡ false = ground (arith, e) in
    rw h (ap (◌∷◌ p) (change_none k f ps (ground (arith, e))))

any-same :
    (j k : Bytes) (ks : List Bytes)
    → bytes_eq j k ≡ true
    → any (λ x. bytes_eq x j) ks ≡ any (λ x. bytes_eq x k) ks
any-same j k ks e = ap (λ t. any (λ x. bytes_eq x t) ks) ((bytes_eq_iff j k).0 e)

at-present :
    (i : ℕ) (ks : List Bytes) (k : Bytes) → key_at i ks k ≡ true → any (λ x. bytes_eq x k) ks ≡ true
unfolding key_at any
at-present i [] k e = e
at-present zero (x ∷ ks) k e = rw e refl
at-present (suc i) (x ∷ ks) k e = ground (arith, at-present i ks k e)

pub update_at_lem :
    (i : ℕ) (f : WgPeer → WgPeer) (ps : List WgPeer) (k : Bytes)
    → has_distinct_keys (keys ps) ≡ true
    → key_at i (keys ps) k ≡ true
    → update_at i f ps ≡ map (change k f) ps
unfolding update_at has_distinct_keys key_at any
update_at_lem i f [] k d e = refl
update_at_lem zero f (p ∷ ps) k d e =
    let none_else : any (λ x. bytes_eq x p.public_key) (keys ps) ≡ false = ground (arith, d) in
    rw e (
      ap (◌∷◌ (f p))
        (sym (change_none k f ps (sym (any-same p.public_key k (keys ps) e) ∙ none_else))))
update_at_lem (suc i) f (p ∷ ps) k d e =
    let h : bytes_eq p.public_key k ≡ false = elim (Bool-cases (bytes_eq p.public_key k)) [
      | inl same ↦
          ground (arith, any-same p.public_key k (keys ps) same, at-present i (keys ps) k e, d)
      | inr other ↦ other
    ] in
    rw h (ap (◌∷◌ p) (update_at_lem i f ps k (ground (arith, d)) e))

unfoldable pub reset_with : Bool → Bool → WgPeer → WgPeer
reset_with a b p = reset_keepalive b (reset_preshared_key a p)

reset_with-key : (a b : Bool) (p : WgPeer) → (reset_with a b p).public_key ≡ p.public_key
unfolding reset_with reset_keepalive reset_preshared_key
reset_with-key a b p = ground arith

-- What a list of elements asks to reset in a peer of the file.
abbrev pub asks : (WgPeer → Bool) → List PeerOrigin → Bytes → Bool
asks runs l k = any (λ o. runtime_with k o && runs o.peer) l && any (file_with k) l

abbrev pub sync_peer : List PeerOrigin → WgPeer → WgPeer
sync_peer l p =
    reset_with (asks runs_preshared_key l p.public_key) (asks runs_keepalive l p.public_key) p

-- What one turn does to a peer of the file.
abbrev pub turned : PeerOrigin → List PeerOrigin → WgPeer → WgPeer
turned o rest p =
    if (not o.from_file && head_matches o rest) && bytes_eq p.public_key o.peer.public_key
    then reset_peer o.peer p
    else p

pub turned-key :
    (o : PeerOrigin) (rest : List PeerOrigin) (p : WgPeer)
    → (turned o rest p).public_key ≡ p.public_key
unfolding reset_keepalive reset_preshared_key
turned-key o rest p = ground arith

any-and :
    (f g : PeerOrigin → Bool) (l : List PeerOrigin)
    → any f l ≡ false
    → any (λ o. f o && g o) l ≡ false
unfolding any
any-and f g [] e = refl
any-and f g (o ∷ l) e = ground (arith, any-and f g l, e)

and-id : (a : Bool) → (a && true) ≡ a
and-id a = ground arith

and-none : (a : Bool) → (a && false) ≡ false
and-none a = ground arith

turn_test : (f m s : Bool) → f ≡ false → s ≡ true → ((not f && m) && s) ≡ m
turn_test f m s e same = ground (arith, e, same)

reset_if :
    (m a b : Bool) (p : WgPeer)
    → (if m then reset_with a b p else p) ≡ reset_with (a && m) (b && m) p
unfolding reset_with reset_keepalive reset_preshared_key
reset_if true a b p = ap₂ (λ s t. reset_with s t p) (sym (and-id a)) (sym (and-id b))
reset_if false a b p = ap₂ (λ s t. reset_with s t p) (sym (and-none a)) (sym (and-none b))

turned_runtime :
    (o : PeerOrigin) (rest : List PeerOrigin) (p : WgPeer)
    → o.from_file ≡ false
    → bytes_eq p.public_key o.peer.public_key ≡ true
    → turned o rest p
      ≡ reset_with
          (runs_preshared_key o.peer && head_matches o rest)
          (runs_keepalive o.peer && head_matches o rest)
          p
unfolding reset_with
turned_runtime o rest p e same =
    ap (λ t. if t then reset_peer o.peer p else p)
      (turn_test o.from_file (head_matches o rest) (bytes_eq p.public_key o.peer.public_key) e same)
    ∙ reset_if (head_matches o rest) (runs_preshared_key o.peer) (runs_keepalive o.peer) p

turned_other :
    (o : PeerOrigin) (rest : List PeerOrigin) (p : WgPeer)
    → runtime_with p.public_key o ≡ false
    → turned o rest p ≡ p
turned_other o rest p e = ground (arith, e)

pub reset_none : (p : WgPeer) → reset_with false false p ≡ p
unfolding reset_with reset_keepalive reset_preshared_key
reset_none p = refl

-- `asks` for one more element, where the element runs with the key and where it does not.
asks_runtime :
    (runs : WgPeer → Bool) (o : PeerOrigin) (rest : List PeerOrigin) (k : Bytes)
    → runtime_with k o ≡ true
    → head_matches o rest ≡ any (file_with k) rest
    → any (runtime_with k) rest ≡ false
    → asks runs (o ∷ rest) k ≡ (runs o.peer && head_matches o rest)
unfolding any
asks_runtime runs o rest k r m none =
    ground (arith, r, m, any-and (runtime_with k) (λ q. runs q.peer) rest none)

asks_rest :
    (runs : WgPeer → Bool) (rest : List PeerOrigin) (k : Bytes)
    → any (runtime_with k) rest ≡ false
    → asks runs rest k ≡ false
asks_rest runs rest k none = ground (arith, any-and (runtime_with k) (λ q. runs q.peer) rest none)

asks_other :
    (runs : WgPeer → Bool) (o : PeerOrigin) (rest : List PeerOrigin) (k : Bytes)
    → runtime_with k o ≡ false
    → (file_with k o ≡ true → any (runtime_with k) rest ≡ false)
    → asks runs (o ∷ rest) k ≡ asks runs rest k
unfolding any
asks_other runs o rest k r last = elim (Bool-cases (file_with k o)) [
  | inl f ↦ ground (arith, r, f, last f, any-and (runtime_with k) (λ q. runs q.peer) rest (last f))
  | inr f ↦ ground (arith, r, f)
]

pub sync_peer_turn :
    (o : PeerOrigin) (rest : List PeerOrigin) (p : WgPeer)
    → IsSortedBy peer_le (o ∷ rest)
    → has_distinct_runtime (o ∷ rest) ≡ true
    → sync_peer rest (turned o rest p) ≡ sync_peer (o ∷ rest) p
sync_peer_turn o rest p s d =
    let k = p.public_key in
    elim (Bool-cases (runtime_with k o)) [
      | inl r ↦
          let facts = runtime_facts k o rest s d r in
          let same : bytes_eq k o.peer.public_key ≡ true = ground (arith, r) in
          let runs : o.from_file ≡ false = ground (arith, r) in
          rw
            (
              turned-key o rest p,
              asks_rest runs_preshared_key rest k facts.1,
              asks_rest runs_keepalive rest k facts.1,
              asks_runtime runs_preshared_key o rest k r facts.0 facts.1,
              asks_runtime runs_keepalive o rest k r facts.0 facts.1,
            )
            (reset_none (turned o rest p) ∙ turned_runtime o rest p runs same)
      | inr r ↦
          rw
            (
              turned_other o rest p r,
              asks_other runs_preshared_key o rest k r (file_last_any o k rest s.0),
              asks_other runs_keepalive o rest k r (file_last_any o k rest s.0),
            )
            refl
    ]
