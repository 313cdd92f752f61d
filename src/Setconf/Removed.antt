-- ===== src/Setconf/Removed.antt =====
-- Which peers sync_conf puts in front of the file's to have them removed.
use wireguard_android_expres.Base.{
  ◌≡◌, refl, ap, ◌∙◌, arith, Bool, true, false, not, ◌&&◌, ◌||◌, List, [], ◌∷◌, Bytes, All,
  bytes_eq, bytes_eq_iff, Bool-cases, inl, inr, any, IsSortedBy, if◌then◌else◌,
}
use wireguard_android_expres.Containers.{WgPeer}
use wireguard_android_expres.Setconf.{
  PeerOrigin, peer_le, key_eq, SyncState, sync_runtime, sync_loop, remove_peer, sync_reset,
  sync_remove,
}
use wireguard_android_expres.Config.Valid.{either}
use wireguard_android_expres.Setconf.Sorted.{between_lem, file_last}

-- Whether a list of peers has one with the key.
abbrev pub has_key : Bytes → List WgPeer → Bool
has_key k ps = any (λ p. bytes_eq k p.public_key) ps

abbrev pub runtime_with : Bytes → PeerOrigin → Bool
runtime_with k o = not o.from_file && bytes_eq k o.peer.public_key

abbrev pub file_with : Bytes → PeerOrigin → Bool
file_with k o = o.from_file && bytes_eq k o.peer.public_key

-- No two of the peers that run have one key.
unfoldable pub has_distinct_runtime : List PeerOrigin → Bool
has_distinct_runtime [] = true
has_distinct_runtime (o ∷ os) =
    (o.from_file || not (any (runtime_with o.peer.public_key) os)) && has_distinct_runtime os

-- The test for the next element.
unfoldable pub head_matches : PeerOrigin → List PeerOrigin → Bool
head_matches o [] = false
head_matches o (n ∷ ns) = n.from_file && key_eq o n

between_any :
    (o n : PeerOrigin) (l : List PeerOrigin)
    → peer_le o n ≡ true
    → All (λ f. peer_le n f ≡ true) l
    → any (file_with o.peer.public_key) l ≡ true
    → key_eq o n ≡ true
unfolding any
between_any o n [] h a e = ground arith
between_any o n (f ∷ l) h a e = elim (Bool-cases (bytes_eq o.peer.public_key f.peer.public_key)) [
  | inl same ↦
      (bytes_eq_iff o.peer.public_key n.peer.public_key).1
        (between_lem o n f h a.0 ((bytes_eq_iff o.peer.public_key f.peer.public_key).0 same))
  | inr other ↦ between_any o n l h a.1 (ground (arith, other, e))
]

pub head_matches_lem :
    (o : PeerOrigin) (rest : List PeerOrigin)
    → o.from_file ≡ false
    → IsSortedBy peer_le (o ∷ rest)
    → any (runtime_with o.peer.public_key) rest ≡ false
    → head_matches o rest ≡ any (file_with o.peer.public_key) rest
unfolding head_matches any
head_matches_lem o [] r s d = refl
head_matches_lem o (n ∷ l) r s d = elim (Bool-cases (any (file_with o.peer.public_key) l)) [
  | inl e ↦ ground (arith, e, d, between_any o n l s.0.0 s.1.0 e)
  | inr e ↦ ground (arith, e)
]

pub file_last_any :
    (o : PeerOrigin) (k : Bytes) (l : List PeerOrigin)
    → All (λ r. peer_le o r ≡ true) l
    → file_with k o ≡ true
    → any (runtime_with k) l ≡ false
unfolding any
file_last_any o k [] a f = refl
file_last_any o k (r ∷ l) a f = ground (
  arith,
  file_last o r,
  a.0,
  bytes_eq_iff k o.peer.public_key,
  bytes_eq_iff k r.peer.public_key,
  file_last_any o k l a.1 f,
)

sync_step-removed :
    (k : Bytes) (o : PeerOrigin) (rest : List PeerOrigin) (st : SyncState)
    → has_key k (if o.from_file then st else sync_runtime o rest st).removed
      ≡ ((runtime_with k o && not (head_matches o rest)) || has_key k st.removed)
unfolding sync_runtime head_matches any
sync_step-removed k o [] st = ground arith
sync_step-removed k o (n ∷ l) st = ground arith

pub with_same_key :
    (k : Bytes) (o : PeerOrigin) → bytes_eq k o.peer.public_key ≡ true → k ≡ o.peer.public_key
with_same_key k o e = (bytes_eq_iff k o.peer.public_key).0 e

-- The algebra of one turn: `r` and `f` are whether the element runs or stands in the file with the
-- key, `R` and `F` the same of those behind it, and `m` whether the next one matches.
turn_algebra :
    (r f m R F s : Bool)
    → (r ≡ true → (m ≡ F) × (R ≡ false) × (f ≡ false))
    → (f ≡ true → R ≡ false)
    → ((R && not F) || ((r && not m) || s)) ≡ (((r || R) && not (f || F)) || s)
turn_algebra true f m R F s a b = let c = a refl in ground (arith, c.0, c.1, c.2)
turn_algebra false true m R F s a b = let c = b refl in ground (arith, c)
turn_algebra false false m R F s a b = refl

pub runtime_facts :
    (k : Bytes) (o : PeerOrigin) (rest : List PeerOrigin)
    → IsSortedBy peer_le (o ∷ rest)
    → has_distinct_runtime (o ∷ rest) ≡ true
    → runtime_with k o ≡ true
    → (head_matches o rest ≡ any (file_with k) rest)
      × (any (runtime_with k) rest ≡ false)
      × (file_with k o ≡ false)
unfolding has_distinct_runtime
runtime_facts k o rest s d r =
    let same = with_same_key k o (ground (arith, r)) in
    let runs : o.from_file ≡ false = ground (arith, r) in
    let none_behind : any (runtime_with o.peer.public_key) rest ≡ false = ground (arith, runs, d) in
    rw same (head_matches_lem o rest runs s none_behind, none_behind, ground (arith, runs))

-- Behind a list in order, the peers put in front are those that run and are not in the file.
pub sync_loop-removed :
    (k : Bytes) (l : List PeerOrigin) (st : SyncState)
    → IsSortedBy peer_le l
    → has_distinct_runtime l ≡ true
    → has_key k (sync_loop l st).removed
      ≡ ((any (runtime_with k) l && not (any (file_with k) l)) || has_key k st.removed)
unfolding sync_loop any has_distinct_runtime
sync_loop-removed k [] st s d = refl
sync_loop-removed k (o ∷ rest) st s d =
    let ih =
      sync_loop-removed k rest (if o.from_file then st else sync_runtime o rest st) s.1
        (ground (arith, d)) in
    ih
    ∙ ap (λ t. (any (runtime_with k) rest && not (any (file_with k) rest)) || t)
        (sync_step-removed k o rest st)
    ∙ turn_algebra (runtime_with k o) (file_with k o) (head_matches o rest)
        (any (runtime_with k) rest) (any (file_with k) rest) (has_key k st.removed)
        (runtime_facts k o rest s d) (file_last_any o k rest s.0)

runtime_IsRemove :
    (o : PeerOrigin) (rest : List PeerOrigin) (st : SyncState)
    → All (λ p. p ≡ remove_peer p.public_key) st.removed
    → All (λ p. p ≡ remove_peer p.public_key) (sync_runtime o rest st).removed
unfolding sync_runtime
runtime_IsRemove o [] st a = (refl, a)
runtime_IsRemove o (n ∷ ns) st a =
    let P = λ (t : SyncState). All (λ p. p ≡ remove_peer p.public_key) t.removed in
    either P (n.from_file && key_eq o n) (sync_reset o n st) (sync_remove o st) (λ _. a)
      (λ _. (refl, a))

step_IsRemove :
    (o : PeerOrigin) (rest : List PeerOrigin) (st : SyncState)
    → All (λ p. p ≡ remove_peer p.public_key) st.removed
    → All
        (λ p. p ≡ remove_peer p.public_key)
        (if o.from_file then st else sync_runtime o rest st).removed
unfolding sync_runtime
step_IsRemove o rest st a =
    let P = λ (t : SyncState). All (λ p. p ≡ remove_peer p.public_key) t.removed in
    either P o.from_file st (sync_runtime o rest st) (λ _. a) (λ _. runtime_IsRemove o rest st a)

-- Each of them has nothing but the key and the flag that has it removed.
pub sync_loop-IsRemove :
    (l : List PeerOrigin) (st : SyncState)
    → All (λ p. p ≡ remove_peer p.public_key) st.removed
    → All (λ p. p ≡ remove_peer p.public_key) (sync_loop l st).removed
unfolding sync_loop
sync_loop-IsRemove [] st a = a
sync_loop-IsRemove (o ∷ rest) st a =
    sync_loop-IsRemove rest (if o.from_file then st else sync_runtime o rest st)
      (step_IsRemove o rest st a)
