-- ===== src/Setconf/Turns.antt =====
-- The loop of sync_conf over the peers of the file.
use wireguard_android_expres.Base.{
  ◌≡◌, refl, sym, ap, ap₂, ◌∙◌, arith, Bool, true, false, not, ◌&&◌, List, [], ◌∷◌, map, bytes_eq,
  bytes_eq_iff, Bool-cases, inl, inr, any, IsSortedBy, if◌then◌else◌,
}
use wireguard_android_expres.Containers.{WgPeer}
use wireguard_android_expres.Setconf.{
  PeerOrigin, peer_le, key_eq, SyncState, sync_runtime, sync_loop, reset_peer,
}
use wireguard_android_expres.Setconf.Removed.{has_distinct_runtime, head_matches}
use wireguard_android_expres.Setconf.Resets.{
  keys, has_distinct_keys, misplaced, change, update_at_lem, sync_peer, turned, turned-key,
  sync_peer_turn, reset_none,
}

map_id : (g : WgPeer → WgPeer) (ps : List WgPeer) → ((p : WgPeer) → g p ≡ p) → map g ps ≡ ps
map_id g [] e = refl
map_id g (p ∷ ps) e = ap₂ ◌∷◌ (e p) (map_id g ps e)

pub map_cong :
    (f g : WgPeer → WgPeer) (ps : List WgPeer) → ((p : WgPeer) → f p ≡ g p) → map f ps ≡ map g ps
map_cong f g [] e = refl
map_cong f g (p ∷ ps) e = ap₂ ◌∷◌ (e p) (map_cong f g ps e)

map-map : (f g : WgPeer → WgPeer) (ps : List WgPeer) → map f (map g ps) ≡ map (λ p. f (g p)) ps
map-map f g [] = refl
map-map f g (p ∷ ps) = ap (◌∷◌ (f (g p))) (map-map f g ps)

pub keys-map :
    (g : WgPeer → WgPeer) (ps : List WgPeer)
    → ((p : WgPeer) → (g p).public_key ≡ p.public_key)
    → keys (map g ps) ≡ keys ps
keys-map g [] e = refl
keys-map g (p ∷ ps) e = ap₂ ◌∷◌ (e p) (keys-map g ps e)

-- Where nothing matches, the turn leaves the file's peers.
turned_none :
    (o : PeerOrigin) (rest : List PeerOrigin) (ps : List WgPeer)
    → (not o.from_file && head_matches o rest) ≡ false
    → map (turned o rest) ps ≡ ps
turned_none o rest ps e = map_id (turned o rest) ps (λ p. ground (arith, e))

change-turned :
    (o n : PeerOrigin) (l : List PeerOrigin) (p : WgPeer)
    → o.from_file ≡ false
    → n.from_file ≡ true
    → key_eq o n ≡ true
    → change n.peer.public_key (reset_peer o.peer) p ≡ turned o (n ∷ l) p
unfolding head_matches
change-turned o n l p e f same =
    ap (λ t. if t then reset_peer o.peer p else p)
      (ap (bytes_eq p.public_key) (sym ((bytes_eq_iff o.peer.public_key n.peer.public_key).0 same))
        ∙ test o.from_file n.from_file (key_eq o n) (bytes_eq p.public_key o.peer.public_key) e f
            same)
  where
    test : (a b c d : Bool) → a ≡ false → b ≡ true → c ≡ true → d ≡ ((not a && (b && c)) && d)
    test a b c d e f g = ground (arith, e, f, g)

runtime_turn :
    (o : PeerOrigin) (rest : List PeerOrigin) (st : SyncState)
    → o.from_file ≡ false
    → has_distinct_keys (keys st.file_peers) ≡ true
    → any (misplaced (keys st.file_peers)) rest ≡ false
    → (sync_runtime o rest st).file_peers ≡ map (turned o rest) st.file_peers
unfolding sync_runtime head_matches any
runtime_turn o [] st e d m = sym (turned_none o [] st.file_peers (ground (arith, e)))
runtime_turn o (n ∷ l) st e d m = elim (Bool-cases (n.from_file && key_eq o n)) [
  | inl t ↦ rw t (
      update_at_lem n.place (reset_peer o.peer) st.file_peers n.peer.public_key d
        (ground (arith, t, m))
      ∙ map_cong (change n.peer.public_key (reset_peer o.peer)) (turned o (n ∷ l)) st.file_peers
          (λ p. change-turned o n l p e (ground (arith, t)) (ground (arith, t))))
  | inr t ↦ rw t (sym (turned_none o (n ∷ l) st.file_peers (ground (arith, e, t))))
]

turn_lem :
    (o : PeerOrigin) (rest : List PeerOrigin) (st : SyncState)
    → has_distinct_keys (keys st.file_peers) ≡ true
    → any (misplaced (keys st.file_peers)) rest ≡ false
    → (if o.from_file then st else sync_runtime o rest st).file_peers
      ≡ map (turned o rest) st.file_peers
turn_lem o rest st d m = elim (Bool-cases o.from_file) [
  | inl e ↦ simp e (sym (turned_none o rest st.file_peers (ground (arith, e))))
  | inr e ↦ simp e (runtime_turn o rest st e d m)
]

pub sync_loop-file_peers :
    (l : List PeerOrigin) (st : SyncState)
    → IsSortedBy peer_le l
    → has_distinct_runtime l ≡ true
    → has_distinct_keys (keys st.file_peers) ≡ true
    → any (misplaced (keys st.file_peers)) l ≡ false
    → (sync_loop l st).file_peers ≡ map (sync_peer l) st.file_peers
unfolding sync_loop has_distinct_runtime any
sync_loop-file_peers [] st s d dk m = sym (map_id (sync_peer []) st.file_peers reset_none)
sync_loop-file_peers (o ∷ rest) st s d dk m =
    let m' : any (misplaced (keys st.file_peers)) rest ≡ false = ground (arith, m) in
    let st' = if o.from_file then st else sync_runtime o rest st in
    let e = turn_lem o rest st dk m' in
    let ek : keys st'.file_peers ≡ keys st.file_peers =
      ap keys e ∙ keys-map (turned o rest) st.file_peers (turned-key o rest) in
    sync_loop-file_peers rest st' s.1 (ground (arith, d)) (ap has_distinct_keys ek ∙ dk)
      (ap (λ ks. any (misplaced ks) rest) ek ∙ m')
    ∙ ap (map (sync_peer rest)) e
    ∙ map-map (sync_peer rest) (turned o rest) st.file_peers
    ∙ map_cong (λ p. sync_peer rest (turned o rest p)) (sync_peer (o ∷ rest)) st.file_peers
        (λ p. sync_peer_turn o rest p s d)
