-- ===== src/Setconf/Sorted.antt =====
-- The order of peer_cmp: by the key, and a peer that runs before one of the file.
use Prim.Native.Nat.{Ordering}
use wireguard_android_expres.Base.{◌≡◌, ◌≢◌, refl, arith, Bool, true, false, [], ◌∷◌, Bytes}
use wireguard_android_expres.Setconf.{PeerOrigin, memcmp, from_file_cmp, peer_cmp, peer_le}

flip : Ordering → Ordering
flip Ordering.lt = Ordering.gt
flip Ordering.eq = Ordering.eq
flip Ordering.gt = Ordering.lt

memcmp-flip : (a b : Bytes) → memcmp b a ≡ flip (memcmp a b)
unfolding memcmp flip
memcmp-flip [] [] = refl
memcmp-flip [] (y ∷ b) = refl
memcmp-flip (x ∷ a) [] = refl
memcmp-flip (x ∷ a) (y ∷ b) = ground (arith, memcmp-flip a b)

memcmp_eq : (a b : Bytes) → memcmp a b ≡ Ordering.eq → a ≡ b
unfolding memcmp
memcmp_eq [] [] e = refl
memcmp_eq [] (y ∷ b) e = ground arith
memcmp_eq (x ∷ a) [] e = ground arith
memcmp_eq (x ∷ a) (y ∷ b) e = ground (arith, memcmp_eq a b)

memcmp_refl : (a : Bytes) → memcmp a a ≡ Ordering.eq
unfolding memcmp
memcmp_refl [] = refl
memcmp_refl (x ∷ a) = ground (arith, memcmp_refl a)

unfoldable key_le : Bytes → Bytes → Bool
key_le a b = elim (memcmp a b) [ Ordering.gt ↦ false | _ ↦ true ]

key_le_antisym : (a b : Bytes) → key_le a b ≡ true → key_le b a ≡ true → a ≡ b
unfolding key_le flip
key_le_antisym a b h k = ground (arith, memcmp-flip a b, memcmp_eq a b)

key_le_trans : (a b c : Bytes) → key_le a b ≡ true → key_le b c ≡ true → key_le a c ≡ true
unfolding key_le memcmp
key_le_trans [] [] c h k = k
key_le_trans [] (y ∷ b) [] h k = refl
key_le_trans [] (y ∷ b) (z ∷ c) h k = refl
key_le_trans (x ∷ a) [] c h k = ground arith
key_le_trans (x ∷ a) (y ∷ b) [] h k = ground arith
key_le_trans (x ∷ a) (y ∷ b) (z ∷ c) h k = ground (arith, key_le_trans a b c)

key_le_total : (a b : Bytes) → key_le a b ≡ false → key_le b a ≡ true
unfolding key_le flip
key_le_total a b h = ground (arith, memcmp-flip a b)

peer_le-key_le :
    (a b : PeerOrigin) → peer_le a b ≡ true → key_le a.peer.public_key b.peer.public_key ≡ true
unfolding key_le peer_le peer_cmp
peer_le-key_le a b h = ground arith

-- Between two elements of one key stand only elements of that key.
pub between_lem :
    (a b c : PeerOrigin)
    → peer_le a b ≡ true
    → peer_le b c ≡ true
    → a.peer.public_key ≡ c.peer.public_key
    → a.peer.public_key ≡ b.peer.public_key
between_lem a b c h k e =
    key_le_antisym a.peer.public_key b.peer.public_key (peer_le-key_le a b h)
      (rw e (peer_le-key_le b c k))

-- Behind a peer of the file stands no peer that runs with its key.
pub file_last :
    (a b : PeerOrigin)
    → peer_le a b ≡ true
    → a.from_file ≡ true
    → b.from_file ≡ false
    → a.peer.public_key ≢ b.peer.public_key
unfolding peer_le peer_cmp from_file_cmp
file_last a b h ea eb e = ground (arith, memcmp_refl b.peer.public_key, e)

pub peer_le_total : (a b : PeerOrigin) → peer_le a b ≡ false → peer_le b a ≡ true
unfolding peer_le peer_cmp from_file_cmp flip
peer_le_total a b h = ground (arith, memcmp-flip a.peer.public_key b.peer.public_key)

pub peer_le_trans :
    (a b c : PeerOrigin) → peer_le a b ≡ true → peer_le b c ≡ true → peer_le a c ≡ true
unfolding peer_le peer_cmp from_file_cmp key_le flip
peer_le_trans a b c h k =
    let x = a.peer.public_key in
    let y = b.peer.public_key in
    let z = c.peer.public_key in
    ground (
      arith,
      key_le_trans x y z,
      memcmp_eq x y,
      memcmp_eq y z,
      memcmp_eq x z,
      memcmp-flip x y,
      memcmp-flip y z,
      memcmp_refl x,
      memcmp_refl y,
    )
