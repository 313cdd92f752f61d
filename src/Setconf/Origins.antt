-- ===== src/Setconf/Origins.antt =====
-- The array of sync_conf: what is known of it in the order that it is filled, and in any other.
use mathlib.Core.Logic.{∥∥₁_elim}
use mathlib.Core.Bool.{Bool-set}
use mathlib.Core.List.{Perm, Permᴰ}
use wireguard_android_expres.Base.{
  ℕ, suc, ◌+◌, ◌≡◌, refl, sym, ap, ap₂, ◌∙◌, arith, Bool, true, false, not, ◌&&◌, ◌||◌, List, [],
  ◌∷◌, ◌++◌, Bytes, bytes_eq, bytes_eq_iff, any, any-perm,
}
use wireguard_android_expres.Containers.{WgPeer}
use wireguard_android_expres.Setconf.{PeerOrigin, origins, origins_from}
use wireguard_android_expres.Setconf.Removed.{runtime_with, has_distinct_runtime}
use wireguard_android_expres.Setconf.Resets.{keys, has_distinct_keys, key_at, misplaced}

bytes_eq_sym : (a b : Bytes) → bytes_eq a b ≡ bytes_eq b a
bytes_eq_sym a b = ground (arith, bytes_eq_iff a b, bytes_eq_iff b a)

pub any-append :
    (f : PeerOrigin → Bool) (xs ys : List PeerOrigin) → any f (xs ++ ys) ≡ (any f xs || any f ys)
unfolding any
any-append f [] ys = refl
any-append f (x ∷ xs) ys = ground (arith, any-append f xs ys)

-- A test that no element from the file passes, or none that runs.
any-origins_from :
    (f : PeerOrigin → Bool) (g : WgPeer → Bool) (b : Bool) (i : ℕ) (ps : List WgPeer)
    → ((p : WgPeer) (j : ℕ) → f (record { peer = p; place = j; from_file = b }) ≡ g p)
    → any f (origins_from b i ps) ≡ any g ps
unfolding any origins_from
any-origins_from f g b i [] e = refl
any-origins_from f g b i (p ∷ ps) e = ap₂ ◌||◌ (e p i) (any-origins_from f g b (suc i) ps e)

any-false : (ps : List WgPeer) → any (λ p. false) ps ≡ false
unfolding any
any-false [] = refl
any-false (p ∷ ps) = any-false ps

pub or-none : (a : Bool) → (a || false) ≡ a
or-none a = ground arith

pub runtime_origins :
    (f : PeerOrigin → Bool) (g : WgPeer → Bool) (fs rs : List WgPeer)
    → ((p : WgPeer) (j : ℕ) → f (record { peer = p; place = j; from_file = true }) ≡ false)
    → ((p : WgPeer) (j : ℕ) → f (record { peer = p; place = j; from_file = false }) ≡ g p)
    → any f (origins fs rs) ≡ any g rs
runtime_origins f g fs rs e d =
    any-append f (origins_from true 0 fs) (origins_from false 0 rs)
    ∙ ap₂ ◌||◌ (any-origins_from f (λ p. false) true 0 fs e ∙ any-false fs)
        (any-origins_from f g false 0 rs d)

pub file_origins :
    (f : PeerOrigin → Bool) (g : WgPeer → Bool) (fs rs : List WgPeer)
    → ((p : WgPeer) (j : ℕ) → f (record { peer = p; place = j; from_file = true }) ≡ g p)
    → ((p : WgPeer) (j : ℕ) → f (record { peer = p; place = j; from_file = false }) ≡ false)
    → any f (origins fs rs) ≡ any g fs
file_origins f g fs rs e d =
    any-append f (origins_from true 0 fs) (origins_from false 0 rs)
    ∙ ap₂ ◌||◌ (any-origins_from f g true 0 fs e)
        (any-origins_from f (λ p. false) false 0 rs d ∙ any-false rs)
    ∙ or-none (any g fs)

-- Distinct keys do not depend on the order of the array.
distinct_swap :
    (fa fb ab ba A B D : Bool)
    → ab ≡ ba
    → ((fa || not ((not fb && ab) || A)) && ((fb || not B) && D))
      ≡ ((fb || not ((not fa && ba) || B)) && ((fa || not A) && D))
distinct_swap fa fb ab ba A B D e = ground (arith, e)

distinct-permᴰ :
    {xs ys : List PeerOrigin} → Permᴰ xs ys → has_distinct_runtime xs ≡ has_distinct_runtime ys
unfolding has_distinct_runtime any
distinct-permᴰ Permᴰ.nil = refl
distinct-permᴰ (Permᴰ.cons {a = a} {b = b} {l₁ = xs} {l₂ = ys} e p) =
    (λ i.
      ((e i).from_file || not (any (runtime_with (e i).peer.public_key) xs))
      && has_distinct_runtime xs)
    ∙ ap₂ (λ s t. (b.from_file || not s) && t) (any-perm (runtime_with b.peer.public_key) ∣ p ∣₁)
        (distinct-permᴰ p)
distinct-permᴰ (Permᴰ.swap {a = a} {b = b} {l = l} d e) =
    distinct_swap a.from_file b.from_file (bytes_eq a.peer.public_key b.peer.public_key)
      (bytes_eq b.peer.public_key a.peer.public_key) (any (runtime_with a.peer.public_key) l)
      (any (runtime_with b.peer.public_key) l) (has_distinct_runtime l)
      (bytes_eq_sym a.peer.public_key b.peer.public_key)
    ∙ λ i. has_distinct_runtime (e i ∷ d i ∷ l)
distinct-permᴰ (Permᴰ.trans p q) = distinct-permᴰ p ∙ distinct-permᴰ q

pub distinct-perm :
    {xs ys : List PeerOrigin} → Perm xs ys → has_distinct_runtime xs ≡ has_distinct_runtime ys
distinct-perm {xs} {ys} p =
    ∥∥₁_elim p (Bool-set (has_distinct_runtime xs) (has_distinct_runtime ys)) distinct-permᴰ

distinct_file :
    (i : ℕ) (fs : List WgPeer) (l : List PeerOrigin)
    → has_distinct_runtime (origins_from true i fs ++ l) ≡ has_distinct_runtime l
unfolding has_distinct_runtime origins_from
distinct_file i [] l = refl
distinct_file i (p ∷ fs) l = distinct_file (suc i) fs l

any-map :
    (k : Bytes) (ps : List WgPeer)
    → any (λ x. bytes_eq x k) (keys ps) ≡ any (λ q. bytes_eq q.public_key k) ps
unfolding any
any-map k [] = refl
any-map k (p ∷ ps) = ap (λ t. bytes_eq p.public_key k || t) (any-map k ps)

distinct_runtime :
    (i : ℕ) (rs : List WgPeer)
    → has_distinct_runtime (origins_from false i rs) ≡ has_distinct_keys (keys rs)
unfolding has_distinct_runtime origins_from has_distinct_keys
distinct_runtime i [] = refl
distinct_runtime i (p ∷ rs) =
    ap₂ (λ s t. not s && t)
      (any-origins_from (runtime_with p.public_key) (λ q. bytes_eq q.public_key p.public_key) false
          (suc i) rs (λ q j. bytes_eq_sym p.public_key q.public_key)
        ∙ sym (any-map p.public_key rs))
      (distinct_runtime (suc i) rs)

pub distinct_origins :
    (fs rs : List WgPeer) → has_distinct_runtime (origins fs rs) ≡ has_distinct_keys (keys rs)
distinct_origins fs rs = distinct_file 0 fs (origins_from false 0 rs) ∙ distinct_runtime 0 rs

-- A list of keys that holds those of `ps` from a place on.
misplaced_from :
    (ks : List Bytes) (i : ℕ) (ps : List WgPeer)
    → ((j : ℕ) (k : Bytes) → key_at j (keys ps) k ≡ true → key_at (j + i) ks k ≡ true)
    → any (misplaced ks) (origins_from true i ps) ≡ false
unfolding any origins_from key_at
misplaced_from ks i [] h = refl
misplaced_from ks i (p ∷ ps) h =
    let here = h 0 p.public_key ((bytes_eq_iff p.public_key p.public_key).1 refl) in
    let rest =
      misplaced_from ks (suc i) ps (λ j k e. ap (λ n. key_at n ks k) (place j i) ∙ h (suc j) k e) in
    ground (arith, here, rest)
  where
    place : (j i : ℕ) → j + suc i ≡ suc j + i
    place j i = omega arith

pub misplaced-origins : (fs rs : List WgPeer) → any (misplaced (keys fs)) (origins fs rs) ≡ false
misplaced-origins fs rs =
    any-append (misplaced (keys fs)) (origins_from true 0 fs) (origins_from false 0 rs)
    ∙ ap₂ ◌||◌
        (misplaced_from (keys fs) 0 fs (λ j k e. ap (λ n. key_at n (keys fs) k) (here j) ∙ e))
        (any-origins_from (misplaced (keys fs)) (λ p. false) false 0 rs (λ p j. refl)
          ∙ any-false rs)
  where
    here : (j : ℕ) → j + 0 ≡ j
    here j = omega arith
