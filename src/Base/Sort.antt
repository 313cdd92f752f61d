-- ===== src/Base/Sort.antt =====
-- Lists in order by a Boolean test, insertion sort, and what a permutation of a list keeps.
use mathlib.Core.Path.{◌≡◌, refl, ap, ap₂, ◌∙◌}
use mathlib.Core.Bool.{Bool, true, false, ◌||◌, Bool-set}
use mathlib.Core.Logic.{inl, inr, ∥∥₁_elim}
use mathlib.Core.List.{List, [], ◌∷◌, Permᴰ, Perm}
use mathlib.Core.List.Perm
use wireguard_android_expres.Base.Tests.{if◌then◌else◌, Bool-cases}
use wireguard_android_expres.Base.Lists.{All}

or_swap : (a b c : Bool) → (a || (b || c)) ≡ (b || (a || c))
or_swap true true c = refl
or_swap true false c = refl
or_swap false b c = refl

module _ {ℓ} {A : Type ℓ} where
  unfoldable pub any : (A → Bool) → List A → Bool
  any f [] = false
  any f (x ∷ xs) = f x || any f xs

  any-permᴰ : (f : A → Bool) {xs ys : List A} → Permᴰ xs ys → any f xs ≡ any f ys
  unfolding any
  any-permᴰ f Permᴰ.nil = refl
  any-permᴰ f (Permᴰ.cons e p) = ap₂ ◌||◌ (ap f e) (any-permᴰ f p)
  any-permᴰ f (Permᴰ.swap {a = a} {b = b} {l = l} d e) =
      or_swap (f a) (f b) (any f l) ∙ λ i. f (e i) || (f (d i) || any f l)
  any-permᴰ f (Permᴰ.trans p q) = any-permᴰ f p ∙ any-permᴰ f q

  pub any-perm : (f : A → Bool) {xs ys : List A} → Perm xs ys → any f xs ≡ any f ys
  any-perm f {xs} {ys} p = ∥∥₁_elim p (Bool-set (any f xs) (any f ys)) (any-permᴰ f)

  abbrev pub IsSortedBy : (A → A → Bool) → List A → Type ℓ
  IsSortedBy le [] = Unit
  IsSortedBy le (x ∷ xs) = All (λ y. le x y ≡ true) xs × IsSortedBy le xs

  -- What a sorting function promises: a permutation of its list, in order.
  abbrev pub IsSort : (A → A → Bool) → (List A → List A) → Type ℓ
  IsSort le sort = (l : List A) → Perm (sort l) l × IsSortedBy le (sort l)

  unfoldable pub ordered_insert : (A → A → Bool) → A → List A → List A
  ordered_insert le x [] = x ∷ []
  ordered_insert le x (y ∷ ys) =
      let rest = ordered_insert le x ys in if le x y then x ∷ y ∷ ys else y ∷ rest

  unfoldable pub insertion_sort : (A → A → Bool) → List A → List A
  insertion_sort le [] = []
  insertion_sort le (x ∷ xs) = ordered_insert le x (insertion_sort le xs)

  ordered_insert-perm :
      (le : A → A → Bool) (x : A) (l : List A) → Perm (ordered_insert le x l) (x ∷ l)
  unfolding ordered_insert
  ordered_insert-perm le x [] = Perm.rfl
  ordered_insert-perm le x (y ∷ ys) = elim (Bool-cases (le x y)) [
    | inl e ↦ rw e Perm.rfl
    | inr e ↦ rw e (Perm.trans (Perm.cons y (ordered_insert-perm le x ys)) (Perm.swap x y ys))
  ]

  All-insert :
      (le : A → A → Bool) (P : A → Type 0) (x : A) (l : List A)
      → P x
      → All P l
      → All P (ordered_insert le x l)
  unfolding ordered_insert
  All-insert le P x [] p a = (p, a)
  All-insert le P x (y ∷ ys) p a = elim (Bool-cases (le x y)) [
    | inl e ↦ rw e (p, a)
    | inr e ↦ rw e (a.0, All-insert le P x ys p a.1)
  ]

  All-map : (P Q : A → Type 0) (l : List A) → ((x : A) → P x → Q x) → All P l → All Q l
  All-map P Q [] f a = tt
  All-map P Q (x ∷ l) f a = (f x a.0, All-map P Q l f a.1)

  module _ (le : A → A → Bool) (total : (x y : A) → le x y ≡ false → le y x ≡ true)
      (trans : (x y z : A) → le x y ≡ true → le y z ≡ true → le x z ≡ true) where
    ordered_insert-IsSortedBy :
        (x : A) (l : List A) → IsSortedBy le l → IsSortedBy le (ordered_insert le x l)
    unfolding ordered_insert
    ordered_insert-IsSortedBy x [] s = (tt, tt)
    ordered_insert-IsSortedBy x (y ∷ ys) s = elim (Bool-cases (le x y)) [
      | inl e ↦
          rw e
            ((e, All-map (λ z. le y z ≡ true) (λ z. le x z ≡ true) ys (λ z. trans x y z e) s.0), s)
      | inr e ↦ rw e (
        All-insert le (λ z. le y z ≡ true) x ys (total x y e) s.0,
        ordered_insert-IsSortedBy x ys s.1,
      )
    ]

    insertion_sort-IsSortedBy : (l : List A) → IsSortedBy le (insertion_sort le l)
    unfolding insertion_sort
    insertion_sort-IsSortedBy [] = tt
    insertion_sort-IsSortedBy (x ∷ l) =
        ordered_insert-IsSortedBy x (insertion_sort le l) (insertion_sort-IsSortedBy l)

  pub insertion_sort-perm : (le : A → A → Bool) (l : List A) → Perm (insertion_sort le l) l
  unfolding insertion_sort
  insertion_sort-perm le [] = Perm.rfl
  insertion_sort-perm le (x ∷ l) =
      Perm.trans (ordered_insert-perm le x (insertion_sort le l))
        (Perm.cons x (insertion_sort-perm le l))

  -- Insertion sort is such a function for every total and transitive test.
  pub insertion_sort-IsSort :
      (le : A → A → Bool)
      → ((x y : A) → le x y ≡ false → le y x ≡ true)
      → ((x y z : A) → le x y ≡ true → le y z ≡ true → le x z ≡ true)
      → IsSort le (insertion_sort le)
  insertion_sort-IsSort le total trans l =
      (insertion_sort-perm le l, insertion_sort-IsSortedBy le total trans l)
