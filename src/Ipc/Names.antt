-- ===== src/Ipc/Names.antt =====
-- The names of all interfaces: what ipc_list_devices gives is what `wg show interfaces` prints.
use wireguard_android_expres.Base.{
  ℕ, zero, suc, ◌+◌, ◌^◌, ◌≤◌, ◌≡◌, ◌⊎◌, inl, inr, refl, sym, ap, ap₂, ◌∙◌, subst, arith, true,
  false, ◌==◌, Option, some, List, [], ◌∷◌, ◌++◌, append_assoc, append-nil, Bytes, length,
  length-append, split_first, All,
}
use wireguard_android_expres.Config.Valid.{non_empty}
use wireguard_android_expres.Config.Number.Digits.{false-ne-true}
use wireguard_android_expres.Ipc.{
  StringList, empty_list, added, failed, add_names, list_block, listed, not_listed, listed_end,
  ipc_list_devices, next_name, print_turn, print_name, behind, print_interfaces,
}
use wireguard_android_expres.Ipc.Room.{
  flat, flat-append, Holds, IsRealloc, with_name, string_list_add-Holds,
}

-- The names that are not empty, in order.
abbrev pub named_ones : List Bytes → List Bytes
named_ones [] = []
named_ones ([] ∷ ss) = named_ones ss
named_ones ((c ∷ s) ∷ ss) = (c ∷ s) ∷ named_ones ss

-- Names with a space between them and a newline behind the last.
abbrev pub joined_names : List Bytes → Bytes
joined_names [] = []
joined_names (s ∷ []) = s ++ (b'\n' ∷ [])
joined_names (s ∷ t ∷ ss) = s ++ (b' ' ∷ joined_names (t ∷ ss))

-- A C string of a name, which has no NUL.
abbrev pub IsName : Bytes → Type 0
IsName s = All (λ c. (c == 0) ≡ false) s

with_name_lem :
    (ss : List Bytes) (s : Bytes) (ts : List Bytes)
    → with_name ss s ++ named_ones ts ≡ ss ++ named_ones (s ∷ ts)
with_name_lem ss [] ts = refl
with_name_lem ss (c ∷ s) ts = append_assoc ss ((c ∷ s) ∷ []) (named_ones ts)

with_name-length :
    (ss : List Bytes) (s : Bytes) → length (flat (with_name ss s)) ≤ length (flat ss) + length s + 1
with_name-length ss [] = omega arith
with_name-length ss (c ∷ s) = omega (
  arith,
  ap length (flat-append ss ((c ∷ s) ∷ [])),
  length-append (flat ss) ((c ∷ s) ++ (0 ∷ [])),
  length-append (c ∷ s) (0 ∷ []),
)

flat-length :
    (s : Bytes) (ss : List Bytes) → length (flat (s ∷ ss)) ≡ length s + 1 + length (flat ss)
flat-length s ss = omega (arith, length-append s (0 ∷ flat ss))

module _ (realloc : Bytes → ℕ → Option Bytes) (r : IsRealloc realloc) where
  add_names-failed : (ss : List Bytes) → add_names realloc failed ss ≡ failed
  unfolding add_names
  add_names-failed [] = refl
  add_names-failed (s ∷ ss) = refl

  add_names_lem :
      (ss : List Bytes) (l : StringList) (ts : List Bytes)
      → Holds ss l
      → length (flat ss) + length (flat ts) ≤ 2 ^ 61
      → (add_names realloc (added l) ts ≡ failed)
        ⊎ ((l' : StringList) × (add_names realloc (added l) ts ≡ added l')
            × Holds (ss ++ named_ones ts) l')
  unfolding add_names
  add_names_lem ss l [] p small = inr (l, refl, subst (λ x. Holds x l) (sym (append-nil ss)) p)
  add_names_lem ss l (t ∷ ts) p small =
      elim (string_list_add-Holds realloc ss l t r p (omega (arith, small, flat-length t ts))) [
        | inl e ↦ inl (ap (λ x. add_names realloc x ts) e ∙ add_names-failed ts)
        | inr (l', e, q) ↦
            elim (add_names_lem (with_name ss t) l' ts q
              (omega (arith, small, flat-length t ts, with_name-length ss t))) [
                | inl f ↦ inl (ap (λ x. add_names realloc x ts) e ∙ f)
                | inr (l'', f, q') ↦ inr (
                  l'',
                  ap (λ x. add_names realloc x ts) e ∙ f,
                  subst (λ x. Holds x l'') (with_name_lem ss t ts) q',
                )
              ]
      ]

-- The loop reads the first name up to its NUL.
split_first-name :
    (s : Bytes) (rest : Bytes) → IsName s → split_first 0 (s ++ (0 ∷ rest)) ≡ some (s, rest)
unfolding split_first
split_first-name [] rest a = refl
split_first-name (c ∷ s) rest a = rw (a.0, split_first-name s rest a.1) refl

-- A name that is not empty.
abbrev IsKept : Bytes → Type 0
IsKept s = IsName s × (non_empty s ≡ true)

named_ones-IsKept : (ss : List Bytes) → All IsName ss → All IsKept (named_ones ss)
named_ones-IsKept [] a = tt
named_ones-IsKept ([] ∷ ss) a = named_ones-IsKept ss a.1
named_ones-IsKept ((c ∷ s) ∷ ss) a = ((a.0, refl), named_ones-IsKept ss a.1)

split_first-flat :
    (s : Bytes) (ns : List Bytes) (rest : Bytes)
    → IsName s
    → split_first 0 (flat (s ∷ ns) ++ (0 ∷ rest)) ≡ some (s, flat ns ++ (0 ∷ rest))
split_first-flat s ns rest a =
    ap (split_first 0) (append_assoc s (0 ∷ flat ns) (0 ∷ rest))
    ∙ split_first-name s (flat ns ++ (0 ∷ rest)) a

print_now : ℕ → Option (Bytes × Bytes) → Option Bytes
print_now f now =
    print_turn now (next_name (split_first 0 (behind now))) (print_interfaces f (behind now))

-- The names of a block that ends them with an empty one.
print_interfaces_lem :
    (ns : List Bytes) (rest : Bytes) (f : ℕ)
    → All IsKept ns
    → length ns ≤ f
    → print_interfaces (suc f) (flat ns ++ (0 ∷ rest)) ≡ some (joined_names ns)
unfolding print_interfaces split_first print_now
print_interfaces_lem [] rest f a h = refl
print_interfaces_lem ([] ∷ ns) rest f a h = absurd (false-ne-true a.0.1)
print_interfaces_lem ((c ∷ s) ∷ ns) rest zero a h = absurd (omega (arith, h))
print_interfaces_lem ((c ∷ s) ∷ []) rest (suc f) a h =
    ap (print_now (suc f)) (split_first-flat (c ∷ s) [] rest a.0.0)
print_interfaces_lem ((c ∷ s) ∷ [] ∷ ns) rest (suc f) a h = absurd (false-ne-true a.1.0.1)
print_interfaces_lem ((c ∷ s) ∷ (d ∷ t) ∷ ns) rest (suc f) a h =
    ap (print_now (suc f)) (split_first-flat (c ∷ s) ((d ∷ t) ∷ ns) rest a.0.0)
    ∙ ap₂ (print_name (c ∷ s)) (ap next_name (split_first-flat (d ∷ t) ns rest a.1.0.0))
        (print_interfaces_lem ((d ∷ t) ∷ ns) rest f a.1 (omega (arith, h)))

flat-long : (ns : List Bytes) → length ns ≤ length (flat ns)
flat-long [] = omega arith
flat-long (s ∷ ns) = omega (arith, flat-long ns, flat-length s ns)

-- The block of a list that holds these names prints as them.
block_lem :
    (ns : List Bytes) (l : StringList)
    → Holds ns l
    → All IsKept ns
    → print_interfaces (suc (length (list_block l))) (list_block l) ≡ some (joined_names ns)
unfolding print_interfaces split_first
block_lem ns l ([], p0, p1, p2, p3, p4) a =
    let b : l.buffer ≡ [] = p0 ∙ append-nil (flat ns) ∙ ap flat p4 in
    let e : (l.cap == 0) ≡ true = ground (arith, p2, ap length b) in
    rw e (ap (λ x. some (joined_names x)) (sym p4))
block_lem ns l (c ∷ rest, p0, p1, p2, p3, p4) a =
    let b : l.buffer ≡ flat ns ++ (0 ∷ rest) = p0 ∙ ap (λ x. flat ns ++ (x ∷ rest)) p4 in
    let n : length l.buffer ≡ length (flat ns) + suc (length rest) =
      ap length b ∙ length-append (flat ns) (0 ∷ rest) in
    let e : (l.cap == 0) ≡ false = ground (arith, p2, n) in
    rw e (
      ap (print_interfaces (suc (length l.buffer))) b
      ∙ print_interfaces_lem ns rest (length l.buffer) a (omega (arith, n, flat-long ns)))

named_ones-append : (ss ts : List Bytes) → named_ones ss ++ named_ones ts ≡ named_ones (ss ++ ts)
named_ones-append [] ts = refl
named_ones-append ([] ∷ ss) ts = named_ones-append ss ts
named_ones-append ((c ∷ s) ∷ ss) ts = ap (◌∷◌ (c ∷ s)) (named_ones-append ss ts)

flat-named_ones : (ss : List Bytes) → length (flat (named_ones ss)) ≤ length (flat ss)
flat-named_ones [] = omega arith
flat-named_ones ([] ∷ ss) = omega (arith, flat-named_ones ss)
flat-named_ones ((c ∷ s) ∷ ss) =
    omega (arith, flat-named_ones ss, flat-length (c ∷ s) ss, flat-length (c ∷ s) (named_ones ss))

-- Where realloc keeps the bytes of a block and gives the size that is asked, the names have no NUL
-- and take 2 ^ 61 bytes at most, ipc_list_devices writes within its block. It fails, or gives a
-- block that `wg show interfaces` prints without reading beyond it: the names of the kernel and
-- then those of the sockets, without the empty ones, with spaces between them and a newline.
pub ipc_list_devices_lem :
    (realloc : Bytes → ℕ → Option Bytes) (kernel userspace : List Bytes)
    → IsRealloc realloc
    → All IsName (kernel ++ userspace)
    → length (flat kernel) + length (flat userspace) ≤ 2 ^ 61
    → (ipc_list_devices realloc kernel userspace ≡ not_listed)
      ⊎ ((block : Bytes) × (ipc_list_devices realloc kernel userspace ≡ listed block)
          × (print_interfaces (suc (length block)) block
              ≡ some (joined_names (named_ones (kernel ++ userspace)))))
unfolding ipc_list_devices
ipc_list_devices_lem realloc kernel userspace r a small =
    elim (add_names_lem realloc r [] empty_list kernel ([], refl, refl, refl, omega arith, refl)
      (omega (arith, small))) [
        | inl e ↦ inl (
            ap listed_end
              (ap (λ x. add_names realloc x userspace) e ∙ add_names-failed realloc r userspace))
        | inr (l, e, p) ↦
            elim (add_names_lem realloc r (named_ones kernel) l userspace p
              (omega (arith, small, flat-named_ones kernel))) [
                | inl f ↦ inl (ap listed_end (ap (λ x. add_names realloc x userspace) e ∙ f))
                | inr (l', f, q) ↦ inr (
                  list_block l',
                  ap listed_end (ap (λ x. add_names realloc x userspace) e ∙ f),
                  block_lem (named_ones (kernel ++ userspace)) l'
                      (subst (λ x. Holds x l') (named_ones-append kernel userspace) q)
                      (named_ones-IsKept (kernel ++ userspace) a),
                )
              ]
      ]
