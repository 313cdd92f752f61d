-- ===== src/Ipc/Room.antt =====
-- The block of a string list, and that string_list_add stays in it.
use wireguard_android_expres.Base.{
  ℕ, zero, suc, ◌+◌, ◌-◌, ◌*◌, ◌%◌, ◌^◌, ◌≤◌, ◌<◌, ◌≡◌, ◌⊎◌, inl, inr, refl, sym, ap, ap₂, ◌∙◌,
  arith, true, false, Bool-cases, ◌==◌, leb, le→leb, Option, none, some, List, [], ◌∷◌, ◌++◌,
  append_assoc, Bytes, length, length-append, take, drop,
}
use wireguard_android_expres.Ipc.{
  size_limit, StringList, added, failed, write, new_cap, resized, make_room, ended, terminated,
  stored, string_list_add,
}

-- The strings one after the other, each with its NUL.
abbrev pub flat : List Bytes → Bytes
flat [] = []
flat (s ∷ ss) = s ++ (0 ∷ flat ss)

pub flat-append : (ss ts : List Bytes) → flat (ss ++ ts) ≡ flat ss ++ flat ts
flat-append [] ts = refl
flat-append (s ∷ ss) ts =
    ap (λ t. s ++ (0 ∷ t)) (flat-append ss ts) ∙ sym (append_assoc s (0 ∷ flat ss) (flat ts))

-- What stands behind the strings: a NUL, or nothing in a list that has no block yet.
abbrev pub EndsNul : List Bytes → Bytes → Type 0
EndsNul ss [] = ss ≡ []
EndsNul ss (c ∷ rest) = c ≡ 0

-- A list of these strings, whose block is no larger than twice what they take and one more.
abbrev pub Holds : List Bytes → StringList → Type 0
Holds ss l =
    (rest : Bytes) × (l.buffer ≡ flat ss ++ rest)
    × (l.len ≡ length (flat ss))
    × (l.cap ≡ length l.buffer)
    × (l.cap ≤ 2 * l.len + 1)
    × EndsNul ss rest

-- What is asked of realloc: where it succeeds, a block of that size that keeps the bytes.
abbrev pub IsRealloc : (Bytes → ℕ → Option Bytes) → Type 0
IsRealloc realloc =
    (block : Bytes) (n : ℕ) (r : Bytes)
    → length block ≤ n
    → realloc block n ≡ some r
    → (fresh : Bytes) × (r ≡ block ++ fresh) × (length r ≡ n)

take-append : (a b : Bytes) → take (length a) (a ++ b) ≡ a
take-append [] b = refl
take-append (c ∷ a) b = ap (◌∷◌ c) (take-append a b)

drop-length : (b c : Bytes) → drop (length b) (b ++ c) ≡ c
drop-length [] c = refl
drop-length (x ∷ b) c = drop-length b c

drop-append : (a b c : Bytes) → drop (length a + length b) (a ++ (b ++ c)) ≡ c
drop-append [] b c =
    let e : 0 + length b ≡ length b = omega arith in ap (λ k. drop k (b ++ c)) e ∙ drop-length b c
drop-append (x ∷ a) b c =
    let e : length (x ∷ a) + length b ≡ suc (length a + length b) = omega arith in
    ap (λ k. drop k ((x ∷ a) ++ (b ++ c))) e ∙ drop-append a b c

write_lem :
    (a b c bytes : Bytes)
    → length b ≡ length bytes
    → write (a ++ (b ++ c)) (length a) bytes ≡ some (a ++ (bytes ++ c))
unfolding write
write_lem a b c bytes e =
    let fits : leb (length a + length bytes) (length (a ++ (b ++ c))) ≡ true =
      le→leb _ _ (omega (arith, e, length-append a (b ++ c), length-append b c)) in
    rw fits (
      ap₂ (λ x y. some (x ++ (bytes ++ y))) (take-append a (b ++ c))
        (ap (λ k. drop (length a + k) (a ++ (b ++ c))) (sym e) ∙ drop-append a b c))

cut : (n : ℕ) (r : Bytes) → n ≤ length r → (x : Bytes) × (y : Bytes) × (r ≡ x ++ y) × (length x ≡ n)
cut zero r h = ([], r, refl, refl)
cut (suc n) [] h = absurd (omega arith)
cut (suc n) (c ∷ r) h = let p = cut n r (omega arith) in (c ∷ p.0, p.1, ap (◌∷◌ c) p.2, ap suc p.3)

-- Both writes are in the block where it has room for the string and two bytes behind it.
stored_lem :
    (ss : List Bytes) (s : Bytes) (l : StringList) (rest : Bytes)
    → l.buffer ≡ flat ss ++ rest
    → l.len ≡ length (flat ss)
    → length s + 2 ≤ length rest
    → (w : Bytes) × (stored (s ++ (0 ∷ [])) (some l)
        ≡ added (record l {
          buffer = flat (ss ++ (s ∷ [])) ++ (0 ∷ w);
          len = l.len + length (s ++ (0 ∷ []));
        }))
      × (length s + 2 + length w ≡ length rest)
stored_lem ss s l rest b n h =
    let t = s ++ (0 ∷ []) in
    let t_len : length t ≡ length s + 1 = length-append s (0 ∷ []) in
    let x = cut (length t) rest (omega (arith, t_len)) in
    let r_len : length rest ≡ length x.0 + length x.1 = ap length x.2 ∙ length-append x.0 x.1 in
    let z = cut 1 x.1 (omega (arith, t_len, r_len, x.3)) in
    let y_len : length x.1 ≡ length z.0 + length z.1 = ap length z.2 ∙ length-append z.0 z.1 in
    let first : write l.buffer l.len t ≡ some (flat ss ++ (t ++ x.1)) =
      ap₂ (λ b' k. write b' k t) (b ∙ ap (λ r. flat ss ++ r) x.2) n
      ∙ write_lem (flat ss) x.0 x.1 t x.3 in
    let second : write (flat ss ++ (t ++ x.1)) (l.len + length t) (0 ∷ [])
        ≡ some ((flat ss ++ t) ++ ((0 ∷ []) ++ z.1)) =
      ap₂ (λ b' k. write b' k (0 ∷ []))
        (ap (λ y. flat ss ++ (t ++ y)) z.2 ∙ sym (append_assoc (flat ss) t (z.0 ++ z.1)))
        (ap (λ k. k + length t) n ∙ sym (length-append (flat ss) t))
      ∙ write_lem (flat ss ++ t) z.0 z.1 (0 ∷ []) z.3 in
    (
      z.1,
      ap (terminated l (length t)) first
          ∙ ap (ended l (length t)) second
          ∙ ap (λ f. added (record l { buffer = f ++ (0 ∷ z.1); len = l.len + length t }))
              (sym (flat-append ss (s ∷ []))),
      omega (arith, t_len, r_len, x.3, y_len, z.3),
    )

-- What make_room gives: nothing, or a block with the same strings and room for n bytes and one.
abbrev HasRoom : List Bytes → StringList → ℕ → StringList → Type 0
HasRoom ss l n l' =
    (rest : Bytes) × (l'.buffer ≡ flat ss ++ rest)
    × (l'.len ≡ l.len)
    × (n + 1 ≤ length rest)
    × (l'.cap ≡ length l'.buffer)
    × (l'.cap ≤ 2 * (l.len + n) + 1)

new_cap_lem :
    (l : StringList) (n : ℕ)
    → l.cap ≤ l.len + n
    → l.len + n ≤ 2 ^ 61
    → (l.len + n + 1 ≤ new_cap l n) × (l.cap ≤ new_cap l n) × (new_cap l n ≤ 2 * (l.len + n) + 1)
unfolding new_cap
new_cap_lem l n c small = ground arith

make_room_lem :
    (realloc : Bytes → ℕ → Option Bytes) (ss : List Bytes) (l : StringList) (n : ℕ)
    → IsRealloc realloc
    → Holds ss l
    → length (flat ss) + n ≤ 2 ^ 61
    → (make_room realloc l n ≡ none)
      ⊎ ((l' : StringList) × (make_room realloc l n ≡ some l') × HasRoom ss l n l')
unfolding make_room
make_room_lem realloc ss l n r p small =
    let b_len : length l.buffer ≡ length (flat ss) + length p.0 =
      ap length p.1 ∙ length-append (flat ss) p.0 in
    let inside : l.len ≤ l.cap = omega (arith, p.2, p.3, b_len) in
    let spare : (l.cap + size_limit - l.len) % size_limit ≡ l.cap - l.len =
      omega (arith, p.2, p.4, inside, small) in
    elim (Bool-cases (leb (l.cap - l.len) n)) [
      | inl e ↦
          let full : l.cap ≤ l.len + n = ground (arith, e, inside) in
          rw (spare, e)
            (answer b_len full (new_cap_lem l n full (omega (arith, p.2, small)))
              (realloc l.buffer (new_cap l n)) refl)
      | inr e ↦
          let free : n < l.cap - l.len = ground (arith, e) in
          rw (spare, e)
            (inr (
              l,
              refl,
              (p.0, p.1, refl, omega (arith, p.2, p.3, b_len, free), p.3, omega (arith, p.4)),
            ))
    ]
  where
    answer :
        length l.buffer ≡ length (flat ss) + length p.0
        → l.cap ≤ l.len + n
        → (l.len + n + 1 ≤ new_cap l n)
          × (l.cap ≤ new_cap l n)
          × (new_cap l n ≤ 2 * (l.len + n) + 1)
        → (o : Option Bytes) → realloc l.buffer (new_cap l n) ≡ o
        → (resized l (new_cap l n) o ≡ none)
          ⊎ ((l' : StringList) × (resized l (new_cap l n) o ≡ some l') × HasRoom ss l n l')
    answer b_len full c none g = inl refl
    answer b_len full c (some block) g =
        let k = r l.buffer (new_cap l n) block (omega (arith, p.3, c.1)) g in
        let k_len : length block ≡ length l.buffer + length k.0 =
          ap length k.1 ∙ length-append l.buffer k.0 in
        inr (
          record l { buffer = block; cap = new_cap l n },
          refl,
          (
            p.0 ++ k.0,
            k.1 ∙ ap (λ b. b ++ k.0) p.1 ∙ append_assoc (flat ss) p.0 k.0,
            refl,
            omega (arith, p.2, c.0, k.2, k_len, b_len, length-append p.0 k.0),
            sym k.2,
            c.2,
          ),
        )

-- The strings of a list after one is added; an empty one is not kept.
abbrev pub with_name : List Bytes → Bytes → List Bytes
with_name ss [] = ss
with_name ss (c ∷ s) = ss ++ ((c ∷ s) ∷ [])

-- In a list that holds some strings, in a block of twice their bytes and one at most, and where
-- realloc keeps the bytes of a block and gives the size that is asked, string_list_add fails or
-- gives a list that holds the string behind the others, in a block of twice their bytes and one at
-- most, and writes nothing beyond a block, for up to 2 ^ 61 bytes in all. An empty string is not
-- added.
pub string_list_add-Holds :
    (realloc : Bytes → ℕ → Option Bytes) (ss : List Bytes) (l : StringList) (s : Bytes)
    → IsRealloc realloc
    → Holds ss l
    → length (flat ss) + length s + 1 ≤ 2 ^ 61
    → (string_list_add realloc l s ≡ failed)
      ⊎ ((l' : StringList) × (string_list_add realloc l s ≡ added l') × Holds (with_name ss s) l')
unfolding string_list_add
string_list_add-Holds realloc ss l [] r p small = inr (l, refl, p)
string_list_add-Holds realloc ss l (c ∷ s) r p small =
    let some_bytes : (length (c ∷ s) + 1 == 1) ≡ false = ground arith in
    rw some_bytes
      (elim (make_room_lem realloc ss l (length (c ∷ s) + 1) r p (omega (arith, small))) [
        | inl e ↦ inl (ap (stored ((c ∷ s) ++ (0 ∷ []))) e)
        | inr (l', e, q) ↦
            let t = stored_lem ss (c ∷ s) l' q.0 q.1 (q.2 ∙ p.2) (omega (arith, q.3)) in
            let text = (c ∷ s) ++ (0 ∷ []) in
            let text_len : length text ≡ length (c ∷ s) + 1 = length-append (c ∷ s) (0 ∷ []) in
            let all = flat (ss ++ ((c ∷ s) ∷ [])) in
            let all_len : length all ≡ length (flat ss) + length text =
              ap length (flat-append ss ((c ∷ s) ∷ [])) ∙ length-append (flat ss) text in
            inr (
              record l' { buffer = all ++ (0 ∷ t.0); len = l'.len + length text },
              ap (stored text) e ∙ t.1,
              (
                0 ∷ t.0,
                refl,
                omega (arith, p.2, q.2, all_len),
                omega (
                  arith,
                  q.4,
                  ap length q.1,
                  length-append (flat ss) q.0,
                  t.2,
                  all_len,
                  length-append all (0 ∷ t.0),
                  text_len,
                ),
                omega (arith, q.5, q.2, text_len),
                refl,
              ),
            )
      ])
