-- ===== src/Uapi/Endpoints.antt =====
-- The endpoint that `userspace_set_device` prints, cut again by `parse_endpoint` and its copy in
-- `userspace_get_device`.
use wireguard_android_expres.Base.{
  ℕ, ◌≡◌, ◌≢◌, refl, sym, ◌∙◌, arith, Bool, true, false, ◌==◌, ◌&&◌, ◌||◌, if◌then◌else◌, Option,
  none, some, ◌>>=◌, [], ◌∷◌, ◌++◌, Bytes, length, char_at, split_first, split_last, Bool-cases,
  inl, inr,
}
use wireguard_android_expres.Config.Fields.{has_char}
use wireguard_android_expres.Config.Endpoint.{split_bracketed, split_plain, split_endpoint}
use wireguard_android_expres.Uapi.Set.{print_named}

-- What a search finds in a text with one more character, and whether it finds something.
abbrev found_in : ℕ → Bytes → Bool → Option (Bytes × Bytes) → Option (Bytes × Bytes)
found_in x xs stop r =
    if stop then some ([], xs) else elim r [ none ↦ none | some (a, b) ↦ some (x ∷ a, b) ]

abbrev is_found : Option (Bytes × Bytes) → Bool
is_found r = elim r [ none ↦ false | some _ ↦ true ]

is_found-found_in :
    (x : ℕ) (xs : Bytes) (stop : Bool) (r : Option (Bytes × Bytes))
    → is_found (found_in x xs stop r) ≡ (stop || is_found r)
is_found-found_in x xs true r = refl
is_found-found_in x xs false none = refl
is_found-found_in x xs false (some p) = refl

pub has_char-cons : (c x : ℕ) (xs : Bytes) → has_char c (x ∷ xs) ≡ (x == c || has_char c xs)
unfolding has_char split_first
has_char-cons c x xs = is_found-found_in x xs (x == c) (split_first c xs)

pub or-false : (a b : Bool) → (a || b) ≡ false → (a ≡ false) × (b ≡ false)
or-false a b h = ground arith

-- A search finds the separator behind a text that has none.
pub split_first-append :
    (c : ℕ) (a b : Bytes) → has_char c a ≡ false → split_first c (a ++ (c ∷ b)) ≡ some (a, b)
unfolding split_first
split_first-append c [] b h = let e : (c == c) ≡ true = ground arith in rw e refl
split_first-append c (x ∷ a) b h =
    let (out, rest) = or-false (x == c) (has_char c a) (sym (has_char-cons c x a) ∙ h) in
    rw (out, split_first-append c a b rest) refl

split_last-none : (c : ℕ) (b : Bytes) → has_char c b ≡ false → split_last c b ≡ none
unfolding split_last
split_last-none c [] h = refl
split_last-none c (x ∷ b) h =
    let (out, rest) = or-false (x == c) (has_char c b) (sym (has_char-cons c x b) ∙ h) in
    rw (split_last-none c b rest, split_last) (rw out refl)

-- A search from the end finds the separator before a text that has none.
split_last-append :
    (c : ℕ) (a b : Bytes) → has_char c b ≡ false → split_last c (a ++ (c ∷ b)) ≡ some (a, b)
unfolding split_last
split_last-append c [] b h =
    let e : (c == c) ≡ true = ground arith in rw (split_last-none c b h, split_last) (rw e refl)
split_last-append c (x ∷ a) b h = rw (split_last-append c a b h, split_last) refl

non_zero : (s : Bytes) → s ≢ [] → (length s == 0) ≡ false
non_zero [] h = absurd (h refl)
non_zero (x ∷ s) h = ground arith

length-cons : (x : ℕ) (s : Bytes) → (length (x ∷ s) == 0) ≡ false
length-cons x s = ground arith

bracketed :
    (host service : Bytes)
    → has_char b']' host ≡ false
    → service ≢ []
    → split_endpoint (b'[' ∷ (host ++ (b']' ∷ (b':' ∷ service)))) ≡ some (host, service)
unfolding split_endpoint split_bracketed
bracketed host service h s =
    let e : has_char b']' (b'[' ∷ host) ≡ false = has_char-cons b']' b'[' host ∙ h in
    rw
      (
        split_first-append b']' (b'[' ∷ host) (b':' ∷ service) e,
        non_zero service s,
        length-cons b'[' (host ++ (b']' ∷ (b':' ∷ service))),
      )
      refl

plain :
    (host service : Bytes)
    → (char_at host 0 == b'[') ≡ false
    → has_char b':' service ≡ false
    → service ≢ []
    → split_endpoint (host ++ (b':' ∷ service)) ≡ some (host, service)
unfolding split_endpoint split_plain
plain [] service h k s =
    rw (split_last-append b':' [] service k, non_zero service s, length-cons b':' service) refl
plain (x ∷ host) service h k s =
    rw
      (
        h,
        split_last-append b':' (x ∷ host) service k,
        non_zero service s,
        length-cons x (host ++ (b':' ∷ service)),
      )
      refl

-- The endpoint that `userspace_set_device` prints is cut into the same host and service again,
-- with and without brackets, for a host that has no `]` and does not begin with `[` and a service
-- that is not empty and has no colon, as numeric names are.
pub split_endpoint-print_named :
    (six : Bool) (host service : Bytes)
    → has_char b']' host ≡ false
    → (char_at host 0 == b'[') ≡ false
    → has_char b':' service ≡ false
    → service ≢ []
    → (print_named six (some (host, service)) >>= split_endpoint) ≡ some (host, service)
unfolding print_named
split_endpoint-print_named six host service h b k s =
    elim (Bool-cases (six && has_char b':' host)) [
      | inl e ↦ rw e (bracketed host service h s)
      | inr e ↦ rw e (plain host service b k s)
    ]
