-- ===== src/Config/Blanks.antt =====
-- What `config_read_line` passes over: comments, and spaces anywhere in a line.
use wireguard_android_expres.Base.{
  ℕ, ◌%◌, ◌<◌, ◌≡◌, refl, sym, ◌∙◌, arith, Bool, true, false, ◌==◌, if◌then◌else◌, Option, none,
  some, [], ◌∷◌, ◌++◌, Bytes, split_first, Bool-cases, inl, inr, char_word,
}
use wireguard_android_expres.Ctype.{char_is_space}
use wireguard_android_expres.Ctype.Laws.{is_space, char_is_space-is_space}
use wireguard_android_expres.Host.{Host}
use wireguard_android_expres.Config.Line.{ConfigCtx, strip_spaces, uncomment, config_read_line}

-- The text before the first `#` that a search found, if it found one.
abbrev kept : Bytes → Option (Bytes × Bytes) → Bytes
kept xs r = elim r [ none ↦ xs | some (a, _) ↦ a ]

kept-cons :
    (x : ℕ) (xs : Bytes) (r : Option (Bytes × Bytes)) (stop : Bool)
    → kept
        (x ∷ xs)
        (if stop then some ([], xs) else elim r [ none ↦ none | some (a, b) ↦ some (x ∷ a, b) ])
      ≡ (if stop then [] else x ∷ kept xs r)
kept-cons x xs r true = refl
kept-cons x xs none false = refl
kept-cons x xs (some r) false = refl

pub uncomment-cons :
    (x : ℕ) (xs : Bytes) → uncomment (x ∷ xs) ≡ (if x == b'#' then [] else x ∷ uncomment xs)
unfolding uncomment split_first
uncomment-cons x xs = kept-cons x xs (split_first b'#' xs) (x == b'#')

pub uncomment-nil : uncomment [] ≡ []
unfolding uncomment split_first
uncomment-nil = refl

uncomment-append : (a b : Bytes) → uncomment (a ++ (b'#' ∷ b)) ≡ uncomment a
uncomment-append [] b = uncomment-cons b'#' b ∙ sym uncomment-nil
uncomment-append (x ∷ a) b =
    rw (uncomment-cons x (a ++ (b'#' ∷ b)), uncomment-cons x a, uncomment-append a b) refl

-- A space is no comment, and stripped for either kind of `char`.
space_byte : (c : ℕ) → is_space c ≡ true → (c < 128) × ((c == b'#') ≡ false)
space_byte c h = ground arith

pub strip_space : (s : Bool) (c : ℕ) → is_space c ≡ true → char_is_space (char_word s c) ≡ true
strip_space s c h =
    let b = space_byte c h in
    let w : char_word s c ≡ c = ground arith in
    let m : c % 256 ≡ c = omega arith in rw w (char_is_space-is_space c (omega arith) ∙ rw m h)

strip_insert :
    (s : Bool) (c : ℕ) (a b : Bytes)
    → is_space c ≡ true
    → strip_spaces s (uncomment (a ++ (c ∷ b))) ≡ strip_spaces s (uncomment (a ++ b))
unfolding strip_spaces
strip_insert s c [] b h =
    let e = (space_byte c h).1 in rw (uncomment-cons c b, e, strip_space s c h) refl
strip_insert s c (x ∷ a) b h =
    let r = strip_insert s c a b h in
    rw (uncomment-cons x (a ++ (c ∷ b)), uncomment-cons x (a ++ b))
      (elim (Bool-cases (x == b'#')) [ inl e ↦ rw e refl | inr e ↦ rw (e, r) refl ])

-- A comment ends a line: what stands from `#` on, the line is read the same without it.
pub config_read_line_comment :
    (h : Host) (fuel : ℕ) (ctx : ConfigCtx) (a b : Bytes)
    → config_read_line h fuel ctx (a ++ (b'#' ∷ b)) ≡ config_read_line h fuel ctx a
unfolding config_read_line
config_read_line_comment h fuel ctx a b = rw (uncomment-append a b) refl

-- A space that stands anywhere in a line changes nothing: the line is read the same without it.
pub config_read_line_space :
    (h : Host) (fuel : ℕ) (ctx : ConfigCtx) (c : ℕ) (a b : Bytes)
    → is_space c ≡ true
    → config_read_line h fuel ctx (a ++ (c ∷ b)) ≡ config_read_line h fuel ctx (a ++ b)
unfolding config_read_line
config_read_line_space h fuel ctx c a b e = rw (strip_insert h.signed_char c a b e) refl
