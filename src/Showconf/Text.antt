-- ===== src/Showconf/Text.antt =====
-- Text without spaces and comments, and what `config_read_line` makes of it.
use wireguard_android_expres.Base.{
  append_assoc, append-nil, ℕ, ◌%◌, ◌<◌, ◌≡◌, refl, ap, ap₂, ◌∙◌, arith, Bool, true, false, ◌&&◌,
  not, ◌==◌, ltb, if◌then◌else◌, List, [], ◌∷◌, ◌++◌, Bytes, length, All, All-append, Bool-cases,
  inl, inr, char_word,
}
use wireguard_android_expres.Ctype.{char_is_space}
use wireguard_android_expres.Ctype.Laws.{is_space, char_is_space-is_space}
use wireguard_android_expres.Host.{Host}
use wireguard_android_expres.Config.Endpoint.{ok}
use wireguard_android_expres.Config.Line.{
  ConfigCtx, process_line, strip_spaces, uncomment, config_read_line, config_read_lines,
}
use wireguard_android_expres.Showconf.{setting, when_line}
use wireguard_android_expres.Config.Blanks.{uncomment-cons, uncomment-nil, strip_space}

-- A character of a setting: in ASCII, no space and no `#`.
abbrev pub is_clean : ℕ → Bool
is_clean c = ltb c 128 && not (is_space c) && not (c == b'#')

abbrev pub IsClean : ℕ → Type 0
IsClean c = is_clean c ≡ true

abbrev pub all_clean : Bytes → Bool
all_clean [] = true
all_clean (c ∷ t) = is_clean c && all_clean t

all_clean_lem : (t : Bytes) → all_clean t ≡ true → All IsClean t
all_clean_lem [] e = tt
all_clean_lem (c ∷ t) e = (ground (arith, e), all_clean_lem t (ground (arith, e)))

-- A character that may stand in a line before any comment.
abbrev pub IsPlain : ℕ → Type 0
IsPlain c = (c == b'#') ≡ false

pub uncomment_plain : (t : Bytes) → All IsPlain t → uncomment t ≡ t
uncomment_plain [] a = uncomment-nil
uncomment_plain (c ∷ t) a = rw (uncomment-cons c t, a.0, uncomment_plain t a.1) refl

pub IsClean-IsPlain : (t : Bytes) → All IsClean t → All IsPlain t
IsClean-IsPlain [] a = tt
IsClean-IsPlain (c ∷ t) a = (ground (arith, a.0), IsClean-IsPlain t a.1)

clean_kept : (s : Bool) (c : ℕ) → IsClean c → char_is_space (char_word s c) ≡ false
clean_kept s c e =
    let small : c < 128 = ground arith in
    let w : char_word s c ≡ c = ground arith in
    let m : c % 256 ≡ c = omega arith in
    let no : is_space c ≡ false = ground arith in
    rw w (char_is_space-is_space c (omega arith) ∙ rw m no)

pub strip_spaces-append :
    (s : Bool) (a b : Bytes) → strip_spaces s (a ++ b) ≡ strip_spaces s a ++ strip_spaces s b
unfolding strip_spaces
strip_spaces-append s [] b = refl
strip_spaces-append s (c ∷ a) b = elim (Bool-cases (char_is_space (char_word s c))) [
  | inl e ↦ rw e (strip_spaces-append s a b)
  | inr e ↦ rw e (ap (◌∷◌ c) (strip_spaces-append s a b))
]

pub strip_clean : (s : Bool) (t : Bytes) → All IsClean t → strip_spaces s t ≡ t
unfolding strip_spaces
strip_clean s [] a = refl
strip_clean s (c ∷ t) a = rw (clean_kept s c a.0) (ap (◌∷◌ c) (strip_clean s t a.1))

pub strip_blank :
    (s : Bool) (c : ℕ) (t : Bytes) → is_space c ≡ true → strip_spaces s (c ∷ t) ≡ strip_spaces s t
unfolding strip_spaces
strip_blank s c t e = rw (strip_space s c e) refl

-- A line that is plain and not blank is handed to process_line without its spaces.
pub read_plain :
    (h : Host) (fuel : ℕ) (ctx : ConfigCtx) (line stripped : Bytes)
    → All IsPlain line
    → strip_spaces h.signed_char line ≡ stripped
    → (length stripped == 0) ≡ false
    → config_read_line h fuel ctx line ≡ process_line h fuel ctx stripped
unfolding config_read_line
read_plain h fuel ctx line stripped p e n = rw (uncomment_plain line p, e, n) refl

-- A line of spaces only leaves the context.
pub read_blank :
    (h : Host) (fuel : ℕ) (ctx : ConfigCtx) → config_read_line h fuel ctx (b'\n' ∷ []) ≡ ok ctx
unfolding config_read_line strip_spaces
read_blank h fuel ctx =
    rw (uncomment_plain (b'\n' ∷ []) (refl, tt), strip_blank h.signed_char b'\n' [] refl) refl

non_zero : (a b : Bytes) → (length (a ++ (b'=' ∷ b)) == 0) ≡ false
non_zero [] b = ground arith
non_zero (x ∷ a) b = ground arith

newline : (s : Bool) → strip_spaces s (b'\n' ∷ []) ≡ []
newline s = strip_blank s b'\n' [] refl ∙ strip_clean s [] tt

strip_setting :
    (s : Bool) (key value : Bytes)
    → strip_spaces s (setting key value) ≡ strip_spaces s key ++ (b'=' ∷ strip_spaces s value)
strip_setting s key value =
    strip_spaces-append s key (b' ' ∷ b'=' ∷ b' ' ∷ (value ++ (b'\n' ∷ [])))
    ∙ ap (λ t. strip_spaces s key ++ t)
        (strip_blank s b' ' (b'=' ∷ b' ' ∷ (value ++ (b'\n' ∷ []))) refl
          ∙ strip_spaces-append s (b'=' ∷ []) (b' ' ∷ (value ++ (b'\n' ∷ [])))
          ∙ ap₂ ◌++◌ (strip_clean s (b'=' ∷ []) (refl, tt)) (
              strip_blank s b' ' (value ++ (b'\n' ∷ [])) refl
              ∙ strip_spaces-append s value (b'\n' ∷ [])
              ∙ ap (λ t. strip_spaces s value ++ t) (newline s)
              ∙ append-nil (strip_spaces s value)))

module _ (h : Host) (fuel : ℕ) where
  -- Lines that are all taken, whatever follows them.
  abbrev pub Leads : ConfigCtx → List Bytes → ConfigCtx → Type 0
  Leads ctx ls ctx' =
      (ms : List Bytes) → config_read_lines h fuel ctx (ls ++ ms) ≡ config_read_lines h fuel ctx' ms

  pub Leads-cons :
      (ctx ctx' end : ConfigCtx) (l : Bytes) (ls : List Bytes)
      → config_read_line h fuel ctx l ≡ ok ctx'
      → Leads ctx' ls end
      → Leads ctx (l ∷ ls) end
  unfolding config_read_lines
  Leads-cons ctx ctx' end l ls e r ms = rw (e, config_read_lines) (r ms)

  pub Leads-append :
      (ctx mid end : ConfigCtx) (ls ks : List Bytes)
      → Leads ctx ls mid
      → Leads mid ks end
      → Leads ctx (ls ++ ks) end
  Leads-append ctx mid end ls ks r q ms =
      ap (config_read_lines h fuel ctx) (append_assoc ls ks ms) ∙ r (ks ++ ms) ∙ q ms

  pub Leads-one :
      (ctx ctx' : ConfigCtx) (l : Bytes)
      → config_read_line h fuel ctx l ≡ ok ctx'
      → Leads ctx (l ∷ []) ctx'
  Leads-one ctx ctx' l e = Leads-cons ctx ctx' ctx' l [] e (λ ms. refl)

  -- A line that stands under a condition.
  pub Leads-when :
      (b : Bool) (ctx ctx' : ConfigCtx) (l : Bytes)
      → (b ≡ true → config_read_line h fuel ctx l ≡ ok ctx')
      → Leads ctx (when_line b l) (if b then ctx' else ctx)
  Leads-when true ctx ctx' l e = Leads-one ctx ctx' l (e refl)
  Leads-when false ctx ctx' l e = λ ms. refl

  -- The heading of a section.
  pub read_heading :
      (ctx : ConfigCtx) (key : Bytes)
      → all_clean key ≡ true
      → (length key == 0) ≡ false
      → config_read_line h fuel ctx (key ++ (b'\n' ∷ [])) ≡ process_line h fuel ctx key
  read_heading ctx key k n =
      read_plain h fuel ctx (key ++ (b'\n' ∷ [])) key
        (All-append IsPlain key _ (IsClean-IsPlain key (all_clean_lem key k)) (refl, tt))
        (strip_spaces-append h.signed_char key (b'\n' ∷ [])
          ∙ ap₂ ◌++◌ (strip_clean h.signed_char key (all_clean_lem key k)) (newline h.signed_char)
          ∙ append-nil key)
        n

  -- A setting whose key and value are clean, or whose value loses its spaces.
  pub read_setting :
      (ctx : ConfigCtx) (key value stripped : Bytes)
      → all_clean key ≡ true
      → All IsPlain value
      → strip_spaces h.signed_char value ≡ stripped
      → config_read_line h fuel ctx (setting key value)
        ≡ process_line h fuel ctx (key ++ (b'=' ∷ stripped))
  read_setting ctx key value stripped k v e =
      read_plain h fuel ctx (setting key value) (key ++ (b'=' ∷ stripped))
        (All-append IsPlain key _ (IsClean-IsPlain key (all_clean_lem key k))
          (refl, (refl, (refl, All-append IsPlain value (b'\n' ∷ []) v (refl, tt)))))
        (strip_setting h.signed_char key value
          ∙ ap₂ (λ a b. a ++ (b'=' ∷ b)) (strip_clean h.signed_char key (all_clean_lem key k)) e)
        (non_zero key stripped)
