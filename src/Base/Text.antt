-- ===== src/Base/Text.antt =====
-- C strings as the list of their bytes before the terminator.
use Prim.Native.Nat.{ℕ, ◌+◌}
use Prim.Native.Char.{code}
use Prim.Native.String.{String}
use mathlib.Core.Path.{◌≡◌}
use mathlib.Core.Logic.{◌↔◌}
use mathlib.Core.Bool.{Bool, true, false, ◌&&◌}
use mathlib.Core.Option.{Option, none, some}
use mathlib.Core.List.{List, [], ◌∷◌}
use native.Mathlib.Omega.{arith}
use wireguard_android_expres.Base.Tests.{leb, ◌==◌, if◌then◌else◌}
use wireguard_android_expres.Base.Lists.{get_or}

abbrev pub Bytes : Type 0
Bytes = List ℕ

abbrev pub codes : String → Bytes
codes String.[] = []
codes (String.◌∷◌ c s) = code c ∷ codes s

-- `s[i]`, the terminator included.
abbrev pub char_at : Bytes → ℕ → ℕ
char_at s i = get_or s i 0

-- `!strcmp(a, b)`
unfoldable pub bytes_eq : Bytes → Bytes → Bool
bytes_eq [] [] = true
bytes_eq (x ∷ xs) (y ∷ ys) = x == y && bytes_eq xs ys
bytes_eq _ _ = false

pub bytes_eq_iff : (a b : Bytes) → (bytes_eq a b ≡ true) ↔ (a ≡ b)
unfolding bytes_eq
bytes_eq_iff (x ∷ a) (y ∷ b) = ground (arith, bytes_eq_iff a b)
bytes_eq_iff _ _ = ground arith

-- `tolower` of the C locale.
abbrev pub to_lower : ℕ → ℕ
to_lower c = if leb b'A' c && leb c b'Z' then c + 32 else c

-- `!strcasecmp(a, b)`
unfoldable pub caseless_eq : Bytes → Bytes → Bool
caseless_eq [] [] = true
caseless_eq (x ∷ xs) (y ∷ ys) = to_lower x == to_lower y && caseless_eq xs ys
caseless_eq _ _ = false

-- `!strncasecmp(a, b, strlen(b))`
unfoldable pub caseless_prefix : Bytes → Bytes → Bool
caseless_prefix s [] = true
caseless_prefix [] (k ∷ ks) = false
caseless_prefix (c ∷ s) (k ∷ ks) = to_lower c == to_lower k && caseless_prefix s ks

-- `strchr(s, c)`: the text before the first `c`, and the text behind it.
unfoldable pub split_first : ℕ → Bytes → Option (Bytes × Bytes)
split_first c [] = none
split_first c (x ∷ xs) =
    let rest = split_first c xs in
    if x == c then some ([], xs) else elim rest [ none ↦ none | some (a, b) ↦ some (x ∷ a, b) ]

-- `strrchr(s, c)`: the text before the last `c`, and the text behind it.
unfoldable pub split_last : ℕ → Bytes → Option (Bytes × Bytes)
split_last c [] = none
split_last c (x ∷ xs) = elim (split_last c xs) [
  | some (a, b) ↦ some (x ∷ a, b)
  | none ↦ if x == c then some ([], xs) else none
]
