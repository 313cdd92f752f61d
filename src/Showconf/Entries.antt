-- ===== src/Showconf/Entries.antt =====
-- The list of a peer's entries that showconf prints, read by parse_allowedips.
use wireguard_android_expres.Base.{
  ℕ, ◌≤◌, ◌<◌, ◌≡◌, refl, sym, ap, ap₂, ◌∙◌, arith, Bool, true, false, ◌||◌, ◌&&◌, ◌==◌, leb,
  if◌then◌else◌, Option, none, some, ◌>>=◌, List, [], ◌∷◌, ◌++◌, append_assoc, append-nil, Bytes,
  char_at, All, All-append, split_first,
}
use wireguard_android_expres.Ctype.Laws.{is_digit}
use wireguard_android_expres.Containers.{Family, af_unspec, af_inet, af_inet6, WgAllowedIp, WgPeer}
use wireguard_android_expres.Host.{Host}
use wireguard_android_expres.Config.Fields.{has_char, parse_ip}
use wireguard_android_expres.Config.AllowedIps.{
  max_cidr, with_cidr, entry, before_slash, behind_slash, parse_entry, parse_ip_prefix,
  allowedips_loop,
}
use wireguard_android_expres.Config.Decimal.{parse_cidr_lem, is_digit-all_digits}
use wireguard_android_expres.Config.Number.Digits.{all_digits}
use wireguard_android_expres.Uapi.Print.{decimal, Names}
use wireguard_android_expres.Uapi.Set.{print_ip}
use wireguard_android_expres.Uapi.Numbers.{decimal-Written, decimal_up_to-decimal, decimal-IsByte}
use wireguard_android_expres.Uapi.Endpoints.{has_char-cons, split_first-append}
use wireguard_android_expres.Showconf.{show_allowedip}
use wireguard_android_expres.Showconf.Text.{IsClean}
use wireguard_android_expres.Showconf.Values.{decimal-IsClean}

-- A character of a numeric address.
abbrev pub is_address_char : ℕ → Bool
is_address_char c = is_digit c || (leb b'a' c && leb c b'f') || c == b'.' || c == b':'

abbrev pub is_inet6 : Family → Bool
is_inet6 af_inet6 = true
is_inet6 _ = false

-- What is asked of the C library for an entry: `inet_ntop` prints the address, in the characters of
-- addresses and with a colon exactly for IPv6, and `inet_pton` reads it back. The entry has a
-- prefix length that fits and no flag.
abbrev pub IsPrinted : Host → Names → WgAllowedIp → Type 0
IsPrinted h n a =
    (t : Bytes) × (print_ip n a.family a.ip ≡ some t)
    × All (λ c. is_address_char c ≡ true) t
    × (has_char b':' t ≡ is_inet6 a.family)
    × (h.inet_pton a.family t ≡ some a.ip)
    × (a.cidr ≤ max_cidr a.family)
    × (a.flags ≡ 0)

abbrev pub text_of : Bytes → ℕ → Bytes
text_of t cidr = t ++ (b'/' ∷ decimal cidr)

-- None of the characters of a text is `c`.
abbrev pub Lacks : ℕ → Bytes → Type 0
Lacks c t = All (λ x. (x == c) ≡ false) t

Lacks-has_char : (c : ℕ) (t : Bytes) → Lacks c t → has_char c t ≡ false
unfolding has_char split_first
Lacks-has_char c [] a = refl
Lacks-has_char c (x ∷ t) a = has_char-cons c x t ∙ rw a.0 (Lacks-has_char c t a.1)

address-Lacks :
    (c : ℕ) (t : Bytes)
    → is_address_char c ≡ false
    → All (λ x. is_address_char x ≡ true) t
    → Lacks c t
address-Lacks c [] e a = tt
address-Lacks c (x ∷ t) e a =
    ((let d : (x == c) ≡ false = differ x c e a.0 in d), address-Lacks c t e a.1)
  where
    differ : (x c : ℕ) → is_address_char c ≡ false → is_address_char x ≡ true → (x == c) ≡ false
    differ x c e f = ground arith

address-IsClean : (t : Bytes) → All (λ c. is_address_char c ≡ true) t → All IsClean t
address-IsClean [] a = tt
address-IsClean (c ∷ t) a = ((let d : IsClean c = clean c a.0 in d), address-IsClean t a.1)
  where
    clean : (c : ℕ) → is_address_char c ≡ true → IsClean c
    clean c e = ground arith

digits-address : (t : Bytes) → all_digits 10 t ≡ true → All (λ c. is_address_char c ≡ true) t
digits-address [] e = tt
digits-address (c ∷ t) e =
    let d = is_digit-all_digits c t e in (ground (arith, d), digits-address t (ground (arith, e)))

decimal-address : (n : ℕ) → All (λ c. is_address_char c ≡ true) (decimal n)
decimal-address n = digits-address (decimal n) (decimal-Written n).0

-- The text of an entry.
pub text-Lacks :
    (c : ℕ) (t : Bytes) (cidr : ℕ)
    → is_address_char c ≡ false
    → (b'/' == c) ≡ false
    → All (λ x. is_address_char x ≡ true) t
    → Lacks c (text_of t cidr)
text-Lacks c t cidr e s a =
    All-append (λ x. (x == c) ≡ false) t (b'/' ∷ decimal cidr) (address-Lacks c t e a)
      (s, address-Lacks c (decimal cidr) e (decimal-address cidr))

pub text-IsClean :
    (t : Bytes) (cidr : ℕ) → All (λ x. is_address_char x ≡ true) t → All IsClean (text_of t cidr)
text-IsClean t cidr a =
    All-append IsClean t (b'/' ∷ decimal cidr) (address-IsClean t a) (refl, decimal-IsClean cidr)

before_lem : (text a m : Bytes) → split_first b'/' text ≡ some (a, m) → before_slash text ≡ a
before_lem text a m e = ap (λ r. elim r [ none ↦ text | some (x, _) ↦ x ]) e

behind_lem : (text a m : Bytes) → split_first b'/' text ≡ some (a, m) → behind_slash text ≡ some m
behind_lem text a m e = ap (λ r. elim r [ none ↦ none | some (_, y) ↦ some y ]) e

module _ (h : Host) (n : Names) where
  pub shown_text :
      (a : WgAllowedIp) (p : IsPrinted h n a) → show_allowedip n a ≡ some (text_of p.0 a.cidr)
  unfolding show_allowedip
  shown_text a p = rw p.1 refl

  entry_flags : (a : WgAllowedIp) → a.flags ≡ 0 → record a { flags = 0 } ≡ a
  entry_flags a e = ap (λ (f : ℕ). record a { flags = f }) (sym e)

  family_text :
      (f : Family) (t ip : Bytes) (found : Option Bytes)
      → has_char b':' t ≡ is_inet6 f
      → print_ip n f ip ≡ some t
      → (if has_char b':' t then af_inet6 else af_inet) ≡ f
  family_text af_unspec t ip found e p = cc
  family_text af_inet t ip found e p = rw e refl
  family_text af_inet6 t ip found e p = rw e refl

  parse_ip-printed :
      (a : WgAllowedIp) (p : IsPrinted h n a) → parse_ip h p.0 ≡ some (a.family, a.ip)
  unfolding parse_ip
  parse_ip-printed a p = rw (family_text a.family p.0 a.ip none p.3 p.1) (rw p.4 refl)

  pub parse_entry-printed :
      (a : WgAllowedIp) (p : IsPrinted h n a)
      → 128 < h.ulong_max
      → parse_entry h 0 (text_of p.0 a.cidr) ≡ some a
  unfolding parse_entry
  parse_entry-printed a p max =
      let no_slash = Lacks-has_char b'/' p.0 (address-Lacks b'/' p.0 refl p.2) in
      let cidr =
        parse_cidr_lem h a.family (decimal a.cidr) max (decimal-IsByte a.cidr)
        ∙ decimal_up_to-decimal (max_cidr a.family) a.cidr p.5 in
      let cut = split_first-append b'/' p.0 (decimal a.cidr) no_slash in
      let text = text_of p.0 a.cidr in
      ap₂ (λ b m. parse_ip h b >>= with_cidr h 0 m) (before_lem text p.0 (decimal a.cidr) cut)
        (behind_lem text p.0 (decimal a.cidr) cut)
      ∙ ap (λ r. r >>= with_cidr h 0 (some (decimal a.cidr))) (parse_ip-printed a p)
      ∙ ap (λ r. r >>= λ c. some (entry (a.family, a.ip) 0 c)) cidr
      ∙ ap some (entry_flags a p.6)

  -- No entry begins with `+` or `-`.
  no_sign :
      (t : Bytes) (cidr c : ℕ)
      → All (λ x. is_address_char x ≡ true) t
      → is_address_char c ≡ false
      → (b'/' == c) ≡ false
      → (char_at (text_of t cidr) 0 == c) ≡ false
  no_sign [] cidr c a e s = s
  no_sign (x ∷ t) cidr c a e s = (address-Lacks c (x ∷ t) e a).0

  pub prefix_lem :
      (flags cidr : ℕ) (t : Bytes)
      → All (λ x. is_address_char x ≡ true) t
      → parse_ip_prefix flags (text_of t cidr)
        ≡ record { flags = 0; peer_flags = flags; mask = text_of t cidr }
  unfolding parse_ip_prefix
  prefix_lem flags cidr t a =
      rw (no_sign t cidr b'-' a refl refl, no_sign t cidr b'+' a refl refl) refl

  unfoldable pub texts : (ips : List WgAllowedIp) → All (IsPrinted h n) ips → List Bytes
  texts [] p = []
  texts (a ∷ ips) p = text_of (p.0.0) a.cidr ∷ texts ips p.1

  -- The loop over the pieces, behind an entry.
  pub loop-printed :
      (ips : List WgAllowedIp) (p : All (IsPrinted h n) ips) (peer : WgPeer)
      → 128 < h.ulong_max
      → allowedips_loop h peer true (texts ips p)
        ≡ some (record peer { allowedips = peer.allowedips ++ ips }, true)
  unfolding allowedips_loop texts
  loop-printed [] p peer max =
      ap (λ l. some (record peer { allowedips = l }, true)) (sym (append-nil peer.allowedips))
  loop-printed (a ∷ ips) p peer max =
      rw (prefix_lem peer.flags a.cidr p.0.0 p.0.2, parse_entry-printed a p.0 max)
        (loop-printed ips p.1 (record peer { allowedips = peer.allowedips ++ (a ∷ []) }) max
          ∙ ap (λ l. some (record peer { allowedips = l }, true))
              (append_assoc peer.allowedips (a ∷ []) ips))
