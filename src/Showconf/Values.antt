-- ===== src/Showconf/Values.antt =====
-- The values that showconf prints are clean text, and read back.
use wireguard_android_expres.Base.{
  ℕ, zero, suc, ◌+◌, ◌*◌, ◌/◌, ◌%◌, ◌≤◌, ◌<◌, ◌≡◌, ◌≢◌, refl, sym, ap, ◌∙◌, arith, Bool, true,
  false, ◌&&◌, ◌==◌, ltb, ltb→lt, some, [], ◌∷◌, Bytes, length, codes, All, Bool-cases, inl, inr,
  all_below, all_below_sound, caseless_eq, subst, bit_and, bit_and_mask,
}
use wireguard_android_expres.Ctype.Laws.{is_digit}
use wireguard_android_expres.Encoding.{
  encode_sextet, encode_base64, key_to_base64_loop, key_to_base64,
}
use wireguard_android_expres.Encoding.Hex.{IsByte}
use wireguard_android_expres.Encoding.Base64.RoundTrip.{Triples, two, three, Triples-length}
use wireguard_android_expres.Config.Number.{digit_value}
use wireguard_android_expres.Config.Number.Digits.{all_digits, number, is_digit_of, digit_or}
use wireguard_android_expres.Containers.{WgPeer, WgDevice}
use wireguard_android_expres.Host.{Host}
use wireguard_android_expres.Config.Fields.{
  parse_fwmark, set_fwmark, parse_persistent_keepalive, set_keepalive,
}
use wireguard_android_expres.Config.Decimal.{parse_persistent_keepalive_lem, is_digit-all_digits}
use wireguard_android_expres.Config.Mark.{parse_fwmark_hex, not_off}
use wireguard_android_expres.Uapi.Numbers.{
  Written, decimal-Written, decimal-IsByte, decimal_up_to-decimal,
}
use wireguard_android_expres.Uapi.Print.{decimal, decimal_loop}
use wireguard_android_expres.Config.Valid.{non_empty}
use wireguard_android_expres.Showconf.{hex_digit, hex_loop, hexadecimal}
use wireguard_android_expres.Showconf.Text.{is_clean, IsClean}

sextet_table : all_below 64 (λ v. is_clean (encode_sextet v)) ≡ true
unfolding all_below encode_sextet
sextet_table = refl

sextet-IsClean : (v : ℕ) → IsClean (encode_sextet (bit_and v 63))
sextet-IsClean v =
    all_below_sound 64 (λ v. is_clean (encode_sextet v)) (bit_and v 63) sextet_table
      (omega (arith, bit_and_mask 6 v))

base64-IsClean : (n : ℕ) (key : Bytes) → Triples key n → All IsClean (key_to_base64_loop n key)
unfolding key_to_base64_loop encode_base64
base64-IsClean n key (two a b) =
    (sextet-IsClean _, (sextet-IsClean _, (sextet-IsClean _, (refl, tt))))
base64-IsClean n key (three a b c t) = (
  sextet-IsClean _,
  (sextet-IsClean _, (sextet-IsClean _, (sextet-IsClean _, base64-IsClean _ _ t))),
)

pub key_to_base64-IsClean : (key : Bytes) → length key ≡ 32 → All IsClean (key_to_base64 key)
unfolding key_to_base64
key_to_base64-IsClean key l = base64-IsClean 10 key (Triples-length 10 key l)

base64-non_empty :
    (n : ℕ) (key : Bytes) → Triples key n → non_empty (key_to_base64_loop n key) ≡ true
unfolding key_to_base64_loop encode_base64
base64-non_empty n key (two a b) = refl
base64-non_empty n key (three a b c t) = refl

pub key_to_base64-non_empty : (key : Bytes) → length key ≡ 32 → non_empty (key_to_base64 key) ≡ true
unfolding key_to_base64
key_to_base64-non_empty key l = base64-non_empty 10 key (Triples-length 10 key l)

decimal_loop-IsClean :
    (f n : ℕ) (rest : Bytes) → All IsClean rest → All IsClean (decimal_loop f n rest)
unfolding decimal_loop
decimal_loop-IsClean zero n rest a = a
decimal_loop-IsClean (suc f) n rest a = elim (Bool-cases (ltb n 10)) [
  | inl e ↦ rw e ((let d : IsClean (n + b'0') = ground arith in d), a)
  | inr e ↦
      let m : n % 10 < 10 = omega arith in
      let d : IsClean (n % 10 + b'0') = digit_clean (n % 10) m in
      rw e (decimal_loop-IsClean f (n / 10) ((n % 10 + b'0') ∷ rest) (d, a))
]
  where
    digit_clean : (d : ℕ) → d < 10 → IsClean (d + b'0')
    digit_clean d h = ground arith

pub decimal-IsClean : (n : ℕ) → All IsClean (decimal n)
unfolding decimal
decimal-IsClean n = decimal_loop-IsClean (suc n) n [] tt

-- One hexadecimal digit.
hex_table :
    all_below 16 (λ d.
      is_clean (hex_digit d) && is_digit_of 16 (hex_digit d) && (digit_or 16 (hex_digit d) == d))
    ≡ true
unfolding all_below is_digit_of digit_or digit_value
hex_table = refl

hex_digit_lem :
    (d : ℕ)
    → d < 16
    → IsClean (hex_digit d)
      × (is_digit_of 16 (hex_digit d) ≡ true)
      × (digit_or 16 (hex_digit d) ≡ d)
hex_digit_lem d h =
    let t =
      all_below_sound 16
        (λ d.
          is_clean (hex_digit d)
          && is_digit_of 16 (hex_digit d)
          && (digit_or 16 (hex_digit d) == d))
        d hex_table h in
    three_true (is_clean (hex_digit d)) (is_digit_of 16 (hex_digit d)) (digit_or 16 (hex_digit d)) d
      t
  where
    three_true :
        (a b : Bool) (m n : ℕ) → (a && b && (m == n)) ≡ true → (a ≡ true) × (b ≡ true) × (m ≡ n)
    three_true a b m n e = ground arith

abbrev HexWritten : ℕ → Bytes → Bytes → Type 0
HexWritten n rest s =
    (all_digits 16 s ≡ all_digits 16 rest)
    × (number 16 0 s ≡ number 16 n rest)
    × (All IsClean rest → All IsClean s)
    × (s ≢ [])

hex_front :
    (d acc : ℕ) (rest : Bytes)
    → d < 16
    → (all_digits 16 (hex_digit d ∷ rest) ≡ all_digits 16 rest)
      × (number 16 acc (hex_digit d ∷ rest) ≡ number 16 (acc * 16 + d) rest)
      × (All IsClean rest → All IsClean (hex_digit d ∷ rest))
hex_front d acc rest h =
    let e = hex_digit_lem d h in
    (
      ap (λ t. t && all_digits 16 rest) e.1,
      ap (λ (t : ℕ). number 16 (acc * 16 + t) rest) e.2,
      λ a. (e.0, a),
    )

cons-ne : (c : ℕ) (s : Bytes) → (c ∷ s) ≢ []
cons-ne c s e = cc

hex_loop-Written : (f n : ℕ) (rest : Bytes) → n < f → HexWritten n rest (hex_loop f n rest)
unfolding hex_loop
hex_loop-Written zero n rest h = absurd (omega arith)
hex_loop-Written (suc f) n rest h = elim (Bool-cases (ltb n 16)) [
  | inl e ↦
      let d = hex_front n 0 rest (ltb→lt n 16 e) in
      let z : 0 * 16 + n ≡ n = omega arith in
      rw e (d.0, d.1 ∙ ap (λ (t : ℕ). number 16 t rest) z, d.2, cons-ne (hex_digit n) rest)
  | inr e ↦
      let d = hex_front (n % 16) (n / 16) rest (omega arith) in
      let smaller : n / 16 < f = ground arith in
      let w = hex_loop-Written f (n / 16) (hex_digit (n % 16) ∷ rest) smaller in
      let same : n / 16 * 16 + n % 16 ≡ n = omega arith in
      rw e (w.0 ∙ d.0, w.1 ∙ d.1 ∙ ap (λ (t : ℕ). number 16 t rest) same, (λ b. w.2 (d.2 b)), w.3)
]

pub hexadecimal-Written : (n : ℕ) → HexWritten n [] (hexadecimal n)
unfolding hexadecimal
hexadecimal-Written n = hex_loop-Written (suc n) n [] (omega arith)

pub mark-IsClean : (n : ℕ) → All IsClean (b'0' ∷ b'x' ∷ hexadecimal n)
mark-IsClean n = (refl, (refl, (hexadecimal-Written n).2 tt))

IsClean-IsByte : (t : Bytes) → All IsClean t → All IsByte t
IsClean-IsByte [] a = tt
IsClean-IsByte (c ∷ t) a = (ground (arith, a.0), IsClean-IsByte t a.1)

mark_written :
    (h : Host) (dev : WgDevice) (n : ℕ) (s : Bytes)
    → 0xffff_ffff ≤ h.ulong_max
    → n ≤ 0xffff_ffff
    → HexWritten n [] s
    → parse_fwmark h dev (b'0' ∷ b'x' ∷ s) ≡ some (set_fwmark dev n)
mark_written h dev n [] max le w = absurd (w.3 refl)
mark_written h dev n (c ∷ cs) max le w =
    parse_fwmark_hex h dev c cs max (ground (arith, w.0)) w.0
      (subst (λ k. k ≤ 0xffff_ffff) (sym w.1) le)
    ∙ ap (λ k. some (set_fwmark dev k)) w.1

-- What is printed of a mark and of an interval is read back.
pub parse_fwmark-printed :
    (h : Host) (dev : WgDevice) (n : ℕ)
    → 0xffff_ffff ≤ h.ulong_max
    → n ≤ 0xffff_ffff
    → parse_fwmark h dev (b'0' ∷ b'x' ∷ hexadecimal n) ≡ some (set_fwmark dev n)
parse_fwmark-printed h dev n max le =
    mark_written h dev n (hexadecimal n) max le (hexadecimal-Written n)

decimal-cons : (n : ℕ) → (c : ℕ) × (cs : Bytes) × (decimal n ≡ c ∷ cs) × (is_digit c ≡ true)
decimal-cons n = from_text (decimal n) (decimal-Written n)
  where
    from_text :
        (s : Bytes) → Written n [] s → (c : ℕ) × (cs : Bytes) × (s ≡ c ∷ cs) × (is_digit c ≡ true)
    from_text [] w = absurd (w.3 refl)
    from_text (c ∷ cs) w = (c, cs, refl, is_digit-all_digits c cs w.0)

pub parse_keepalive-printed :
    (h : Host) (peer : WgPeer) (n : ℕ)
    → 65535 < h.ulong_max
    → n ≤ 65535
    → parse_persistent_keepalive h peer (decimal n) ≡ some (set_keepalive peer n)
parse_keepalive-printed h peer n max le =
    let d = decimal-cons n in
    let no : caseless_eq (decimal n) (codes "off") ≡ false =
      subst (λ s. caseless_eq s (codes "off") ≡ false) (sym d.2) (not_off d.0 d.1 d.3) in
    parse_persistent_keepalive_lem h peer (decimal n) max (decimal-IsByte n)
    ∙ rw (no, decimal_up_to-decimal 65535 n le) refl

pub decimal-non_empty : (n : ℕ) → non_empty (decimal n) ≡ true
decimal-non_empty n = let d = decimal-cons n in ap non_empty d.2
