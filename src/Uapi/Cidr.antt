-- ===== src/Uapi/Cidr.antt =====
-- The prefix length of an `allowed_ip` line, which `userspace_get_device` keeps in a `uint8_t`.
use wireguard_android_expres.Base.{
  ℕ, ◌%◌, ◌≤◌, ◌<◌, ◌≡◌, refl, ap₂, ◌∙◌, arith, true, false, ◌==◌, ltb, if◌then◌else◌, [], ◌∷◌,
  ◌++◌, Bytes, length, char_at,
}
use wireguard_android_expres.Ctype.Laws.{is_digit, char_is_digit-is_digit}
use wireguard_android_expres.Host.{Host}
use wireguard_android_expres.Config.Number.{strtoul, scan_digits}
use wireguard_android_expres.Config.Number.Digits.{scan_digits_lem, strtoul_digit}
use wireguard_android_expres.Config.Decimal.{is_digit-all_digits}
use wireguard_android_expres.Config.Fields.{has_char, first_is_digit}
use wireguard_android_expres.Uapi.Print.{decimal}
use wireguard_android_expres.Uapi.Numbers.{Written, decimal-Written}
use wireguard_android_expres.Uapi.Endpoints.{split_first-append}
use wireguard_android_expres.Uapi.Get.{GetState, get_allowed_ip}

zero_length : (s : Bytes) → (length s == 0) ≡ true → s ≡ []
zero_length [] e = refl
zero_length (x ∷ s) e = absurd (ground arith)

held : (max n m : ℕ) → m ≡ n → n ≤ max → (if ltb max m then max else m) ≡ n
held max n m e h = ground arith

strtoul-Written :
    (max n : ℕ) (s : Bytes)
    → n ≤ max
    → Written n [] s
    → (strtoul max 10 s ≡ (n, [])) × (is_digit (char_at s 0) ≡ true)
strtoul-Written max n [] h w = absurd (w.3 refl)
strtoul-Written max n (c ∷ cs) h w =
    let d = is_digit-all_digits c cs w.0 in
    let s = scan_digits_lem 10 0 (c ∷ cs) in
    (
      strtoul_digit max c cs d
          ∙ ap₂ (λ (a : ℕ) (b : Bytes). (a, b))
              (held max n (scan_digits 10 0 (c ∷ cs)).0 (s.1 w.0 ∙ w.1) h)
              (zero_length (scan_digits 10 0 (c ∷ cs)).1 (s.0 ∙ w.0)),
      d,
    )

-- `strtoul` reads a number back that was written in decimal, up to the largest `unsigned long`.
pub strtoul-decimal : (max n : ℕ) → n ≤ max → strtoul max 10 (decimal n) ≡ (n, [])
strtoul-decimal max n h = (strtoul-Written max n (decimal n) h (decimal-Written n)).0

first_is_digit-decimal : (h : Host) (n : ℕ) → first_is_digit h (decimal n) ≡ true
first_is_digit-decimal h n =
    let d = (strtoul-Written n n (decimal n) (omega arith) (decimal-Written n)).1 in
    let b : char_at (decimal n) 0 < 256 = ground arith in
    char_is_digit-is_digit h.signed_char (char_at (decimal n) 0) b ∙ d

-- The prefix length behind an address without a slash counts modulo 256 only: a number and the
-- number cut to a byte are taken or refused alike, and leave the same device.
pub get_allowed_ip-mod :
    (h : Host) (st : GetState) (ip : Bytes) (n : ℕ)
    → has_char b'/' ip ≡ false
    → n ≤ h.ulong_max
    → get_allowed_ip h st (ip ++ (b'/' ∷ decimal n))
      ≡ get_allowed_ip h st (ip ++ (b'/' ∷ decimal (n % 256)))
unfolding get_allowed_ip
get_allowed_ip-mod h st ip n e le =
    let small : n % 256 ≤ h.ulong_max = omega arith in
    let twice : n % 256 % 256 ≡ n % 256 = omega arith in
    rw (split_first-append b'/' ip (decimal n) e, get_allowed_ip)
      (rw (split_first-append b'/' ip (decimal (n % 256)) e, get_allowed_ip)
        (rw
          (
            first_is_digit-decimal h n,
            first_is_digit-decimal h (n % 256),
            strtoul-decimal h.ulong_max n le,
            strtoul-decimal h.ulong_max (n % 256) small,
            twice,
          )
          refl))
