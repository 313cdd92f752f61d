-- ===== src/Config/Netmask.antt =====
-- `validate_netmask` against the address as one number.
use native.Mathlib.Nat.{
  pow-suc, one-le-pow, zero-add, suc-add, add-mul-mod_self_right, mod-eq_of_lt,
}
use native.Mathlib.Decide.{dec_lt}
use wireguard_android_expres.Base.{
  ℕ, zero, suc, ◌+◌, ◌-◌, ◌*◌, ◌/◌, ◌%◌, ◌^◌, ◌≤◌, ◌<◌, ◌≡◌, ◌≢◌, refl, ap, ◌∙◌, arith, Bool, true,
  false, not, ◌==◌, leb, ltb, if◌then◌else◌, Bytes, shr, minus_one, bit_and, bit_and_mask, char_at,
  all_below, all_below_sound, ==_iff, All, lt→ltb, leb→le, sym,
}
use mathlib.Core.List.{[], ◌∷◌}
use wireguard_android_expres.Encoding.Hex.{IsByte}
use wireguard_android_expres.Containers.{Family, af_unspec, af_inet, af_inet6, WgAllowedIp}
use wireguard_android_expres.Config.AllowedIps.{word_at, max_cidr, netmask_loop, validate_netmask}

-- The first `n` words of an address, as one number.
abbrev pub words : Bytes → ℕ → ℕ
words ip zero = 0
words ip (suc n) = words ip n * 2 ^ 32 + word_at ip n

shift_table : all_below 33 (λ k. shr minus_one k == 2 ^ (32 - k) - 1) ≡ true
unfolding all_below
shift_table = refl

-- 32 bits shifted right by `k` are the low bits that are left.
shifted_ones : (k : ℕ) → k ≤ 32 → shr minus_one k ≡ 2 ^ (32 - k) - 1
shifted_ones k h =
    (==_iff _ _).0
      (all_below_sound 33 (λ k. shr minus_one k == 2 ^ (32 - k) - 1) k shift_table (omega arith))

-- The masked word is the low part of the word.
masked_word :
    (w i cidr : ℕ)
    → 32 * i ≤ cidr
    → cidr ≤ 32 * (i + 1)
    → bit_and w (shr minus_one (cidr - 32 * i)) ≡ w % 2 ^ (32 * (i + 1) - cidr)
masked_word w i cidr h k =
    let n : 32 - (cidr - 32 * i) ≡ 32 * (i + 1) - cidr = omega arith in
    rw (shifted_ones (cidr - 32 * i) (omega arith)) (rw n (bit_and_mask (32 * (i + 1) - cidr) w))

pow-add : (a b : ℕ) → 2 ^ (a + b) ≡ 2 ^ a * 2 ^ b
pow-add zero b = rw zero-add (omega arith)
pow-add (suc a) b =
    rw suc-add
      (omega (arith, pow-suc 2 (a + b), pow-add a b, ap (λ (t : ℕ). t * 2 ^ b) (pow-suc 2 a)))

-- The low bits of a number of words: those of the last word alone, or the whole last word too.
low_of_last : (a w e : ℕ) → e ≤ 32 → (a * 2 ^ 32 + w) % 2 ^ e ≡ w % 2 ^ e
low_of_last a w e h =
    let split : 2 ^ 32 ≡ 2 ^ (32 - e) * 2 ^ e =
      ap (λ (k : ℕ). 2 ^ k) (let s : 32 ≡ 32 - e + e = omega arith in s) ∙ pow-add (32 - e) e in
    ap (λ (t : ℕ). t % 2 ^ e)
      (let s : a * 2 ^ 32 + w ≡ w + a * 2 ^ (32 - e) * 2 ^ e =
          omega (arith, ap (λ (t : ℕ). a * t) split) in
        s)
    ∙ add-mul-mod_self_right w (a * 2 ^ (32 - e)) (2 ^ e)

low_words : (a w m : ℕ) → w < 2 ^ 32 → 0 < m → (a * 2 ^ 32 + w) % (m * 2 ^ 32) ≡ a % m * 2 ^ 32 + w
low_words a w m h p =
    let r : a ≡ a / m * m + a % m = grind (arith, p) in
    let lt : a % m < m = grind (arith, p) in
    ap (λ (t : ℕ). t % (m * 2 ^ 32))
      (let s : a * 2 ^ 32 + w ≡ a % m * 2 ^ 32 + w + a / m * (m * 2 ^ 32) =
          omega (arith, ap (λ (t : ℕ). t * 2 ^ 32) r) in
        s)
    ∙ add-mul-mod_self_right (a % m * 2 ^ 32 + w) (a / m) (m * 2 ^ 32)
    ∙ mod-eq_of_lt (let s : a % m * 2 ^ 32 + w < m * 2 ^ 32 = omega arith in s)

char_at-lt : (ip : Bytes) (i : ℕ) → All IsByte ip → char_at ip i < 256
char_at-lt [] i h = omega arith
char_at-lt (x ∷ ip) zero h = h.0
char_at-lt (x ∷ ip) (suc i) h = char_at-lt ip i h.1

word_at-lt : (ip : Bytes) (i : ℕ) → All IsByte ip → word_at ip i < 2 ^ 32
word_at-lt ip i h = omega (
  arith,
  char_at-lt ip (4 * i) h,
  char_at-lt ip (4 * i + 1) h,
  char_at-lt ip (4 * i + 2) h,
  char_at-lt ip (4 * i + 3) h,
)

-- The three ways in which a turn of the loop ends, by the number that is left of the word.
covered_turn :
    (v : ℕ) (covered rest : Bool)
    → (covered ≡ true → v ≡ 0)
    → rest ≡ true
    → (if covered then true else if not (v == 0) then false else rest) ≡ (v == 0)
covered_turn v true rest h e = rw (h refl)
covered_turn v false rest h e = ground arith

open_turn :
    (w v : ℕ) (rest : Bool)
    → rest ≡ (v == 0)
    → (if not (w == 0) then false else rest) ≡ (v * 2 ^ 32 + w == 0)
open_turn w v rest e = ground arith

module _ (ip : Bytes) (cidr : ℕ) where
  netmask_loop_covered : (n : ℕ) → 32 * n ≤ cidr → netmask_loop ip cidr n ≡ true
  unfolding netmask_loop
  netmask_loop_covered zero h = refl
  netmask_loop_covered (suc n) h = ground arith

  -- The last word in the prefix's end.
  covered_step :
      (n : ℕ)
      → 32 * n < cidr
      → cidr ≤ 32 * (n + 1)
      → netmask_loop ip cidr (suc n) ≡ (words ip (suc n) % 2 ^ (32 * (n + 1) - cidr) == 0)
  unfolding netmask_loop
  covered_step n inside h =
      let low = low_of_last (words ip n) (word_at ip n) (32 * (n + 1) - cidr) (omega arith) in
      let m = masked_word (word_at ip n) n cidr (omega arith) h in
      let c = netmask_loop_covered n (omega arith) in
      rw (lt→ltb (32 * n) cidr inside, m, low)
        (covered_turn (word_at ip n % 2 ^ (32 * (n + 1) - cidr)) (leb (32 * (n + 1)) cidr) _
          (λ full.
            let z : 32 * (n + 1) - cidr ≡ 0 = omega (arith, leb→le (32 * (n + 1)) cidr full) in
            rw z (omega arith))
          c)

  open_step :
      (n : ℕ)
      → All IsByte ip
      → cidr ≤ 32 * n
      → netmask_loop ip cidr n ≡ (words ip n % 2 ^ (32 * n - cidr) == 0)
      → netmask_loop ip cidr (suc n) ≡ (words ip (suc n) % 2 ^ (32 * (n + 1) - cidr) == 0)
  unfolding netmask_loop
  open_step n b h rest =
      let w = word_at-lt ip n b in
      let ones = bit_and_mask 32 (word_at ip n) in
      let all : bit_and (word_at ip n) minus_one ≡ word_at ip n = omega (arith, ones, w) in
      let e : 2 ^ (32 * (n + 1) - cidr) ≡ 2 ^ (32 * n - cidr) * 2 ^ 32 =
        ap (λ (k : ℕ). 2 ^ k) (let s : 32 * (n + 1) - cidr ≡ 32 * n - cidr + 32 = omega arith in s)
        ∙ pow-add (32 * n - cidr) 32 in
      let pos = one-le-pow (32 * n - cidr) 2 (omega arith) in
      let low = low_words (words ip n) (word_at ip n) (2 ^ (32 * n - cidr)) w pos in
      let out : ltb (32 * n) cidr ≡ false = ground arith in
      let short : leb (32 * (n + 1)) cidr ≡ false = ground arith in
      rw (out, short, all, e, low)
        (open_turn (word_at ip n) (words ip n % 2 ^ (32 * n - cidr)) (netmask_loop ip cidr n) rest)

  netmask_loop-words :
      (n : ℕ)
      → All IsByte ip
      → cidr ≤ 32 * n
      → netmask_loop ip cidr n ≡ (words ip n % 2 ^ (32 * n - cidr) == 0)
  unfolding netmask_loop
  netmask_loop-words zero b h = rw (let z : 32 * 0 - cidr ≡ 0 = omega arith in z) refl
  netmask_loop-words (suc n) b h =
      let t : suc n ≡ n + 1 = omega arith in
      elim (dec_lt (32 * n) cidr) [
        | yes inside ↦
            covered_step n inside (omega arith)
            ∙ ap (λ (k : ℕ). words ip (suc n) % 2 ^ (32 * k - cidr) == 0) (sym t)
        | no outside ↦
            open_step n b (omega arith) (netmask_loop-words n b (omega arith))
            ∙ ap (λ (k : ℕ). words ip (suc n) % 2 ^ (32 * k - cidr) == 0) (sym t)
      ]

-- `validate_netmask` on an IPv4 entry: the bits behind the prefix are all 0.
validate_netmask_inet :
    (a : WgAllowedIp)
    → a.family ≡ af_inet
    → All IsByte a.ip
    → a.cidr ≤ 32
    → validate_netmask a ≡ (words a.ip 1 % 2 ^ (32 - a.cidr) == 0)
unfolding validate_netmask
validate_netmask_inet a e b h = rw e (netmask_loop-words a.ip a.cidr 1 b h)

-- `validate_netmask` on an IPv6 entry, over the four words of the address.
validate_netmask_inet6 :
    (a : WgAllowedIp)
    → a.family ≡ af_inet6
    → All IsByte a.ip
    → a.cidr ≤ 128
    → validate_netmask a ≡ (words a.ip 4 % 2 ^ (128 - a.cidr) == 0)
unfolding validate_netmask
validate_netmask_inet6 a e b h = rw e (netmask_loop-words a.ip a.cidr 4 b h)

-- How many 32-bit words an address has.
abbrev pub word_count : Family → ℕ
word_count af_inet = 1
word_count af_inet6 = 4
word_count af_unspec = 0

by_family :
    (f : Family) (a : WgAllowedIp)
    → a.family ≡ f
    → f ≢ af_unspec
    → All IsByte a.ip
    → a.cidr ≤ max_cidr f
    → validate_netmask a ≡ (words a.ip (word_count f) % 2 ^ (max_cidr f - a.cidr) == 0)
by_family af_inet a e ne b h = validate_netmask_inet a e b h
by_family af_inet6 a e ne b h = validate_netmask_inet6 a e b h
by_family af_unspec a e ne b h = absurd (ne refl)

-- `validate_netmask` on an IPv4 or IPv6 entry with a prefix of at most 32 or 128 bits: it holds
-- exactly when the bits of the address behind the prefix are all 0.
pub validate_netmask_low_bits :
    (a : WgAllowedIp)
    → a.family ≢ af_unspec
    → All IsByte a.ip
    → a.cidr ≤ max_cidr a.family
    → validate_netmask a
      ≡ (words a.ip (word_count a.family) % 2 ^ (max_cidr a.family - a.cidr) == 0)
validate_netmask_low_bits a ne b h = by_family a.family a refl ne b h
