-- ===== src/Showconf/Lists.antt =====
-- A peer's entries as one value: printed with commas, stripped, split and read.
use wireguard_android_expres.Base.{
  ℕ, ◌<◌, ◌≡◌, refl, sym, ap, ap₂, ◌∙◌, arith, subst, Bool, true, false, ◌==◌, some, List, [], ◌∷◌,
  ◌++◌, append_assoc, append-nil, Bytes, length, All, All-append,
}
use wireguard_android_expres.Containers.{WgAllowedIp, WgPeer, set_flag, wgpeer_replace_allowedips}
use wireguard_android_expres.Host.{Host}
use wireguard_android_expres.Config.AllowedIps.{split_all, allowedips_loop, parse_allowedips}
use wireguard_android_expres.Config.Line.{strip_spaces}
use wireguard_android_expres.Config.Valid.{non_empty}
use wireguard_android_expres.Config.Number.Digits.{false-ne-true}
use wireguard_android_expres.Uapi.Print.{decimal, Names}
use wireguard_android_expres.Showconf.{show_allowedips, comma_if}
use wireguard_android_expres.Showconf.Text.{
  IsPlain, IsClean-IsPlain, strip_spaces-append, strip_clean, strip_blank,
}
use wireguard_android_expres.Showconf.Entries.{
  IsPrinted, text_of, Lacks, text-Lacks, text-IsClean, shown_text, prefix_lem, parse_entry-printed,
  texts, loop-printed,
}

abbrev pub joined : List Bytes → Bytes
joined [] = []
joined (x ∷ []) = x
joined (x ∷ y ∷ ys) = x ++ (b',' ∷ joined (y ∷ ys))

split_all-none : (c : ℕ) (t : Bytes) → Lacks c t → split_all c t ≡ t ∷ []
unfolding split_all
split_all-none c [] a = refl
split_all-none c (x ∷ t) a = rw (split_all-none c t a.1, split_all, a.0) refl

split_all-append :
    (c : ℕ) (t u p : Bytes) (ps : List Bytes)
    → Lacks c t
    → split_all c u ≡ p ∷ ps
    → split_all c (t ++ (c ∷ u)) ≡ t ∷ p ∷ ps
unfolding split_all
split_all-append c [] u p ps a e =
    let same : (c == c) ≡ true = ground arith in rw (e, split_all, same) refl
split_all-append c (x ∷ t) u p ps a e = rw (split_all-append c t u p ps a.1 e, split_all, a.0) refl

split_all-joined :
    (x : Bytes) (xs : List Bytes)
    → All (Lacks b',') (x ∷ xs)
    → split_all b',' (joined (x ∷ xs)) ≡ x ∷ xs
split_all-joined x [] a = split_all-none b',' x a.0
split_all-joined x (y ∷ ys) a =
    split_all-append b',' x (joined (y ∷ ys)) y ys a.0 (split_all-joined y ys a.1)

module _ (h : Host) (n : Names) where
  texts-Lacks :
      (ips : List WgAllowedIp) (p : All (IsPrinted h n) ips) → All (Lacks b',') (texts h n ips p)
  unfolding texts
  texts-Lacks [] p = tt
  texts-Lacks (a ∷ ips) p = (text-Lacks b',' p.0.0 a.cidr refl refl p.0.2, texts-Lacks ips p.1)

  show_cons :
      (a : WgAllowedIp) (ips : List WgAllowedIp) (p : IsPrinted h n a)
      → show_allowedips n (a ∷ ips)
        ≡ (text_of p.0 a.cidr ++ comma_if (non_empty ips)) ++ show_allowedips n ips
  unfolding show_allowedips
  show_cons a ips p = rw (shown_text h n a p) refl

  comma-IsPlain : (b : Bool) → All IsPlain (comma_if b)
  comma-IsPlain true = (refl, (refl, tt))
  comma-IsPlain false = tt

  pub show-IsPlain :
      (ips : List WgAllowedIp) → All (IsPrinted h n) ips → All IsPlain (show_allowedips n ips)
  unfolding show_allowedips
  show-IsPlain [] p = tt
  show-IsPlain (a ∷ ips) p = subst (All IsPlain) (sym (show_cons a ips p.0)) (
      All-append IsPlain (text_of p.0.0 a.cidr ++ comma_if (non_empty ips)) (show_allowedips n ips)
        (All-append IsPlain (text_of p.0.0 a.cidr) (comma_if (non_empty ips))
          (IsClean-IsPlain (text_of p.0.0 a.cidr) (text-IsClean p.0.0 a.cidr p.0.2))
          (comma-IsPlain (non_empty ips)))
        (show-IsPlain ips p.1))

  strip_comma : (s : Bool) → strip_spaces s (comma_if true) ≡ b',' ∷ []
  strip_comma s =
      strip_spaces-append s (b',' ∷ []) (b' ' ∷ [])
      ∙ ap₂ ◌++◌ (strip_clean s (b',' ∷ []) (refl, tt))
          (strip_blank s b' ' [] refl ∙ strip_clean s [] tt)

  pub strip-show :
      (s : Bool) (ips : List WgAllowedIp) (p : All (IsPrinted h n) ips)
      → strip_spaces s (show_allowedips n ips) ≡ joined (texts h n ips p)
  unfolding show_allowedips texts
  strip-show s [] p = strip_clean s [] tt
  strip-show s (a ∷ []) p =
      ap (strip_spaces s) (
        show_cons a [] p.0
        ∙ append-nil (text_of p.0.0 a.cidr ++ [])
        ∙ append-nil (text_of p.0.0 a.cidr))
      ∙ strip_clean s (text_of p.0.0 a.cidr) (text-IsClean p.0.0 a.cidr p.0.2)
  strip-show s (a ∷ b ∷ ips) p =
      let t = text_of p.0.0 a.cidr in
      ap (strip_spaces s) (show_cons a (b ∷ ips) p.0)
      ∙ strip_spaces-append s (t ++ comma_if true) (show_allowedips n (b ∷ ips))
      ∙ ap₂ ◌++◌
          (strip_spaces-append s t (comma_if true)
            ∙ ap₂ ◌++◌ (strip_clean s t (text-IsClean p.0.0 a.cidr p.0.2)) (strip_comma s))
          (strip-show s (b ∷ ips) p.1)
      ∙ append_assoc t (b',' ∷ []) (joined (texts h n (b ∷ ips) p.1))

  slash_length : (t u : Bytes) → (length (t ++ (b'/' ∷ u)) == 0) ≡ false
  slash_length [] u = ground arith
  slash_length (x ∷ t) u = ground arith

  joined-length :
      (t : Bytes) (cidr : ℕ) (xs : List Bytes)
      → (length (joined (text_of t cidr ∷ xs)) == 0) ≡ false
  joined-length t cidr [] = slash_length t (decimal cidr)
  joined-length t cidr (y ∷ ys) =
      ap (λ l. length l == 0) (append_assoc t (b'/' ∷ decimal cidr) (b',' ∷ joined (y ∷ ys)))
      ∙ slash_length t (decimal cidr ++ (b',' ∷ joined (y ∷ ys)))

  pub joined-non_empty :
      (ips : List WgAllowedIp) (p : All (IsPrinted h n) ips)
      → non_empty ips ≡ true
      → non_empty (joined (texts h n ips p)) ≡ true
  unfolding texts
  joined-non_empty [] p e = absurd (false-ne-true e)
  joined-non_empty (a ∷ ips) p e =
      from_length (joined (text_of p.0.0 a.cidr ∷ texts h n ips p.1))
        (joined-length p.0.0 a.cidr (texts h n ips p.1))
    where
      from_length : (t : Bytes) → (length t == 0) ≡ false → non_empty t ≡ true
      from_length [] e = absurd (false-ne-true (sym e))
      from_length (x ∷ t) e = refl

  -- The printed list, stripped, gives a peer without entries these entries.
  pub parse_allowedips-printed :
      (ips : List WgAllowedIp) (p : All (IsPrinted h n) ips) (peer : WgPeer)
      → 128 < h.ulong_max
      → non_empty ips ≡ true
      → parse_allowedips h peer false (joined (texts h n ips p))
        ≡ some (
          record peer { flags = set_flag peer.flags wgpeer_replace_allowedips; allowedips = ips },
          true,
        )
  unfolding parse_allowedips texts allowedips_loop
  parse_allowedips-printed [] p peer max e = absurd (false-ne-true e)
  parse_allowedips-printed (a ∷ ips) p peer max e =
      let flags = set_flag peer.flags wgpeer_replace_allowedips in
      rw
        (
          joined-length p.0.0 a.cidr (texts h n ips p.1),
          split_all-joined (text_of p.0.0 a.cidr) (texts h n ips p.1) (texts-Lacks (a ∷ ips) p),
          prefix_lem h n flags a.cidr p.0.0 p.0.2,
          parse_entry-printed h n a p.0 max,
        )
        (loop-printed h n ips p.1 (record peer { flags = flags; allowedips = a ∷ [] }) max)
