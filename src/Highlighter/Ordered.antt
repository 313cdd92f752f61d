-- ===== src/Highlighter/Ordered.antt =====
-- The spans stand in the order of the text, do not overlap, and hold one character at least.
use wireguard_android_expres.Base.{
  ℕ, zero, suc, ◌+◌, ◌-◌, ◌≤◌, ◌<◌, arith, ◌==◌, [], ◌∷◌, ◌++◌, Bytes, Bool-cases, inl, inr,
}
use wireguard_android_expres.Highlighter.Span.{StringSpan, sub_span}
use wireguard_android_expres.Highlighter.Address.{find_char}
use wireguard_android_expres.Highlighter.Field.{Field, address, dns, allowed_ips}
use wireguard_android_expres.Highlighter.Spans.{
  HighlightType, HighlightSpan, Spans, append_highlight_span, append_network,
  highlight_multivalue_value, last_colon, append_endpoint, error,
}

-- Spans from `lo` on, in order and apart, that end at `hi` at the latest.
abbrev pub IsOrdered : ℕ → ℕ → Spans → Type 0
IsOrdered lo hi [] = lo ≤ hi
IsOrdered lo hi (h ∷ hs) = (lo ≤ h.start) × (0 < h.len) × IsOrdered (h.start + h.len) hi hs

pub IsOrdered-mono : (lo hi hi' : ℕ) (a : Spans) → hi ≤ hi' → IsOrdered lo hi a → IsOrdered lo hi' a
IsOrdered-mono lo hi hi' [] h o = omega arith
IsOrdered-mono lo hi hi' (x ∷ a) h o = (o.0, o.1, IsOrdered-mono (x.start + x.len) hi hi' a h o.2)

IsOrdered-concat :
    (lo hi : ℕ) (a : Spans) (x : HighlightSpan)
    → IsOrdered lo hi a
    → hi ≤ x.start
    → 0 < x.len
    → IsOrdered lo (x.start + x.len) (a ++ (x ∷ []))
IsOrdered-concat lo hi [] x o h p = (omega arith, p, omega arith)
IsOrdered-concat lo hi (y ∷ a) x o h p =
    (o.0, o.1, IsOrdered-concat (y.start + y.len) hi a x o.2 h p)

pub append-IsOrdered :
    (m : ℕ) (a : Spans) (s : StringSpan) (t : HighlightType)
    → IsOrdered 0 m a
    → m ≤ s.start
    → IsOrdered 0 (s.start + s.len) (append_highlight_span a s t)
unfolding append_highlight_span
append-IsOrdered m a s t o h = elim (Bool-cases (s.len == 0)) [
  | inl e ↦ rw e (IsOrdered-mono 0 m (s.start + s.len) a (omega arith) o)
  | inr e ↦ rw e (
      IsOrdered-concat 0 m a (record { type = t; start = s.start; len = s.len }) o h (ground arith))
]

find_char-le : (text : Bytes) (s : StringSpan) (c n i : ℕ) → find_char text s c n i ≤ i + n
unfolding find_char
find_char-le text s c zero i = omega arith
find_char-le text s c (suc n) i = ground (arith, find_char-le text s c n (i + 1))

last_colon-lt : (text : Bytes) (s : StringSpan) (n : ℕ) → 0 < n → last_colon text s n < n
unfolding last_colon
last_colon-lt text s zero h = absurd (omega arith)
last_colon-lt text s (suc zero) h = ground arith
last_colon-lt text s (suc (suc n)) h = ground (arith, last_colon-lt text s (suc n) (omega arith))

module _ (text : Bytes) (m : ℕ) (a : Spans) (s : StringSpan) (o : IsOrdered 0 m a)
    (h : m ≤ s.start) where
  -- A span cut at a place inside it, with one character between the parts.
  three-IsOrdered :
      (k : ℕ) (t u v : HighlightType)
      → k < s.len
      → IsOrdered 0 (s.start + s.len) (
          append_highlight_span
            (append_highlight_span (append_highlight_span a (sub_span s 0 k) t) (sub_span s k 1) u)
            (sub_span s (k + 1) (s.len - k - 1))
            v)
  three-IsOrdered k t u v lt =
      let o1 = append-IsOrdered m a (sub_span s 0 k) t o (omega arith) in
      let a1 = append_highlight_span a (sub_span s 0 k) t in
      let o2 = append-IsOrdered (s.start + 0 + k) a1 (sub_span s k 1) u o1 (omega arith) in
      let a2 = append_highlight_span a1 (sub_span s k 1) u in
      let o3 =
        append-IsOrdered (s.start + k + 1) a2 (sub_span s (k + 1) (s.len - k - 1)) v o2
          (omega arith) in
      IsOrdered-mono 0 (s.start + (k + 1) + (s.len - k - 1)) (s.start + s.len) _ (omega arith) o3

  network-IsOrdered : IsOrdered 0 (s.start + s.len) (append_network text a s)
  unfolding append_network
  network-IsOrdered = elim (Bool-cases (find_char text s b'/' s.len 0 == s.len)) [
    | inl e ↦ rw e (append-IsOrdered m a s _ o h)
    | inr e ↦ rw e (
        three-IsOrdered (find_char text s b'/' s.len 0) _ _ _
          (ground (arith, find_char-le text s b'/' s.len 0)))
  ]

  pub multivalue_value-IsOrdered :
      (f : Field) → IsOrdered 0 (s.start + s.len) (highlight_multivalue_value text a s f)
  unfolding highlight_multivalue_value
  multivalue_value-IsOrdered dns = ground (
    arith,
    append-IsOrdered m a s HighlightType.ip o h,
    append-IsOrdered m a s HighlightType.host o h,
    append-IsOrdered m a s error o h,
  )
  multivalue_value-IsOrdered address =
      ground (arith, network-IsOrdered, append-IsOrdered m a s error o h)
  multivalue_value-IsOrdered allowed_ips =
      ground (arith, network-IsOrdered, append-IsOrdered m a s error o h)
  multivalue_value-IsOrdered _ = append-IsOrdered m a s error o h

  pub endpoint-IsOrdered : 0 < s.len → IsOrdered 0 (s.start + s.len) (append_endpoint text a s)
  unfolding append_endpoint
  endpoint-IsOrdered p =
      three-IsOrdered (last_colon text s s.len) _ _ _ (last_colon-lt text s s.len p)
