-- ===== src/Highlighter/Values.antt =====
-- What is appended for a value keeps the spans in order.
use wireguard_android_expres.Base.{
  ℕ, zero, suc, ◌+◌, ◌≤◌, ◌<◌, ◌≡◌, arith, true, [], ◌∷◌, Bytes, update_last, Bool-cases, inl, inr,
}
use wireguard_android_expres.Highlighter.Span.{StringSpan, sub_span}
use wireguard_android_expres.Highlighter.Value.{is_valid_endpoint}
use wireguard_android_expres.Highlighter.Field.{Field, address, dns, allowed_ips, endpoint}
use wireguard_android_expres.Highlighter.Spans.{
  Spans, append_highlight_span, highlight_multivalue_value, finish_multivalue, multivalue_loop,
  highlight_multivalue, highlight_value, error, delimiter,
}
use wireguard_android_expres.Highlighter.Ordered.{
  IsOrdered, IsOrdered-mono, append-IsOrdered, multivalue_value-IsOrdered, endpoint-IsOrdered,
}

update_last-IsOrdered :
    (lo hi : ℕ) (a : Spans)
    → IsOrdered lo hi a
    → IsOrdered lo hi (update_last (λ h. record h { type = error }) a)
update_last-IsOrdered lo hi [] o = o
update_last-IsOrdered lo hi (x ∷ []) o = o
update_last-IsOrdered lo hi (x ∷ y ∷ a) o =
    (o.0, o.1, update_last-IsOrdered (x.start + x.len) hi (y ∷ a) o.2)

finish-IsOrdered :
    (text : Bytes) (m hi : ℕ) (a : Spans) (s : StringSpan) (f : Field)
    → IsOrdered 0 m a
    → m ≤ s.start
    → s.start + s.len ≤ hi
    → IsOrdered 0 hi (finish_multivalue text a s f)
unfolding finish_multivalue
finish-IsOrdered text m hi a s f o h k = ground (
  arith,
  IsOrdered-mono 0 (s.start + s.len) hi _ k (multivalue_value-IsOrdered text m a s o h f),
  IsOrdered-mono 0 m hi a (omega arith) o,
  IsOrdered-mono 0 m hi _ (omega arith) (update_last-IsOrdered 0 m a o),
)

-- The loop over a list of values, from any of its turns.
multivalue_loop-IsOrdered :
    (text : Bytes) (s : StringSpan) (f : Field) (left i m : ℕ) (a : Spans) (c : StringSpan)
    (last : ℕ)
    → i + left ≡ s.len
    → IsOrdered 0 m a
    → m ≤ c.start
    → c.start + c.len ≤ s.start + i
    → last ≤ c.len
    → IsOrdered 0 (s.start + s.len) (multivalue_loop text s f left i a c last)
unfolding multivalue_loop
multivalue_loop-IsOrdered text s f zero i m a c last e o h k l =
    finish-IsOrdered text m (s.start + s.len) a (record c { len = last }) f o h (omega arith)
multivalue_loop-IsOrdered text s f (suc left) i m a c last e o h k l =
    let v = record c { len = last } in
    let b = highlight_multivalue_value text a v f in
    let ob = multivalue_value-IsOrdered text m a v o h f in
    let oc = append-IsOrdered (c.start + last) b (sub_span s i 1) delimiter ob (omega arith) in
    ground (
      arith,
      multivalue_loop-IsOrdered text s f left (i + 1) (s.start + i + 1)
          (append_highlight_span b (sub_span s i 1) delimiter) (sub_span s (i + 1) 0) 0
          (omega arith) oc (omega arith) (omega arith) (omega arith),
      multivalue_loop-IsOrdered text s f left (i + 1) m a (record c { start = c.start + 1 }) last
          (omega arith) o (omega arith),
      multivalue_loop-IsOrdered text s f left (i + 1) m a (record c { len = c.len + 1 }) last
          (omega arith) o (omega arith) (omega arith) (omega arith),
      multivalue_loop-IsOrdered text s f left (i + 1) m a (record c { len = c.len + 1 }) (c.len + 1)
          (omega arith) o (omega arith) (omega arith) (omega arith),
    )

is_valid_endpoint-pos :
    (text : Bytes) (s : StringSpan) → is_valid_endpoint text s ≡ true → 0 < s.len
unfolding is_valid_endpoint
is_valid_endpoint-pos text s h = ground arith

pub value-IsOrdered :
    (text : Bytes) (m : ℕ) (a : Spans) (s : StringSpan) (f : Field)
    → IsOrdered 0 m a
    → m ≤ s.start
    → IsOrdered 0 (s.start + s.len) (highlight_value text a s f)
unfolding highlight_value highlight_multivalue
value-IsOrdered text m a s endpoint o h = elim (Bool-cases (is_valid_endpoint text s)) [
  | inl e ↦ rw e (endpoint-IsOrdered text m a s o h (is_valid_endpoint-pos text s e))
  | inr e ↦ rw e (append-IsOrdered m a s error o h)
]
value-IsOrdered text m a s address o h =
    multivalue_loop-IsOrdered text s address s.len 0 m a (sub_span s 0 0) 0 (omega arith) o
      (omega arith) (omega arith) (omega arith)
value-IsOrdered text m a s dns o h =
    multivalue_loop-IsOrdered text s dns s.len 0 m a (sub_span s 0 0) 0 (omega arith) o
      (omega arith) (omega arith) (omega arith)
value-IsOrdered text m a s allowed_ips o h =
    multivalue_loop-IsOrdered text s allowed_ips s.len 0 m a (sub_span s 0 0) 0 (omega arith) o
      (omega arith) (omega arith) (omega arith)
value-IsOrdered text m a s _ o h = append-IsOrdered m a s _ o h
