-- ===== src/Highlighter/Machine.antt =====
-- The state machine of `highlight_config` keeps its spans in order.
use wireguard_android_expres.Base.{
  ℕ, suc, ◌+◌, ◌≤◌, ◌<◌, ◌≡◌, refl, arith, true, not, ◌==◌, ◌&&◌, ◌||◌, if◌then◌else◌, [], ◌∷◌,
  Bytes, length, Bool-cases, inl, inr, subst,
}
use wireguard_android_expres.Highlighter.Span.{StringSpan}
use wireguard_android_expres.Highlighter.Spans.{append_highlight_span, error, delimiter}
use wireguard_android_expres.Highlighter.Config.{
  start_mode, trimmed, longer, is_on_comment, is_on_key, Mode, on_none, on_key, on_value,
  on_comment, on_section, Lexer, end_line, begin_line, end_key, step, run, initial, highlight_spans,
}
use wireguard_android_expres.Highlighter.Ordered.{IsOrdered, IsOrdered-mono, append-IsOrdered}
use wireguard_android_expres.Highlighter.Values.{value-IsOrdered}

-- Where the next span may begin: at the current span, or at the `=` in front of it. A key, a
-- section header and a comment have a character.
abbrev Before : Mode → Lexer → ℕ → Type 0
Before on_value l m = (m ≤ l.equals_location) × (l.equals_location < l.current_span.start)
Before on_key l m = (m ≤ l.current_span.start) × (0 < l.current_span.len)
Before on_section l m = (m ≤ l.current_span.start) × (0 < l.current_span.len)
Before on_comment l m = (m ≤ l.current_span.start) × (0 < l.current_span.len)
Before _ l m = m ≤ l.current_span.start

-- `len_at_last_space` is not reset behind `=`, and is only meant for a span that is not empty.
record LexInv (i : ℕ) (l : Lexer) : Type 0 where
  last_end : ℕ
  ordered : IsOrdered 0 last_end l.ret
  before : Before l.state l last_end
  inside : l.current_span.start + l.current_span.len ≤ i
  trimmed_le : 0 < l.current_span.len → l.len_at_last_space ≤ l.current_span.len
  empty_here : l.current_span.len ≡ 0 → l.current_span.start ≡ i

-- What a line's end appends ends at the place of the line's end.
end_line-IsOrdered :
    (text : Bytes) (mode : Mode) (l : Lexer) (i m : ℕ)
    → IsOrdered 0 m l.ret
    → Before mode l m
    → l.current_span.start + l.current_span.len ≤ i
    → (0 < l.current_span.len → l.len_at_last_space ≤ l.current_span.len)
    → IsOrdered 0 i (end_line text mode l).ret
unfolding end_line
end_line-IsOrdered text on_none l i m o b k t = IsOrdered-mono 0 m i l.ret (omega arith) o
end_line-IsOrdered text on_key l i m o b k t =
    IsOrdered-mono 0 (l.current_span.start + l.len_at_last_space) i _ (omega (arith, t b.1))
      (append-IsOrdered m l.ret (trimmed l) error o b.0)
end_line-IsOrdered text on_section l i m o b k t =
    IsOrdered-mono 0 (l.current_span.start + l.len_at_last_space) i _ (omega (arith, t b.1))
      (append-IsOrdered m l.ret (trimmed l) _ o b.0)
end_line-IsOrdered text on_comment l i m o b k t =
    IsOrdered-mono 0 (l.current_span.start + l.current_span.len) i _ k
      (append-IsOrdered m l.ret l.current_span _ o b.0)
end_line-IsOrdered text on_value l i m o b k t =
    let equals : StringSpan = record { start = l.equals_location; len = 1 } in
    let oe = append-IsOrdered m l.ret equals delimiter o b.0 in
    let ox = append-IsOrdered m l.ret equals error o b.0 in
    let ov =
      value-IsOrdered text (l.equals_location + 1) (append_highlight_span l.ret equals delimiter)
        (trimmed l) l.current_field oe (omega arith) in
    elim (Bool-cases (l.current_span.len == 0)) [
      | inl e ↦ rw e (IsOrdered-mono 0 (l.equals_location + 1) i _ (omega arith) ox)
      | inr e ↦ rw e (
          IsOrdered-mono 0 (l.current_span.start + l.len_at_last_space) i _
            (omega (arith, t (ground arith))) ov)
    ]

begin_line-LexInv : (i c : ℕ) (l : Lexer) → IsOrdered 0 i l.ret → LexInv (i + 1) (begin_line i c l)
unfolding begin_line
begin_line-LexInv i c l o = elim (Bool-cases (c == b'#')) [
  | inl e ↦ rw e (record {
    last_end = i;
    ordered = o;
    before = omega arith;
    inside = omega arith;
    trimmed_le = omega arith;
    empty_here = omega arith;
  })
  | inr e ↦ rw e (record {
    last_end = i;
    ordered = o;
    before = omega arith;
    inside = omega arith;
    trimmed_le = omega arith;
    empty_here = λ z. refl;
  })
]

end_key-LexInv :
    (text : Bytes) (i : ℕ) (l : Lexer)
    → l.state ≡ on_key
    → LexInv i l
    → LexInv (i + 1) (end_key text i l)
unfolding end_key
end_key-LexInv text i l e v =
    let b = subst (λ s. Before s l v.last_end) e v.before in
    let t = v.trimmed_le b.1 in
    record {
      last_end = l.current_span.start + l.len_at_last_space;
      ordered = append-IsOrdered v.last_end l.ret (trimmed l) _ v.ordered b.0;
      before = (omega (arith, v.inside), omega arith);
      inside = omega arith;
      trimmed_le = omega arith;
      empty_here = λ z. refl;
    }

-- What the turns that only move the current span do to `Before`.
longer-Before :
    (mode : Mode) (l : Lexer) (m : ℕ)
    → Before mode l m
    → Before mode (record l { current_span = longer l.current_span }) m
longer-Before on_value l m b = b
longer-Before on_key l m b = omega arith
longer-Before on_section l m b = omega arith
longer-Before on_none l m b = b
longer-Before on_comment l m b = omega arith

later-Before :
    (mode : Mode) (l : Lexer) (m : ℕ)
    → l.current_span.len ≡ 0
    → Before mode l m
    → Before mode
        (record l { current_span = record (l.current_span) { start = l.current_span.start + 1 } })
        m
later-Before on_value l m z b = omega arith
later-Before on_key l m z b = omega arith
later-Before on_section l m z b = omega arith
later-Before on_none l m z b = omega arith
later-Before on_comment l m z b = omega arith

-- A character that is part of a key, a value or a section header.
abbrev taken : ℕ → Lexer → Lexer
taken c l = record l {
  state = start_mode l.state c;
  current_span = longer l.current_span;
  len_at_last_space = l.current_span.len + 1;
}

taken-Before :
    (mode : Mode) (l : Lexer) (c m : ℕ)
    → Before mode l m
    → Before (start_mode mode c) (record (taken c l) { state = start_mode mode c }) m
taken-Before on_value l c m b = b
taken-Before on_key l c m b = omega arith
taken-Before on_section l c m b = omega arith
taken-Before on_none l c m b = elim (Bool-cases (c == b'[')) [
  | inl e ↦ rw e (omega arith)
  | inr e ↦ rw e (omega arith)
]
taken-Before on_comment l c m b = omega arith

longer-LexInv :
    (i : ℕ) (l : Lexer)
    → 0 < l.current_span.len
    → LexInv i l
    → LexInv (i + 1) (record l { current_span = longer l.current_span })
longer-LexInv i l p v = record {
  last_end = v.last_end;
  ordered = v.ordered;
  before = longer-Before l.state l v.last_end v.before;
  inside = omega (arith, v.inside);
  trimmed_le = λ q. omega (arith, v.trimmed_le p);
  empty_here = omega arith;
}

-- A comment takes every character up to the end of its line.
comment-LexInv :
    (mode : Mode) (i : ℕ) (l : Lexer)
    → is_on_comment mode ≡ true
    → l.state ≡ mode
    → LexInv i l
    → LexInv (i + 1) (record l { current_span = longer l.current_span })
comment-LexInv on_comment i l h e v =
    longer-LexInv i l (subst (λ s. Before s l v.last_end) e v.before).1 v
comment-LexInv on_none i l h e v = cc
comment-LexInv on_key i l h e v = cc
comment-LexInv on_value i l h e v = cc
comment-LexInv on_section i l h e v = cc

space-LexInv :
    (i : ℕ) (l : Lexer)
    → LexInv i l
    → LexInv (i + 1) (
        if i == l.current_span.start && l.current_span.len == 0
        then record l {
          current_span = record (l.current_span) { start = l.current_span.start + 1 };
        }
        else record l { current_span = longer l.current_span })
space-LexInv i l v = elim (Bool-cases (i == l.current_span.start && l.current_span.len == 0)) [
  | inl e ↦
      let z : l.current_span.len ≡ 0 = ground arith in
      rw e (record {
        last_end = v.last_end;
        ordered = v.ordered;
        before = later-Before l.state l v.last_end z v.before;
        inside = omega (arith, v.inside);
        trimmed_le = omega arith;
        empty_here = λ _. omega (arith, v.empty_here z);
      })
  | inr e ↦ rw e (longer-LexInv i l (ground (arith, v.empty_here)) v)
]

taken-LexInv : (i c : ℕ) (l : Lexer) → LexInv i l → LexInv (i + 1) (taken c l)
taken-LexInv i c l v = record {
  last_end = v.last_end;
  ordered = v.ordered;
  before = taken-Before l.state l c v.last_end v.before;
  inside = omega (arith, v.inside);
  trimmed_le = λ _. omega arith;
  empty_here = omega arith;
}

is_on_key-eq : (m : Mode) → is_on_key m ≡ true → m ≡ on_key
is_on_key-eq on_key h = refl
is_on_key-eq on_none h = cc
is_on_key-eq on_value h = cc
is_on_key-eq on_comment h = cc
is_on_key-eq on_section h = cc

inv-IsOrdered :
    (text : Bytes) (i : ℕ) (l : Lexer) → LexInv i l → IsOrdered 0 i (end_line text l.state l).ret
inv-IsOrdered text i l v =
    end_line-IsOrdered text l.state l i v.last_end v.ordered v.before v.inside v.trimmed_le

step-LexInv : (text : Bytes) (i c : ℕ) (l : Lexer) → LexInv i l → LexInv (i + 1) (step text i c l)
unfolding step
step-LexInv text i c l v =
    elim (Bool-cases (c == b'\n' || (not (is_on_comment l.state) && c == b'#'))) [
      | inl e ↦ rw e (begin_line-LexInv i c (end_line text l.state l) (inv-IsOrdered text i l v))
      | inr e ↦ rw e (elim (Bool-cases (is_on_comment l.state)) [
        | inl k ↦ rw k (comment-LexInv l.state i l k refl v)
        | inr k ↦ rw k (elim (Bool-cases (c == b' ' || c == b'\t')) [
          | inl f ↦ rw f (space-LexInv i l v)
          | inr f ↦ rw f (elim (Bool-cases (c == b'=' && is_on_key l.state)) [
            | inl g ↦ rw g (end_key-LexInv text i l (is_on_key-eq l.state (ground arith)) v)
            | inr g ↦ rw g (taken-LexInv i c l v)
          ])
        ])
      ])
    ]

run-IsOrdered :
    (text cs : Bytes) (i : ℕ) (l : Lexer)
    → LexInv i l
    → IsOrdered 0 (i + length cs) (run text cs i l).ret
unfolding run
run-IsOrdered text [] i l v = IsOrdered-mono 0 i (i + 0) _ (omega arith) (inv-IsOrdered text i l v)
run-IsOrdered text (c ∷ cs) i l v =
    IsOrdered-mono 0 (i + 1 + length cs) (i + suc (length cs)) _ (omega arith)
      (run-IsOrdered text cs (i + 1) (step text i c l) (step-LexInv text i c l v))

-- For every text, the spans that `highlight_config` gives before its end mark lie inside the text,
-- in its order and without overlap, and none of them is empty.
pub highlight_spans-IsOrdered : (text : Bytes) → IsOrdered 0 (length text) (highlight_spans text)
unfolding highlight_spans
highlight_spans-IsOrdered text = IsOrdered-mono 0 (0 + length text) (length text) _ (omega arith) (
    run-IsOrdered text text 0 initial (record {
      last_end = 0;
      ordered = omega arith;
      before = omega arith;
      inside = omega arith;
      trimmed_le = omega arith;
      empty_here = λ _. refl;
    }))
