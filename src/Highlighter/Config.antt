-- ===== src/Highlighter/Config.antt =====
-- `highlight_config`: the state machine over the characters of the file.
use wireguard_android_expres.Base.{
  ℕ, ◌+◌, ◌-◌, ◌^◌, Bool, true, false, ◌&&◌, ◌||◌, not, ◌==◌, if◌then◌else◌, [], ◌∷◌, Bytes,
}
use wireguard_android_expres.Highlighter.Span.{StringSpan}
use wireguard_android_expres.Highlighter.Field.{
  Field, invalid, section_for_field, same_section, is_invalid, get_field, get_sectiontype,
}
use wireguard_android_expres.Highlighter.Spans.{
  section, field_name, comment, delimiter, error, end, Spans, append_highlight_span,
  highlight_value,
}

pub data Mode : Type 0 where
  on_none on_key on_value on_comment on_section : Mode

-- The variables of the loop, but for the index.
pub record Lexer : Type 0 where
  pub ret : Spans
  pub current_span : StringSpan
  pub current_section : Field
  pub current_field : Field
  pub state : Mode
  pub len_at_last_space : ℕ
  pub equals_location : ℕ

abbrev pub is_on_comment : Mode → Bool
is_on_comment on_comment = true
is_on_comment _ = false

abbrev pub is_on_key : Mode → Bool
is_on_key on_key = true
is_on_key _ = false

abbrev pub trimmed : Lexer → StringSpan
trimmed l = record (l.current_span) { len = l.len_at_last_space }

-- What a line's end appends, in each state.
unfoldable pub end_line : Bytes → Mode → Lexer → Lexer
end_line text on_key l = record l {
  ret = append_highlight_span l.ret (trimmed l) error;
  current_span = trimmed l;
}
end_line text on_value l =
    let equals : StringSpan = record { start = l.equals_location; len = 1 } in
    if not (l.current_span.len == 0)
    then record l {
      ret =
          highlight_value text (append_highlight_span l.ret equals delimiter) (trimmed l)
            l.current_field;
      current_span = trimmed l;
    }
    else record l { ret = append_highlight_span l.ret equals error }
end_line text on_section l =
    let found = get_sectiontype text (trimmed l) in
    record l {
      ret = append_highlight_span l.ret (trimmed l) (if is_invalid found then error else section);
      current_span = trimmed l;
      current_section = found;
    }
end_line text on_comment l = record l { ret = append_highlight_span l.ret l.current_span comment }
end_line text on_none l = l

-- What follows a line's end at the character `c`: a comment, or a new line.
unfoldable pub begin_line : ℕ → ℕ → Lexer → Lexer
begin_line i c l =
    if c == b'#'
    then record l {
      len_at_last_space = 0;
      current_field = invalid;
      current_span = record { start = i; len = 1 };
      state = on_comment;
    }
    else record l {
      len_at_last_space = 0;
      current_field = invalid;
      current_span = record { start = i + 1; len = 0 };
      state = on_none;
    }

-- The first `=` behind a key.
unfoldable pub end_key : Bytes → ℕ → Lexer → Lexer
end_key text i l =
    let f = get_field text (trimmed l) in
    let s = section_for_field f in
    record l {
      ret = append_highlight_span l.ret (trimmed l) (
          if is_invalid s || is_invalid f || not (same_section s l.current_section)
          then error
          else field_name);
      current_field = f;
      equals_location = i;
      current_span = record { start = i + 1; len = 0 };
      state = on_value;
    }

abbrev pub start_mode : Mode → ℕ → Mode
start_mode on_none c = if c == b'[' then on_section else on_key
start_mode m c = m

abbrev pub longer : StringSpan → StringSpan
longer s = record s { len = s.len + 1 }

-- One turn of the loop at a character of the text.
unfoldable pub step : Bytes → ℕ → ℕ → Lexer → Lexer
step text i c l =
    if c == b'\n' || (not (is_on_comment l.state) && c == b'#')
    then begin_line i c (end_line text l.state l)
    else if is_on_comment l.state
    then record l { current_span = longer l.current_span }
    else if c == b' ' || c == b'\t'
    then (if i == l.current_span.start && l.current_span.len == 0
        then record l {
          current_span = record (l.current_span) { start = l.current_span.start + 1 };
        }
        else record l { current_span = longer l.current_span })
    else if c == b'=' && is_on_key l.state
    then end_key text i l
    else record l {
      state = start_mode l.state c;
      current_span = longer l.current_span;
      len_at_last_space = l.current_span.len + 1;
    }

-- The loop over the characters that are left, up to the turn at the end of the text.
unfoldable pub run : Bytes → Bytes → ℕ → Lexer → Lexer
run text [] i l = end_line text l.state l
run text (c ∷ cs) i l = run text cs (i + 1) (step text i c l)

abbrev pub initial : Lexer
initial = record {
  ret = [];
  current_span = record { start = 0; len = 0 };
  current_section = invalid;
  current_field = invalid;
  state = on_none;
  len_at_last_space = 0;
  equals_location = 0;
}

-- The spans before the end mark.
unfoldable pub highlight_spans : Bytes → Spans
highlight_spans text = (run text text 0 initial).ret

unfoldable pub highlight_config : Bytes → Spans
highlight_config text =
    append_highlight_span (highlight_spans text) (record { start = 0; len = 2 ^ 64 - 1 }) end
