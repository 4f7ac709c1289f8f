-- ===== src/Regex/Span.antt =====
-- src/regex/span.c: `RegexSpan`, a stretch of the subject. `none` is REGEX_UNSET.
use vexspoke.Base.{ℕ, ◌-◌, Bool, true, false, ltb, if◌then◌else◌, Option, none, some}

pub record Span : Type 0 where
  pub start : Option ℕ
  pub end : Option ℕ

-- RegexSpan_none.
abbrev pub no_span : Span
no_span = record { start = none; end = none }

abbrev pub is_set : Option ℕ → Option ℕ → Bool
is_set none end = false
is_set (some s) none = false
is_set (some s) (some e) = true

-- RegexSpan_isSet.
abbrev pub span_is_set : Span → Bool
span_is_set span = is_set span.start span.end

abbrev pub distance : Option ℕ → Option ℕ → ℕ
distance none end = 0
distance (some s) none = 0
distance (some s) (some e) = if ltb e s then 0 else e - s

-- RegexSpan_length.
abbrev pub span_length : Span → ℕ
span_length span = distance span.start span.end
