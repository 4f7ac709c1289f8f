-- ===== src/Regex/Parser.antt =====
-- src/regex/parser.c: `RegexParser`, the recursive descent from a pattern to nodes and classes. Every
-- refusal is passed up at once, so that the state after it is not read again: a result is the value
-- with the new state, or the reason of the refusal. A loop has the length of the pattern and one as
-- fuel, the nesting the 130 levels below REGEX_MAX_DEPTH; `stuck` is a run that needs more.
pub mod Lexical
pub mod Nodes
pub mod Descent
pub mod Ends
pub mod Reading
pub mod Classes
pub mod Linked
pub mod Building
pub mod Groups
pub mod Atoms
pub mod Repeats
pub mod Trees
pub mod Samples
mod Tests
use vexspoke.Base.{
  ℕ, zero, suc, ◌+◌, ◌-◌, ◌*◌, List, [], Bool, true, false, ltb, leb, ◌==◌, if◌then◌else◌, length,
  get_or, Option,
}
use vexspoke.Regex.CharClass.{CharClass}
use vexspoke.Regex.NodeList.{NodeList, empty_list}

-- The messages of parserFail.
pub data Failure : Type 0 where
  too_complex out_of_memory too_many_classes trailing_backslash malformed_hex unsupported_escape :
      Failure
  unsupported_group too_deep missing_paren class_in_range bad_range missing_bracket : Failure
  nothing_to_repeat count_too_large malformed_repetition bad_repetition stacked : Failure
  unexpected_paren stuck : Failure

-- RegexParser, but for the pattern, its length and ignoreCase, which do not change.
pub record Parser : Type 0 where
  pub pos : ℕ
  pub nodes : NodeList
  pub classes : List CharClass
  pub class_capacity : ℕ
  pub group_count : ℕ
  pub depth : ℕ

pub data Parsed (A : Type 0) : Type 0 where
  done : A → Parser → Parsed A
  refused : Failure → Parsed A

infixl 5 ◌>>=◌
abbrev pub ◌>>=◌ : {A B : Type 0} → Parsed A → (A → Parser → Parsed B) → Parsed B
done a p >>= f = f a p
refused e >>= f = refused e

-- RegexParser_3.
abbrev pub start : Parser
start = record {
  pos = 0;
  nodes = empty_list;
  classes = [];
  class_capacity = 0;
  group_count = 0;
  depth = 0;
}

abbrev pub advance : ℕ → Parser → Parser
advance n p = record p { pos = p.pos + n }

module _ (pattern : List ℕ) where
  -- The byte at a place of the pattern.
  abbrev pub byte_at : ℕ → ℕ
  byte_at i = get_or pattern i 0

  abbrev pub here : Parser → ℕ
  here p = byte_at p.pos

  abbrev pub more : Parser → Bool
  more p = ltb p.pos (length pattern)
