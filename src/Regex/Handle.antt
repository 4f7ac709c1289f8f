-- ===== src/Regex/Handle.antt =====
-- src/regex/regex.c: `Regex`, a compiled pattern, and its searches. A null pointer is `none`, a
-- C string the list of its bytes before the NUL, an output that is written on a match the result.
pub mod Deciding
pub mod Text
mod Tests
use Prim.Native.Nat.{bit_and}
use vexspoke.Base.{
  ℕ, suc, ◌+◌, List, [], Bool, true, false, not, ◌&&◌, ltb, ◌==◌, if◌then◌else◌, length, tabulate,
  Option, none, some, ◌>>=◌,
}
use vexspoke.Regex.CharClass.{CharClass}
use vexspoke.Regex.Span.{Span}
use vexspoke.Regex.Program.{Program, count, build, empty_program}
use vexspoke.Regex.Parser.{Failure, Parsed, done, refused}
use vexspoke.Regex.Parser.Descent.{parse}
use vexspoke.Regex.Vm.{Options, Row, is_some, vm_initialize, vm_run, vm_run_full, vm_span}

pub record Regex : Type 0 where
  pub pattern : List ℕ
  pub flags : ℕ
  pub group_count : ℕ
  pub program : Program
  pub classes : List CharClass

-- What compilePattern and Regex_2 throw.
pub data CompileError : Type 0 where
  null_pattern out_of_memory program_too_large : CompileError
  malformed : Failure → CompileError

pub data Compiled : Type 0 where
  compiled : Regex → Compiled
  thrown : CompileError → Compiled

-- REGEX_CASE_INSENSITIVE, REGEX_DOTALL and REGEX_MULTILINE.
abbrev pub case_insensitive : ℕ
case_insensitive = 1

abbrev pub dot_all : ℕ
dot_all = 2

abbrev pub multi_line : ℕ
multi_line = 4

abbrev pub has_flag : ℕ → ℕ → Bool
has_flag flags flag = not (bit_and flags flag == 0)

-- regexOptions.
abbrev pub regex_options : ℕ → Options
regex_options flags = record {
  ignore_case = has_flag flags case_insensitive;
  dotall = has_flag flags dot_all;
  multiline = has_flag flags multi_line;
}

-- The size of a Regex.
abbrev regex_bytes : ℕ
regex_bytes = 48

module _ (granted : ℕ → Bool) where
  -- compilePattern, behind the parse. The nodes below the root have indices below it, so that the
  -- index is fuel enough for the depth.
  pub emit_parsed : List ℕ → ℕ → Parsed ℕ → Compiled
  emit_parsed pattern flags (refused e) = thrown (malformed e)
  emit_parsed pattern flags (done root p) =
      elim (build granted (suc root) p.nodes.nodes root empty_program) [
        | none ↦ thrown program_too_large
        | some program ↦ compiled (record {
          pattern = pattern;
          flags = flags;
          group_count = p.group_count;
          program = program;
          classes = p.classes;
        })
      ]

  -- compilePattern.
  pub compile_pattern : List ℕ → ℕ → Compiled
  compile_pattern pattern flags =
      emit_parsed pattern flags (parse granted pattern (has_flag flags case_insensitive))

  -- Regex_2.
  pub regex_2 : Option (List ℕ) → ℕ → Compiled
  regex_2 none flags = thrown null_pattern
  regex_2 (some pattern) flags =
      if not (granted regex_bytes && granted (length pattern + 1))
      then thrown out_of_memory
      else compile_pattern pattern flags

  -- runSearch, up to the spans: the winning row.
  pub run_search : Option Regex → Option (List ℕ) → Bool → Option Row
  run_search none subject anchored = none
  run_search (some r) none anchored = none
  run_search (some r) (some subject) anchored =
      if not (vm_initialize granted r.program r.group_count)
      then none
      else if anchored
      then vm_run_full r.program r.classes subject (regex_options r.flags) r.group_count
      else vm_run r.program r.classes subject (regex_options r.flags) r.group_count false

  -- Regex_isMatch.
  abbrev pub regex_is_match : Option Regex → Option (List ℕ) → Bool
  regex_is_match regex subject = is_some (run_search regex subject false)

  abbrev pub same_place : Option ℕ → ℕ → Bool
  same_place none k = false
  same_place (some n) k = n == k

  abbrev pub whole_span : ℕ → Option Row → Bool
  whole_span n none = false
  whole_span n (some row) =
      let whole = vm_span row 0 in same_place whole.start 0 && same_place whole.end n

  -- Regex_isFullMatch.
  abbrev pub regex_is_full_match : Option Regex → Option (List ℕ) → Bool
  regex_is_full_match regex none = false
  regex_is_full_match regex (some subject) =
      whole_span (length subject) (run_search regex (some subject) true)

  -- Regex_find.
  abbrev pub regex_find : Option Regex → Option (List ℕ) → Option Span
  regex_find regex subject = run_search regex subject false >>= λ row. some (vm_span row 0)

  -- The loop of runSearch over the spans, and whether some have no room.
  abbrev pub fill_spans : Regex → ℕ → Row → List Span × Bool
  fill_spans r span_capacity row =
      let groups = r.group_count + 1 in
      (
        tabulate (vm_span row) 0 (if ltb groups span_capacity then groups else span_capacity),
        ltb span_capacity groups,
      )

  -- Regex_findGroups.
  pub regex_find_groups : Option Regex → Option (List ℕ) → ℕ → Option (List Span × Bool)
  regex_find_groups none subject span_capacity = none
  regex_find_groups (some r) subject span_capacity =
      run_search (some r) subject false >>= λ row. some (fill_spans r span_capacity row)

-- Regex_pattern, Regex_flags, Regex_groupCount, Regex_instCount and Regex_classCount.
abbrev pub regex_pattern : Option Regex → List ℕ
regex_pattern none = []
regex_pattern (some r) = r.pattern

abbrev pub regex_flags : Option Regex → ℕ
regex_flags none = 0
regex_flags (some r) = r.flags

abbrev pub regex_group_count : Option Regex → ℕ
regex_group_count none = 0
regex_group_count (some r) = r.group_count

abbrev pub regex_inst_count : Option Regex → ℕ
regex_inst_count none = 0
regex_inst_count (some r) = count r.program

abbrev pub regex_class_count : Option Regex → ℕ
regex_class_count none = 0
regex_class_count (some r) = length r.classes
