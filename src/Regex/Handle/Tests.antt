-- ===== src/Regex/Handle/Tests.antt =====
-- The pattern `a*`, compiled and searched.
use vexspoke.Base.{ℕ, ◌≤◌, ◌≡◌, ◌↔◌, refl, [], ◌∷◌, true, some}
use vexspoke.Regex.Span.{Span}
use vexspoke.Regex.Program.Samples.{a_star, always, a_star_program}
use vexspoke.Regex.Parser.{done}
use vexspoke.Regex.Parser.Samples.{a_star_text, a_star_parser, a_star_parsed}
use vexspoke.Regex.Program.Samples.{a_star_read_at_root, a_star_built_at_root}
use vexspoke.Regex.Vm.Samples.{two_as_searched, a_star_given}
use vexspoke.Regex.Language.{Matches}
use vexspoke.Regex.Handle.{
  Regex, compiled, regex_options, emit_parsed, compile_pattern, regex_2, run_search, regex_is_match,
  regex_is_full_match, regex_find,
}
use vexspoke.Base.{List, Option, length, leb, take, arith}
use vexspoke.Regex.Handle.Text.{RegexText, Format, regex_to_string}
use vexspoke.Regex.Handle.Text.Fits.{whole_text, regex_to_string-Holds}
use vexspoke.Regex.Handle.Deciding.{
  HasTree, regex_is_match_iff, regex_find-Matches, regex_is_full_match_iff,
}

abbrev a_star_regex : Regex
a_star_regex = record {
  pattern = a_star_text;
  flags = 0;
  group_count = 0;
  program = a_star_program;
  classes = [];
}

emitted : emit_parsed always a_star_text 0 (done 1 a_star_parser) ≡ compiled a_star_regex
unfolding emit_parsed
emitted = rw (emit_parsed, a_star_built_at_root) refl

a_star_compiled : regex_2 always (some a_star_text) 0 ≡ compiled a_star_regex
unfolding regex_2 compile_pattern
a_star_compiled = rw a_star_parsed emitted

a_star_tree : HasTree always a_star_text 0 a_star_regex a_star
a_star_tree = record {
  root = 1;
  parser = a_star_parser;
  parsed = a_star_parsed;
  read = a_star_read_at_root;
  built = a_star_built_at_root;
  flags_kept = refl;
  classes_kept = refl;
  groups_kept = refl;
}

found_two :
    regex_find always (some a_star_regex) (some (97 ∷ 97 ∷ []))
    ≡ some (record { start = some 0; end = some 2 })
unfolding run_search
found_two = rw (a_star_given, two_as_searched) refl

regex_is_match_iff_example :
    (regex_is_match always (some a_star_regex) (some (98 ∷ [])) ≡ true)
    ↔ ((i j : ℕ) × (i ≤ 1) × Matches [] (98 ∷ []) (regex_options 0) a_star i j)
regex_is_match_iff_example =
    regex_is_match_iff always a_star_text 0 a_star_regex a_star a_star_tree a_star_given (98 ∷ [])

regex_is_full_match_iff_example :
    (regex_is_full_match always (some a_star_regex) (some (98 ∷ [])) ≡ true)
    ↔ Matches [] (98 ∷ []) (regex_options 0) a_star 0 1
regex_is_full_match_iff_example =
    regex_is_full_match_iff always a_star_text 0 a_star_regex a_star a_star_tree a_star_given
      (98 ∷ []) tt

regex_find-Matches_example :
    (i j : ℕ) × (◌≡◌ {A = Span}
      (record { start = some 0; end = some 2 })
      (record { start = some i; end = some j }))
    × (i ≤ 2)
    × Matches [] (97 ∷ 97 ∷ []) (regex_options 0) a_star i j
regex_find-Matches_example =
    regex_find-Matches always a_star_text 0 a_star_regex a_star a_star_tree a_star_given
      (97 ∷ 97 ∷ []) tt (record { start = some 0; end = some 2 }) found_two

abbrev counts : Format → Option (List ℕ)
counts format = some (b'2' ∷ [])

regex_to_string-Holds_example :
    (text : RegexText) × (regex_to_string counts 5 (some a_star_regex) ≡ some text)
    × (text.written ≡ take 4 (whole_text counts a_star_regex))
    × (text.truncated ≡ leb 5 (length (whole_text counts a_star_regex)))
regex_to_string-Holds_example = regex_to_string-Holds counts 5 a_star_regex (omega arith)

cut_after_four : ((whole_text counts a_star_regex) ≡ b'/' ∷ b'a' ∷ b'*' ∷ b'/' ∷ b'2' ∷ [])
cut_after_four = refl
