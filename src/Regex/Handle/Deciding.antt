-- ===== src/Regex/Handle/Deciding.antt =====
-- The searches of a compiled pattern, against the tree that its parser made.
use vexspoke.Base.{
  ℕ, suc, ◌+◌, ◌≤◌, ◌≡◌, ◌≢◌, ◌∙◌, ◌↔◌, inl, inr, refl, sym, ap, List, Bool, true, false, not, ◌&&◌,
  ◌==◌, arith, length, Option, none, some, Option-cases, Bool-cases,
}
use vexspoke.Regex.Span.{Span}
use vexspoke.Regex.Program.{build, empty_program}
use vexspoke.Regex.Program.Tree.{Ast, read_tree}
use vexspoke.Regex.Parser.{Parser, Parsed, done, refused}
use vexspoke.Regex.Parser.Descent.{parse}
use vexspoke.Regex.Parser.Trees.{parse-read_tree}
use vexspoke.Regex.Vm.{is_some, vm_initialize, vm_run, vm_run_full, vm_span}
use vexspoke.Regex.Vm.Captures.{GroupsFit}
use vexspoke.Regex.Vm.Reporting.{vm_run-reports, vm_run_full-reports}
use vexspoke.Regex.Vm.Matching.{vm_run-Matches}
use vexspoke.Regex.Vm.Deciding.{some_of, vm_run-finds, vm_run_full_iff}
use vexspoke.Regex.Language.{Matches}
use vexspoke.Regex.Handle.{
  Regex, CompileError, compiled, thrown, has_flag, case_insensitive, regex_options, emit_parsed,
  compile_pattern, regex_2, run_search, regex_is_match, regex_is_full_match, regex_find,
}

-- The tree of a compiled pattern: the one that the nodes below the root stand for, where the parser
-- has accepted the pattern with that root; the program is built of the same nodes.
pub record HasTree (granted : ℕ → Bool) (pattern : List ℕ) (flags : ℕ) (r : Regex) (x : Ast)
    : Type 0 where
  pub root : ℕ
  pub parser : Parser
  pub parsed : parse granted pattern (has_flag flags case_insensitive) ≡ done root parser
  pub read : read_tree (suc root) parser.nodes.nodes root ≡ some x
  pub built : build granted (suc root) parser.nodes.nodes root empty_program ≡ some r.program
  pub flags_kept : r.flags ≡ flags
  pub classes_kept : r.classes ≡ parser.classes
  pub groups_kept : r.group_count ≡ parser.group_count

thrown_ne : {e : CompileError} {r : Regex} → thrown e ≢ compiled r
thrown_ne c = cc

both : (n : ℕ) → (0 == 0 && n == n) ≡ true
both n = ground arith

false_ne : false ≢ true
false_ne t = cc

none_span : {span : Span} → ◌≡◌ {A = Option Span} none (some span) → ⊥
none_span e = cc

span_inj : (s t : Span) → ◌≡◌ {A = Option Span} (some s) (some t) → s ≡ t
span_inj s t e = cc

compiled_inj : (r s : Regex) → compiled r ≡ compiled s → r ≡ s
compiled_inj r s e = cc

module _ (granted : ℕ → Bool) (pattern : List ℕ) (flags : ℕ) where
  emit_parsed-HasTree :
      (m : Parsed ℕ) (r : Regex)
      → parse granted pattern (has_flag flags case_insensitive) ≡ m
      → emit_parsed granted pattern flags m ≡ compiled r
      → (x : Ast) × HasTree granted pattern flags r x
  unfolding emit_parsed
  emit_parsed-HasTree (refused f) r e c = absurd (thrown_ne c)
  emit_parsed-HasTree (done root p) r e c =
      let (inside, linked, (x, read)) =
        parse-read_tree granted pattern (has_flag flags case_insensitive) root p e in
      elim (Option-cases (build granted (suc root) p.nodes.nodes root empty_program)) [
        | inl n ↦ absurd (thrown_ne (rw (emit_parsed, n) at c))
        | inr (program, b) ↦
            let q : _ ≡ r = compiled_inj _ r (rw (emit_parsed, b) at c) in
            (
              x,
              record {
                root = root;
                parser = p;
                parsed = e;
                read = read;
                built = b ∙ ap (λ (s : Regex). some s.program) q;
                flags_kept = sym (ap (λ (s : Regex). s.flags) q);
                classes_kept = sym (ap (λ (s : Regex). s.classes) q);
                groups_kept = sym (ap (λ (s : Regex). s.group_count) q);
              },
            )
      ]

  -- What Regex_2 compiles has a tree: the parser accepted the pattern, the nodes below the root that
  -- it returned stand for that tree, and the program is the one that RegexProgram_build made of them.
  pub regex_2-HasTree :
      (r : Regex)
      → regex_2 granted (some pattern) flags ≡ compiled r
      → (x : Ast) × HasTree granted pattern flags r x
  unfolding regex_2 compile_pattern
  regex_2-HasTree r c = elim (Bool-cases (not (granted 48 && granted (length pattern + 1)))) [
    | inl t ↦ absurd (thrown_ne (rw (regex_2, t) at c))
    | inr f ↦
        emit_parsed-HasTree (parse granted pattern (has_flag flags case_insensitive)) r refl
          (rw (regex_2, f) at c)
  ]

  module _ (r : Regex) (x : Ast) (tree : HasTree granted pattern flags r x)
      (given : vm_initialize granted r.program r.group_count ≡ true) (subject : List ℕ) where
    searched :
        run_search granted (some r) (some subject) false
        ≡ vm_run r.program r.classes subject (regex_options r.flags) r.group_count false
    unfolding run_search
    searched = rw given refl

    searched_full :
        run_search granted (some r) (some subject) true
        ≡ vm_run_full r.program r.classes subject (regex_options r.flags) r.group_count
    unfolding run_search
    searched_full = rw given refl

    -- Regex_isMatch, of a compiled pattern on a machine that the arena gives, is true exactly where the
    -- tree of the pattern matches some stretch that begins in the subject.
    pub regex_is_match_iff : (regex_is_match granted (some r) (some subject) ≡ true) ↔ (
        (i j : ℕ) × (i ≤ length subject) × Matches r.classes subject (regex_options r.flags) x i j)
    regex_is_match_iff = (found, finds)
      where
        found :
            regex_is_match granted (some r) (some subject) ≡ true
            → (i j : ℕ) × (i ≤ length subject)
              × Matches r.classes subject (regex_options r.flags) x i j
        found t =
            let (row, e) = some_of (run_search granted (some r) (some subject) false) t in
            let (i, j, low, first, m) =
              vm_run-Matches r.classes subject (regex_options r.flags) granted (suc tree.root)
                tree.parser.nodes.nodes tree.root x r.program r.group_count false row tree.read
                tree.built (sym searched ∙ e) in
            (i, j, low, m)

        finds :
            (i j : ℕ) × (i ≤ length subject)
              × Matches r.classes subject (regex_options r.flags) x i j
            → regex_is_match granted (some r) (some subject) ≡ true
        finds (i, j, low, m) = rw searched (
            vm_run-finds r.classes subject (regex_options r.flags) granted (suc tree.root)
              tree.parser.nodes.nodes tree.root x r.program r.group_count false i j tree.read
              tree.built m low (λ t. absurd (false_ne t)))

    module _ (fits : GroupsFit x) where
      -- The span that Regex_find, of a compiled pattern on a machine that the arena gives, reports is a
      -- stretch, beginning in the subject, that the tree of the pattern matches. The group numbers of
      -- the tree are below 2^31.
      pub regex_find-Matches :
          (span : Span)
          → regex_find granted (some r) (some subject) ≡ some span
          → (i j : ℕ) × (span ≡ record { start = some i; end = some j })
            × (i ≤ length subject)
            × Matches r.classes subject (regex_options r.flags) x i j
      regex_find-Matches span e =
          elim (Option-cases (run_search granted (some r) (some subject) false)) [
            | inl n ↦ absurd (none_span (rw n at e))
            | inr (row, won) ↦
                let one =
                  vm_run-reports r.classes subject (regex_options r.flags) granted (suc tree.root)
                    tree.parser.nodes.nodes tree.root x r.program r.group_count false row tree.read
                    tree.built fits (sym searched ∙ won) in
                (
                  one.start,
                  one.end,
                  span_inj span (vm_span row 0) (sym e ∙ rw won refl) ∙ one.span_of,
                  one.inside,
                  one.matches,
                )
          ]

      -- Regex_isFullMatch, of a compiled pattern on a machine that the arena gives, is true exactly
      -- where the tree of the pattern matches the whole subject: its last test, of the span that the
      -- machine reports, never refuses a match. The group numbers of the tree are below 2^31.
      pub regex_is_full_match_iff :
          (regex_is_full_match granted (some r) (some subject) ≡ true)
          ↔ Matches r.classes subject (regex_options r.flags) x 0 (length subject)
      regex_is_full_match_iff = (found, finds)
        where
          decided :
              (is_some
                  (vm_run_full r.program r.classes subject (regex_options r.flags) r.group_count)
                ≡ true)
              ↔ Matches r.classes subject (regex_options r.flags) x 0 (length subject)
          decided =
              vm_run_full_iff r.classes subject (regex_options r.flags) granted (suc tree.root)
                tree.parser.nodes.nodes tree.root x r.program r.group_count tree.read tree.built

          found :
              regex_is_full_match granted (some r) (some subject) ≡ true
              → Matches r.classes subject (regex_options r.flags) x 0 (length subject)
          found t = elim (Option-cases (run_search granted (some r) (some subject) true)) [
            | inl n ↦ absurd (false_ne (rw n at t))
            | inr (row, won) ↦ decided.0 (rw (sym searched_full ∙ won) refl)
          ]

          finds :
              Matches r.classes subject (regex_options r.flags) x 0 (length subject)
              → regex_is_full_match granted (some r) (some subject) ≡ true
          finds m =
              let (row, won) = some_of _ (decided.1 m) in
              let one =
                vm_run_full-reports r.classes subject (regex_options r.flags) granted
                  (suc tree.root) tree.parser.nodes.nodes tree.root x r.program r.group_count row
                  tree.read tree.built fits won in
              rw (searched_full ∙ won, one.span_of, one.first refl, one.whole refl)
                (both (length subject))
