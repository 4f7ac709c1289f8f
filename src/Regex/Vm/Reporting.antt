-- ===== src/Regex/Vm/Reporting.antt =====
-- The span that RegexVm_run reports is a stretch of the subject that the pattern matches.
use vexspoke.Base.{
  ℕ, ◌+◌, ◌*◌, ◌≤◌, ◌≡◌, refl, sym, List, [], ◌∷◌, Bool, true, false, arith, ltb, length,
  length-replicate, get_or, get_elem?, Option, none, some,
}
use vexspoke.Regex.CharClass.{CharClass}
use vexspoke.Regex.NodeList.{Node}
use vexspoke.Regex.Program.{Inst, Program, build, empty_program}
use vexspoke.Regex.Program.Tree.{Ast, read_tree}
use vexspoke.Regex.Program.Building.{build-some}
use vexspoke.Regex.Program.Code.{program_code}
use vexspoke.Regex.Vm.{Options, Row, vm_run, vm_run_full, vm_span}
use vexspoke.Regex.Vm.Threads.{row_after, Accepting, Won, run_from-Won}
use vexspoke.Regex.Vm.Captures.{GroupsFit}
use vexspoke.Regex.Vm.Rows.{Traced, Traced-begins, Traced-moves}
use vexspoke.Regex.Vm.Matching.{unset, match_at_end, run-Matches}
use vexspoke.Regex.Language.{Matches}
use vexspoke.Regex.Language.Run.{StepBy}

none_ne : {row : Row} → ◌≡◌ {A = Option Row} none (some row) → ⊥
none_ne e = cc

some_inj : (r s : Row) → ◌≡◌ {A = Option Row} (some r) (some s) → r ≡ s
some_inj r s e = cc

module _ (classes : List CharClass) (subject : List ℕ) (options : Options) where
  -- The span of group 0 in a row is one that the tree matches.
  pub record Reported (x : Ast) (anchored full : Bool) (row : Row) : Type 0 where
    pub start : ℕ
    pub end : ℕ
    pub span_of : vm_span row 0 ≡ record { start = some start; end = some end }
    pub inside : start ≤ length subject
    pub first : anchored ≡ true → start ≡ 0
    pub whole : full ≡ true → end ≡ length subject
    pub matches : Matches classes subject options x start end

  span_at :
      (row : Row) (i j : ℕ)
      → 2 ≤ length row
      → get_or row 0 none ≡ some i
      → get_or row 1 none ≡ some j
      → vm_span row 0 ≡ record { start = some i; end = some j }
  span_at [] i j h e f = absurd (omega (arith, h))
  span_at (a ∷ []) i j h e f = absurd (omega (arith, h))
  span_at (a ∷ b ∷ row) i j h e f =
      let t : ltb (2 * 0 + 1) (length (a ∷ b ∷ row)) ≡ true = ground arith in rw (e, f, t) refl

  module _ (x : Ast) (p : Program) (anchored full : Bool) (groups : ℕ)
      (e : p.insts ≡ program_code x) (fits : GroupsFit x) where
    moves :
        (pos pc pos' pc' : ℕ) (row : Row) (i : Inst)
        → get_elem? p.insts pc ≡ some i
        → StepBy classes subject options i i.op pc pos pc' pos'
        → Traced classes subject options x anchored pos pc row
        → Traced classes subject options x anchored pos' pc' (row_after i.op i.a pos row)
    moves pos pc pos' pc' row i at s one =
        Traced-moves classes subject options x anchored fits pos pc pos' pc' row i (rw e at at) s
          one

    begins :
        (pos : ℕ)
        → pos ≤ length subject
        → (anchored ≡ true → pos ≡ 0)
        → Traced classes subject options x anchored pos 0 (unset groups)
    begins pos h first =
        let absent : Option ℕ = none in
        Traced-begins classes subject options x anchored pos (unset groups)
          (omega (arith, length-replicate (2 * (groups + 1)) absent)) h first

    Accepting-Reported :
        (pos : ℕ) (row : Row)
        → Accepting p classes subject options anchored full
            (unset groups)
            (Traced classes subject options x anchored)
            moves
            begins
            pos
            row
        → Reported x anchored full row
    Accepting-Reported pos row one =
        let t = one.alive in
        let k = match_at_end classes subject options x p full one.pc e one.at_match in
        let r = t.reach in
        let steps = r.by_run in
        record {
          start = t.start;
          inside = t.inside;
          end = pos;
          span_of = span_at row t.start pos t.long (t.opened (omega (arith, k))) (t.closed k);
          first = t.first;
          whole = one.whole;
          matches = run-Matches classes subject options x r.steps t.start pos (rw k at steps);
        }

    Won-Reported :
        (won : Option Row) (row : Row)
        → Won p classes subject options anchored full
            (unset groups)
            (Traced classes subject options x anchored)
            moves
            begins
            won
        → won ≡ some row
        → Reported x anchored full row
    Won-Reported none row w q = absurd (none_ne q)
    Won-Reported (some won) row (pos, one) q =
        let q' = some_inj won row q in rw (sym q') (Accepting-Reported pos won one)

  -- Where RegexVm_run finds a match, the span of group 0 in the winning row is a stretch of the
  -- subject that the tree of the program matches, and one that begins at 0 if the search was anchored.
  -- The program is one that RegexProgram_build made of the tree, with group numbers below 2^31.
  pub vm_run-reports :
      (granted : ℕ → Bool) (fuel : ℕ) (nodes : List Node) (root : ℕ) (x : Ast) (p : Program)
      (groups : ℕ) (anchored : Bool) (row : Row)
      → read_tree fuel nodes root ≡ some x
      → build granted fuel nodes root empty_program ≡ some p
      → GroupsFit x
      → vm_run p classes subject options groups anchored ≡ some row
      → Reported x anchored false row
  unfolding vm_run
  vm_run-reports granted fuel nodes root x p groups anchored row read built fits won =
      let e = build-some granted fuel nodes root x p read built in
      Won-Reported x p anchored false groups e fits _ row
        (run_from-Won p classes subject options anchored false (unset groups)
          (Traced classes subject options x anchored) (moves x p anchored false groups e fits)
          (begins x p anchored false groups e fits) _ 0 _ none tt tt (omega arith))
        won

  -- The same of RegexVm_runFull, whose span is the whole subject.
  pub vm_run_full-reports :
      (granted : ℕ → Bool) (fuel : ℕ) (nodes : List Node) (root : ℕ) (x : Ast) (p : Program)
      (groups : ℕ) (row : Row)
      → read_tree fuel nodes root ≡ some x
      → build granted fuel nodes root empty_program ≡ some p
      → GroupsFit x
      → vm_run_full p classes subject options groups ≡ some row
      → Reported x true true row
  unfolding vm_run_full
  vm_run_full-reports granted fuel nodes root x p groups row read built fits won =
      let e = build-some granted fuel nodes root x p read built in
      Won-Reported x p true true groups e fits _ row
        (run_from-Won p classes subject options true true (unset groups)
          (Traced classes subject options x true) (moves x p true true groups e fits)
          (begins x p true true groups e fits) _ 0 _ none tt tt (omega arith))
        won
