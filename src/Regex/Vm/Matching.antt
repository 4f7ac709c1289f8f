-- ===== src/Regex/Vm/Matching.antt =====
-- RegexVm_run and RegexVm_runFull report a match only where the pattern has one.
use vexspoke.Base.{
  ℕ, zero, suc, ◌+◌, ◌≤◌, ◌≡◌, ◌≢◌, ◌∙◌, refl, sym, ap, inl, inr, List, [], ◌∷◌, ◌++◌, Bool, true,
  false, arith, length, length-append, get_elem?, Option, none, some, Option-cases, Bool-cases,
  append_assoc, replicate, ◌*◌,
}
use vexspoke.Regex.CharClass.{CharClass}
use vexspoke.Regex.Program.{Op, save, match, Inst, inst, Program, build, empty_program}
use vexspoke.Regex.NodeList.{Node}
use vexspoke.Regex.Program.Tree.{Ast, read_tree}
use vexspoke.Regex.Program.Building.{build-some}
use vexspoke.Regex.Program.Code.{size, code, program_code, length-code}
use vexspoke.Regex.Vm.{Options, Row, is_match, vm_run, vm_run_full}
use vexspoke.Regex.Vm.Threads.{row_after, Accepting, Won, run_from-Won}
use vexspoke.Regex.Language.{Matches}
use vexspoke.Regex.Language.Run.{
  Stands, Stands-append, Run, step_by, StepBy, Reach, Reach-trans, Reach-Step,
}
use vexspoke.Regex.Language.Sound.{run_begins, at_place, sound}

-- The row that a search begins with.
abbrev pub unset : ℕ → Row
unset groups = replicate (2 * (groups + 1)) none

abbrev is_match_op : Op → Bool
is_match_op op = elim op [ match ↦ true | _ ↦ false ]

abbrev is_match_at : Option Inst → Bool
is_match_at none = false
is_match_at (some i) = is_match_op i.op

abbrev no_match : List Inst → Bool
no_match [] = true
no_match (i ∷ is) = elim (is_match_op i.op) [ true ↦ false | false ↦ no_match is ]

no_match-append :
    (xs ys : List Inst) → no_match xs ≡ true → no_match ys ≡ true → no_match (xs ++ ys) ≡ true
no_match-append [] ys h h' = h'
no_match-append (x ∷ xs) ys h h' = elim (Bool-cases (is_match_op x.op)) [
  | inl t ↦ absurd (true_ne (rw (no_match, t) at h))
  | inr f ↦ rw (no_match, f) (no_match-append xs ys (rw (no_match, f) at h) h')
]
  where
    true_ne : false ≢ true
    true_ne e = cc

-- The code of a tree has no MATCH in it.
no_match-code : (pc : ℕ) (x : Ast) → no_match (code pc x) ≡ true
no_match-code pc Ast.empty = refl
no_match-code pc Ast.any = refl
no_match-code pc Ast.bol = refl
no_match-code pc Ast.eol = refl
no_match-code pc (Ast.char c) = refl
no_match-code pc (Ast.class k) = refl
no_match-code pc (Ast.concat x y) =
    no_match-append (code pc x) _ (no_match-code pc x) (no_match-code (pc + size x) y)
no_match-code pc (Ast.alt x y) =
    no_match-append (code (suc pc) x) _ (no_match-code (suc pc) x)
      (no_match-code (suc (suc (pc + size x))) y)
no_match-code pc (Ast.star x) = no_match-append (code (suc pc) x) _ (no_match-code (suc pc) x) refl
no_match-code pc (Ast.plus x) = no_match-append (code pc x) _ (no_match-code pc x) refl
no_match-code pc (Ast.quest x) = no_match-code (suc pc) x
no_match-code pc (Ast.group zero x) = no_match-code pc x
no_match-code pc (Ast.group (suc g) x) =
    no_match-append (code (suc pc) x) _ (no_match-code (suc pc) x) refl

-- A MATCH that stands behind a list without one is at its end.
only_last :
    (xs : List Inst) (i : Inst) (k : ℕ)
    → no_match xs ≡ true
    → is_match_at (get_elem? (xs ++ i ∷ []) k) ≡ true
    → k ≡ length xs
only_last [] i zero h m = refl
only_last [] i (suc k) h m = absurd (true_ne m)
  where
    true_ne : false ≢ true
    true_ne e = cc
only_last (x ∷ xs) i zero h m = absurd (both (is_match_op x.op) (no_match xs) h m)
  where
    both : (b c : Bool) → (elim b [ true ↦ false | false ↦ c ]) ≡ true → b ≡ true → ⊥
    both true c h m = let no : false ≡ true = h in cc
    both false c h m = cc
only_last (x ∷ xs) i (suc k) h m =
    ap suc (only_last xs i k (tail (is_match_op x.op) (no_match xs) h) m)
  where
    tail : (b c : Bool) → (elim b [ true ↦ false | false ↦ c ]) ≡ true → c ≡ true
    tail true c h = let no : false ≡ true = h in cc
    tail false c h = h

get_elem?-here :
    (xs : List Inst) (i : Inst) (ys : List Inst) → get_elem? (xs ++ i ∷ ys) (length xs) ≡ some i
get_elem?-here [] i ys = refl
get_elem?-here (x ∷ xs) i ys = get_elem?-here xs i ys

pub Stands-behind : (xs ys : List Inst) → Stands (xs ++ ys) (length xs) ys
Stands-behind xs [] = tt
Stands-behind xs (y ∷ ys) =
    let one = Stands-behind (xs ++ y ∷ []) ys in
    let n : length (xs ++ y ∷ []) ≡ suc (length xs) = omega (arith, length-append xs (y ∷ [])) in
    (get_elem?-here xs y ys, rw (n, append_assoc) at one)

module _ (classes : List CharClass) (subject : List ℕ) (options : Options) where
  -- A run that ends at a MATCH goes no further.
  at_end_of_run :
      (insts : List Inst) (n end pos last : ℕ) (i : Inst)
      → get_elem? insts end ≡ some i
      → i.op ≡ match
      → Run classes subject options insts n end pos end last
      → pos ≡ last
  at_end_of_run insts zero end pos last i e o r = r.1
  at_end_of_run insts (suc n) end pos last i e o (pc', pos', s, r) =
      let stepped = step_by classes subject options insts end pos pc' pos' i e s in
      absurd (rw o at stepped)

  -- A run of the code of a whole program, from its first instruction to its MATCH.
  pub run-Matches :
      (x : Ast) (n i last : ℕ)
      → Run classes subject options (program_code x) n 0 i (size x + 2) last
      → Matches classes subject options x i last
  run-Matches x n i last r =
      let insts = program_code x in
      let end = size x + 2 in
      let all = Stands-behind [] insts in
      let parts = Stands-append insts 1 (code 1 x) _ all.1 in
      let e : 1 + length (code 1 x) ≡ 1 + size x = omega (arith, length-code 1 x) in
      let behind = rw e at parts.1 in
      let e' : suc (1 + size x) ≡ end = omega arith in
      let at_match = rw e' at behind.1.0 in
      let f = run_begins classes subject options insts n 0 i end last all.0 (omega arith) r in
      let a = sound classes subject options insts x 1 f.after i end last parts.0 (omega arith) (
        at_place classes subject options insts f.after end last f.next f.next_pos 1 i f.step.0
          f.step.1 f.rest) in
      let g =
        run_begins classes subject options insts a.left (1 + size x) a.stop end last behind.0
          (omega arith) a.rest in
      let q = at_end_of_run insts g.after end a.stop last _ at_match refl (
        at_place classes subject options insts g.after end last g.next g.next_pos end a.stop
          (g.step.0 ∙ (omega arith)) g.step.1 g.rest) in
      rw (sym q) a.matches

  -- A thread stands where a run from the first instruction leads.
  abbrev Alive : List Inst → Bool → ℕ → ℕ → Row → Type 0
  Alive insts anchored pos pc row =
      (i : ℕ) × (i ≤ length subject)
      × (anchored ≡ true → i ≡ 0)
      × Reach classes subject options insts 0 i pc pos

  goes_on :
      (insts : List Inst) (anchored : Bool) (pos pc pos' pc' : ℕ) (row : Row) (i : Inst)
      → get_elem? insts pc ≡ some i
      → StepBy classes subject options i i.op pc pos pc' pos'
      → Alive insts anchored pos pc row
      → Alive insts anchored pos' pc' (row_after i.op i.a pos row)
  goes_on insts anchored pos pc pos' pc' row i e s (from, low, start, r) = (
    from,
    low,
    start,
    Reach-trans classes subject options insts r
        (Reach-Step classes subject options insts (i, e, s)),
  )

  begins :
      (insts : List Inst) (anchored : Bool) (seed : Row) (pos : ℕ)
      → pos ≤ length subject
      → (anchored ≡ true → pos ≡ 0)
      → Alive insts anchored pos 0 seed
  begins insts anchored seed pos h start =
      (pos, h, start, record { steps = 0; by_run = (refl, refl) })

  -- The MATCH of a program is its last instruction.
  pub match_at_end :
      (x : Ast) (p : Program) (full : Bool) (pc : ℕ)
      → p.insts ≡ program_code x
      → is_match p classes subject options full pc ≡ true
      → pc ≡ size x + 2
  match_at_end x p full pc e t =
      let before = inst save 0 0 0 ∷ code 1 x ++ inst save 0 1 0 ∷ [] in
      let free : no_match before ≡ true = no_match-append (code 1 x) _ (no_match-code 1 x) refl in
      let shape : p.insts ≡ before ++ inst match 0 0 0 ∷ [] = e ∙ rw append_assoc refl in
      let k : pc ≡ length before = only_last before (inst match 0 0 0) pc free (at_op shape t) in
      omega (arith, k, length-append (code 1 x) (inst save 0 1 0 ∷ []), length-code 1 x)
    where
      at_op :
          {insts : List Inst}
          → p.insts ≡ insts
          → is_match p classes subject options full pc ≡ true
          → is_match_at (get_elem? insts pc) ≡ true
      at_op {insts} q t = elim (Option-cases (get_elem? p.insts pc)) [
        | inl n ↦ rw (sym q, n) (rw (is_match, n) at t)
        | inr (i, at_pc) ↦ rw (sym q, at_pc) (rw (is_match, at_pc) at t)
      ]

  -- The place where a thread accepts ends a stretch that the pattern matches.
  Accepting-Matches :
      (x : Ast) (p : Program) (anchored full : Bool) (seed : Row) (pos : ℕ) (row : Row)
      → p.insts ≡ program_code x
      → Accepting p classes subject options anchored full seed
          (Alive p.insts anchored)
          (goes_on p.insts anchored)
          (begins p.insts anchored seed)
          pos
          row
      → (i : ℕ) × (i ≤ length subject)
        × (anchored ≡ true → i ≡ 0)
        × Matches classes subject options x i pos
  Accepting-Matches x p anchored full seed pos row e one =
      let (i, low, start, reach) = one.alive in
      let k' = match_at_end x p full one.pc e one.at_match in
      let r = reach.by_run in (i, low, start, run-Matches x reach.steps i pos (rw (e, k') at r))

  vm_run_from :
      (x : Ast) (p : Program) (anchored full : Bool) (seed : Row) (won : Option Row) (row : Row)
      → p.insts ≡ program_code x
      → Won p classes subject options anchored full seed
          (Alive p.insts anchored)
          (goes_on p.insts anchored)
          (begins p.insts anchored seed)
          won
      → won ≡ some row
      → (i j : ℕ) × (i ≤ length subject)
        × (anchored ≡ true → i ≡ 0)
        × (full ≡ true → j ≡ length subject)
        × Matches classes subject options x i j
  vm_run_from x p anchored full seed none row e w q = absurd (none_ne row q)
    where
      none_ne : (row : Row) → ◌≡◌ {A = Option Row} none (some row) → ⊥
      none_ne row q = cc
  vm_run_from x p anchored full seed (some won) row e (pos, one) q =
      let found = Accepting-Matches x p anchored full seed pos won e one in
      (found.0, pos, found.1, found.2, one.whole, found.3)

  -- Where RegexVm_run, on the program that RegexProgram_build made of a tree with any arena, finds a
  -- match, the tree matches a stretch that begins in the subject, and at 0 if the search was anchored.
  pub vm_run-Matches :
      (granted : ℕ → Bool) (fuel : ℕ) (nodes : List Node) (root : ℕ) (x : Ast) (p : Program)
      (groups : ℕ) (anchored : Bool) (row : Row)
      → read_tree fuel nodes root ≡ some x
      → build granted fuel nodes root empty_program ≡ some p
      → vm_run p classes subject options groups anchored ≡ some row
      → (i j : ℕ) × (i ≤ length subject)
        × (anchored ≡ true → i ≡ 0)
        × Matches classes subject options x i j
  unfolding vm_run
  vm_run-Matches granted fuel nodes root x p groups anchored row read built won =
      let found =
        vm_run_from x p anchored false (unset groups) _ row
          (build-some granted fuel nodes root x p read built)
          (run_from-Won p classes subject options anchored false (unset groups)
            (Alive p.insts anchored) (goes_on p.insts anchored)
            (begins p.insts anchored (unset groups)) _ 0 _ none tt tt (omega arith))
          won in
      (found.0, found.1, found.2, found.3, found.5)

  -- Where RegexVm_runFull finds a match, the tree matches the whole subject.
  pub vm_run_full-Matches :
      (granted : ℕ → Bool) (fuel : ℕ) (nodes : List Node) (root : ℕ) (x : Ast) (p : Program)
      (groups : ℕ) (row : Row)
      → read_tree fuel nodes root ≡ some x
      → build granted fuel nodes root empty_program ≡ some p
      → vm_run_full p classes subject options groups ≡ some row
      → Matches classes subject options x 0 (length subject)
  unfolding vm_run_full
  vm_run_full-Matches granted fuel nodes root x p groups row read built won =
      let found =
        vm_run_from x p true true (unset groups) _ row
          (build-some granted fuel nodes root x p read built)
          (run_from-Won p classes subject options true true (unset groups) (Alive p.insts true)
            (goes_on p.insts true) (begins p.insts true (unset groups)) _ 0 _ none tt tt
            (omega arith))
          won in
      rw (sym (found.3 refl), sym (found.4 refl)) found.5
