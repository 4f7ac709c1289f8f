-- ===== src/Regex/Vm/Deciding.antt =====
-- RegexVm_run and RegexVm_runFull find a match exactly where the pattern has one.
use vexspoke.Base.{
  ℕ, suc, ◌+◌, ◌≤◌, ◌≡◌, ◌≢◌, refl, sym, ◌↔◌, inr, List, [], Bool, true, false, arith, length,
  get_elem?, Option, none, some,
}
use vexspoke.Regex.CharClass.{CharClass}
use vexspoke.Regex.NodeList.{Node}
use vexspoke.Regex.Program.{match, inst, Program, build, empty_program}
use vexspoke.Regex.Program.Tree.{Ast, read_tree}
use vexspoke.Regex.Program.Code.{size, code, program_code, length-code}
use vexspoke.Regex.Program.Building.{build-some}
use vexspoke.Regex.Vm.{Options, Row, is_some, vm_run, vm_run_full}
use vexspoke.Regex.Vm.Closure.{no_threads-Settled}
use vexspoke.Regex.Vm.Finding.{Coming, run_from-finds}
use vexspoke.Regex.Vm.Matching.{Stands-behind, vm_run_full-Matches}
use vexspoke.Regex.Language.{Matches}
use vexspoke.Regex.Language.Run.{Stands-append, Reach}
use vexspoke.Regex.Language.Complete.{to, over, complete}

some_ne : false ≢ true
some_ne t = cc

pub some_of : (o : Option Row) → is_some o ≡ true → (row : Row) × (o ≡ some row)
some_of none t = absurd (some_ne t)
some_of (some row) t = (row, refl)

module _ (classes : List CharClass) (subject : List ℕ) (options : Options) where
  reaches :
      (x : Ast) (i j : ℕ)
      → Matches classes subject options x i j
      → Reach classes subject options (program_code x) 0 i (size x + 2) j
  reaches x i j m =
      let insts = program_code x in
      let all = Stands-behind [] insts in
      let parts = Stands-append insts 1 (code 1 x) _ all.1 in
      let e : 1 + length (code 1 x) ≡ 1 + size x = omega (arith, length-code 1 x) in
      let behind = rw e at parts.1 in
      over classes subject options insts
        (to classes subject options insts 0 1 1 refl (_, all.0, (refl, refl)))
        (over classes subject options insts (complete classes subject options insts 1 m parts.0) (
          to classes subject options insts (1 + size x) (suc (1 + size x)) (size x + 2)
            (omega arith) (_, behind.0, (refl, refl))))

  end_is_match : (x : Ast) → get_elem? (program_code x) (size x + 2) ≡ some (inst match 0 0 0)
  end_is_match x =
      let insts = program_code x in
      let all = Stands-behind [] insts in
      let parts = Stands-append insts 1 (code 1 x) _ all.1 in
      let e : suc (1 + length (code 1 x)) ≡ size x + 2 = omega (arith, length-code 1 x) in
      rw e at parts.1.1.0

  hope :
      (x : Ast) (p : Program) (full anchored : Bool) (i j : ℕ)
      → p.insts ≡ program_code x
      → Matches classes subject options x i j
      → i ≤ length subject
      → (anchored ≡ true → i ≡ 0)
      → (full ≡ true → j ≡ length subject)
      → Coming p classes subject options full anchored 0
  hope x p full anchored i j e m inside first whole =
      let r = reaches x i j m in
      let steps = r.by_run in
      record {
        start = i;
        ahead = omega arith;
        inside = inside;
        first = first;
        left = record {
          steps = r.steps;
          end = size x + 2;
          last = j;
          run = rw (sym e) at steps;
          inst = inst match 0 0 0;
          at_end = rw e (end_is_match x);
          is_end = refl;
          whole = whole;
        };
      }

  -- Where the tree matches a stretch that begins in the subject, and at 0 if the search is anchored,
  -- RegexVm_run, on the program that RegexProgram_build made of the tree with any arena, finds a
  -- match. The fuel of addThread is the capacity of its stack in the code.
  pub vm_run-finds :
      (granted : ℕ → Bool) (fuel : ℕ) (nodes : List Node) (root : ℕ) (x : Ast) (p : Program)
      (groups : ℕ) (anchored : Bool) (i j : ℕ)
      → read_tree fuel nodes root ≡ some x
      → build granted fuel nodes root empty_program ≡ some p
      → Matches classes subject options x i j
      → i ≤ length subject
      → (anchored ≡ true → i ≡ 0)
      → is_some (vm_run p classes subject options groups anchored) ≡ true
  unfolding vm_run
  vm_run-finds granted fuel nodes root x p groups anchored i j read built m inside first =
      let e = build-some granted fuel nodes root x p read built in
      run_from-finds p classes subject options false anchored _ (suc (length subject)) 0 _ none
        (omega arith) (no_threads-Settled p subject options.multiline 0)
        (inr (inr (hope x p false anchored i j e m inside first (λ t. absurd (false_ne t)))))
    where
      false_ne : false ≢ true
      false_ne t = cc

  -- RegexVm_runFull, on the program that RegexProgram_build made of a tree with any arena, finds a
  -- match exactly where the tree matches the whole subject.
  pub vm_run_full_iff :
      (granted : ℕ → Bool) (fuel : ℕ) (nodes : List Node) (root : ℕ) (x : Ast) (p : Program)
      (groups : ℕ)
      → read_tree fuel nodes root ≡ some x
      → build granted fuel nodes root empty_program ≡ some p
      → (is_some (vm_run_full p classes subject options groups) ≡ true)
        ↔ Matches classes subject options x 0 (length subject)
  unfolding vm_run_full
  vm_run_full_iff granted fuel nodes root x p groups read built = (found, finds)
    where
      found :
          is_some (vm_run_full p classes subject options groups) ≡ true
          → Matches classes subject options x 0 (length subject)
      found t =
          let (row, e) = some_of (vm_run_full p classes subject options groups) t in
          vm_run_full-Matches classes subject options granted fuel nodes root x p groups row read
            built e

      finds :
          Matches classes subject options x 0 (length subject)
          → is_some (vm_run_full p classes subject options groups) ≡ true
      finds m =
          let e = build-some granted fuel nodes root x p read built in
          run_from-finds p classes subject options true true _ (suc (length subject)) 0 _ none
            (omega arith) (no_threads-Settled p subject options.multiline 0)
            (inr (
              inr
                (hope x p true true 0 (length subject) e m (omega arith) (λ t. refl) (λ t. refl))))
