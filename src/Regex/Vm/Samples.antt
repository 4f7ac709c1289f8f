-- ===== src/Regex/Vm/Samples.antt =====
-- A search for `a*` in `aa`, on a machine that the arena gives.
use vexspoke.Base.{ℕ, ◌≡◌, refl, List, [], ◌∷◌, true, false, some}
use vexspoke.Regex.Program.Samples.{always, a_star_program}
use vexspoke.Regex.Vm.{
  Options, inst_matches, keep, visit, close, add_thread, advance, step_threads, run_from, vm_run,
  vm_initialize,
}

abbrev pub plain : Options
plain = record { ignore_case = false; dotall = false; multiline = false }

abbrev pub two_as : List ℕ
two_as = 97 ∷ 97 ∷ []

pub a_star_given : vm_initialize always a_star_program 0 ≡ true
unfolding vm_initialize
a_star_given = refl

pub two_as_searched : vm_run a_star_program [] two_as plain 0 false ≡ some (some 0 ∷ some 2 ∷ [])
unfolding vm_run run_from step_threads advance add_thread close visit keep inst_matches
two_as_searched = refl
