-- ===== src/Regex/Vm/Tests.antt =====
-- Runs of the program of `a*` over `aa` and over `b`.
use vexspoke.Base.{◌≡◌, ◌↔◌, refl, [], ◌∷◌, true, none, some}
use vexspoke.Regex.Program.Samples.{
  a_star_nodes, a_star, always, a_star_program, a_star_read, a_star_built,
}
use vexspoke.Regex.Vm.{
  inst_matches, keep, visit, close, add_thread, advance, step_threads, run_from, is_some, vm_run,
  vm_run_full,
}
use vexspoke.Regex.Vm.Samples.{plain, two_as}
use vexspoke.Regex.Language.{Matches}
use vexspoke.Regex.Vm.Deciding.{vm_run_full_iff}

two_as_found : vm_run a_star_program [] two_as plain 0 true ≡ some (some 0 ∷ some 2 ∷ [])
unfolding vm_run run_from step_threads advance add_thread close visit keep inst_matches
two_as_found = refl

b_not_full : vm_run_full a_star_program [] (98 ∷ []) plain 0 ≡ none
unfolding vm_run_full run_from step_threads advance add_thread close visit keep inst_matches
b_not_full = refl

vm_run_full_iff_example :
    (is_some (vm_run_full a_star_program [] (98 ∷ []) plain 0) ≡ true)
    ↔ Matches [] (98 ∷ []) plain a_star 0 1
vm_run_full_iff_example =
    vm_run_full_iff [] (98 ∷ []) plain always 3 a_star_nodes 1 a_star a_star_program 0 a_star_read
      a_star_built
