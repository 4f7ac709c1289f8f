-- ===== src/Atomic/Spin/Tests.antt =====
-- The theorems on src/atomic/spin.c at concrete runs.
use vexspoke.Base.{◌≡◌, refl, List, [], ◌∷◌, true, arith}
use vexspoke.Atomic.Spin.{ticket, try_lock, unlock_load, unlock_store}
use vexspoke.Atomic.Spin.Exclusion.{
  Act, tries, loads, stores, step, run, held_by, NoRelease, run-held,
}

abbrev contended : List Act
contended = tries 2 ∷ loads 3 ∷ stores ∷ tries 1 ∷ []

contended-NoRelease : NoRelease 1 contended
unfolding NoRelease ticket
contended-NoRelease = (λ e. omega (arith, e), refl)

run-held_example : run (held_by 1) contended ≡ held_by 1
run-held_example = run-held 1 contended contended-NoRelease

-- Two releases under one ticket: the store of the second frees the lock of another thread.
late_store :
    run (held_by 1) (loads 1 ∷ loads 1 ∷ stores ∷ tries 2 ∷ stores ∷ [])
    ≡ record { word = 0; in_flight = 0; acquired = true }
unfolding run step unlock_load unlock_store try_lock ticket
late_store = refl
