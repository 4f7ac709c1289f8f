-- ===== src/Struct/Stack/Tests.antt =====
-- The stack's theorems at concrete stacks.
use vexspoke.Base.{ℕ, ◌^◌, ◌≤◌, ◌≡◌, ◌⊎◌, arith}
use vexspoke.Struct.Sample.{granting, pair_at}
use vexspoke.Struct.Collection.{report_exhaustion}
use vexspoke.Struct.Collection.Bounds.{IsValid}
use vexspoke.Struct.Stack.{overflow, no_memory, push_try}
use vexspoke.Struct.Stack.Order.{Pushed, push_try_outcome}

pair_at-IsValid : IsValid (pair_at 0)
pair_at-IsValid = omega arith

push_try_outcome_example :
    Pushed (pair_at 0) 9 (push_try granting (pair_at 0) 9)
    ⊎ ((push_try granting (pair_at 0) 9 ≡ (no_memory, report_exhaustion (pair_at 0)))
        ⊎ ((push_try granting (pair_at 0) 9 ≡ (overflow, pair_at 0))
            × (2 ^ 31 ≤ 2)
            × (◌≡◌ {A = ℕ} 2 2)))
push_try_outcome_example = push_try_outcome granting 9 pair_at-IsValid (omega arith)
