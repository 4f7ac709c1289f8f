-- ===== src/Struct/SparseSet/Tests.antt =====
-- The theorems on src/struct/sparseset.c at concrete sets.
use vexspoke.Base.{arith, ◌≡◌, not, ◌&&◌, ◌||◌, ◌==◌}
use vexspoke.Struct.SparseSet.{SparseSet, create, add, remove, contains}
use vexspoke.Struct.SparseSet.Dense.{IsSparse, create-IsSparse, add-IsSparse, remove-IsSparse}
use vexspoke.Struct.SparseSet.Members.{admits, contains-add, contains-remove}

abbrev three_ids : SparseSet
three_ids = (add (add (add (create (λ i. i) (λ i. i) 4 8 4) 5).1 2).1 7).1

three_ids-IsSparse : IsSparse three_ids
three_ids-IsSparse = add-IsSparse 7 (
    add-IsSparse 2
      (add-IsSparse 5 (create-IsSparse (λ i. i) (λ i. i) 4 (omega arith) (omega arith))))

remove-IsSparse_example : IsSparse (remove three_ids 5)
remove-IsSparse_example = remove-IsSparse 5 three_ids-IsSparse

contains-add_example :
    contains (add three_ids 1).1 1 ≡ (admits three_ids 1 && 1 == 1 || contains three_ids 1)
contains-add_example = contains-add 1 1 three_ids-IsSparse

contains-remove_example : contains (remove three_ids 5) 7 ≡ (not (5 == 7) && contains three_ids 7)
contains-remove_example = contains-remove 5 7 three_ids-IsSparse
