-- ===== src/Algo/Sort/Tests.antt =====
-- The theorems on src/algo/sort.c at concrete arrays.
use vexspoke.Base.{◌+◌, ℕ, ◌≡◌, refl, List, [], ◌∷◌, true, false, ◌==◌, ltb, arith, if◌then◌else◌}
use vexspoke.Algo.Sort.{
  Sign, negative, equal, positive, is_negative, insertion_sort, selection_sort, bubble_sort,
  heap_sort, quick_sort, sift_down, partition_int32, valid_comparison_range,
}
use vexspoke.Algo.Sort.Counts.{IsRearranged}
use vexspoke.Algo.Sort.Fuel.{sift_down_enough}
use vexspoke.Algo.Sort.Quick.{IsSort, sorts-IsSort}
use vexspoke.Algo.Sort.Sorted.{IsSorted, insertion_sort-IsSorted}
use vexspoke.Algo.Sort.Split.{IsSplit, partition_int32-IsSplit}

abbrev numbers : List ℕ
numbers = 5 ∷ 1 ∷ 4 ∷ 1 ∷ 3 ∷ []

-- The order of numbers.
abbrev by_size : ℕ → ℕ → Sign
by_size a b = if ltb a b then negative else if a == b then equal else positive

by_size_asymmetric :
    (a b : ℕ) → is_negative (by_size a b) ≡ true → is_negative (by_size b a) ≡ false
by_size_asymmetric a b h = ground (arith, h)

quick_sorted : (quick_sort 0 by_size true 8 numbers).1 ≡ 1 ∷ 1 ∷ 3 ∷ 4 ∷ 5 ∷ []
unfolding quick_sort valid_comparison_range vexspoke.Algo.Sort.quick_sort_range
    vexspoke.Algo.Sort.depth_limit vexspoke.Algo.Sort.insertion_sort_range
    vexspoke.Algo.Sort.sink_each vexspoke.Algo.Sort.sink vexspoke.Algo.Sort.swap_elements
quick_sorted = refl

heap_sorted : (heap_sort 0 by_size true 8 numbers).1 ≡ 1 ∷ 1 ∷ 3 ∷ 4 ∷ 5 ∷ []
unfolding heap_sort valid_comparison_range vexspoke.Algo.Sort.heap_sort_range
    vexspoke.Algo.Sort.unheap vexspoke.Algo.Sort.sift_down vexspoke.Algo.Sort.swap_elements
    vexspoke.Algo.Sort.heapify vexspoke.Algo.Sort.larger_child
heap_sorted = refl

sorts-IsSort_example :
    let valid = valid_comparison_range true 5 8 in
    IsSort 0 by_size valid numbers (insertion_sort 0 by_size true 8 numbers)
    × IsSort 0 by_size valid numbers (selection_sort 0 by_size true 8 numbers)
    × IsSort 0 by_size valid numbers (bubble_sort 0 by_size true 8 numbers)
    × IsSort 0 by_size valid numbers (heap_sort 0 by_size true 8 numbers)
    × IsSort 0 by_size valid numbers (quick_sort 0 by_size true 8 numbers)
sorts-IsSort_example = sorts-IsSort 0 by_size true 8 numbers

insertion_sort-IsSorted_example :
    ((insertion_sort 0 by_size true 8 numbers).0 ≡ true)
    × IsSorted 0 by_size 5 (insertion_sort 0 by_size true 8 numbers).1
    × IsRearranged numbers (insertion_sort 0 by_size true 8 numbers).1
unfolding valid_comparison_range
insertion_sort-IsSorted_example =
    insertion_sort-IsSorted 0 by_size by_size_asymmetric true 8 numbers refl

partition_int32-IsSplit_example :
    let r = partition_int32 0 (λ x. ltb x 4) numbers in
    IsSplit 0 (λ x. ltb x 4) r.0 5 r.1 × IsRearranged numbers r.1
partition_int32-IsSplit_example = partition_int32-IsSplit 0 (λ x. ltb x 4) numbers

sift_down_enough_example :
    sift_down 0 by_size (3 + 5) 0 0 5 numbers ≡ sift_down 0 by_size 5 0 0 5 numbers
sift_down_enough_example = sift_down_enough 0 by_size 3 5 0 0 5 numbers (omega arith)
