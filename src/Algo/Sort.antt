-- ===== src/Algo/Sort.antt =====
-- src/algo/sort.c: the comparison sorts. An array is the list of its elements, and the comparator
-- is a parameter, of which the code reads the sign. `blank` stands for an element out of range,
-- which no call reads. Merge sort and the radix sorts are not modelled.
pub mod Swaps
pub mod Counts
pub mod Fuel
pub mod Quick
pub mod Sorted
pub mod Split
mod Tests
use vexspoke.Base.{
  ℕ, zero, suc, ◌+◌, ◌-◌, ◌*◌, ◌/◌, ◌^◌, List, Bool, true, false, ◌&&◌, ◌||◌, ◌==◌, ltb, leb,
  if◌then◌else◌, get_or, set as set_elem, length,
}

-- The sign of a comparator's result.
pub data Sign : Type 0 where
  negative : Sign
  equal : Sign
  positive : Sign

abbrev pub is_negative : Sign → Bool
is_negative negative = true
is_negative equal = false
is_negative positive = false

abbrev pub is_positive : Sign → Bool
is_positive negative = false
is_positive equal = false
is_positive positive = true

module _ {ℓ} {A : Type ℓ} (blank : A) where
  -- elementAt and constElementAt.
  abbrev pub element_at : List A → ℕ → A
  element_at xs i = get_or xs i blank

  -- swapElements.
  pub swap_elements : List A → ℕ → ℕ → List A
  swap_elements xs i j = set_elem (set_elem xs i (element_at xs j)) j (element_at xs i)

  -- The loop of Sort_partitionInt32, where `below` tests an element against the pivot: `n` elements
  -- from `i` on.
  pub partition_loop : (A → Bool) → ℕ → ℕ → ℕ → List A → ℕ × List A
  partition_loop below zero i boundary xs = (boundary, xs)
  partition_loop below (suc n) i boundary xs = elim (below (element_at xs i)) [
    | true ↦ partition_loop below n (suc i) (suc boundary) (swap_elements xs boundary i)
    | false ↦ partition_loop below n (suc i) boundary xs
  ]

  -- Sort_partitionInt32.
  pub partition_int32 : (A → Bool) → List A → ℕ × List A
  partition_int32 below xs = partition_loop below (length xs) 0 0 xs

-- validComparisonRange, where `present` says that neither pointer is null.
pub valid_comparison_range : Bool → ℕ → ℕ → Bool
valid_comparison_range present count element_size =
    count == 0 || present && ltb 0 element_size && leb count ((2 ^ 64 - 1) / element_size)

module _ {ℓ} {A : Type ℓ} (blank : A) (compare : A → A → Sign) where
  -- Whether the element at `i` comes before the one at `j`.
  abbrev pub before : List A → ℕ → ℕ → Bool
  before xs i j = is_negative (compare (element_at blank xs i) (element_at blank xs j))

  abbrev pub after : List A → ℕ → ℕ → Bool
  after xs i j = is_positive (compare (element_at blank xs i) (element_at blank xs j))

  -- The inner loop of insertionSortRange.
  pub sink : ℕ → ℕ → List A → List A
  sink begin zero xs = xs
  sink begin (suc k) xs = elim (ltb begin (suc k) && before xs (suc k) k) [
    | true ↦ sink begin k (swap_elements blank xs (suc k) k)
    | false ↦ xs
  ]

  pub sink_each : ℕ → ℕ → ℕ → List A → List A
  sink_each begin zero i xs = xs
  sink_each begin (suc n) i xs = sink_each begin n (suc i) (sink begin i xs)

  pub insertion_sort_range : ℕ → ℕ → List A → List A
  insertion_sort_range begin end xs =
      let i = begin + (if ltb begin end then 1 else 0) in sink_each begin (end - i) i xs

  pub insertion_sort : Bool → ℕ → List A → Bool × List A
  insertion_sort present element_size xs =
      if valid_comparison_range present (length xs) element_size
      then (true, insertion_sort_range 0 (length xs) xs)
      else (false, xs)

  -- The inner loop of Sort_selectionSort, over `n` candidates.
  pub minimum_from : ℕ → ℕ → ℕ → List A → ℕ
  minimum_from zero candidate minimum xs = minimum
  minimum_from (suc n) candidate minimum xs =
      minimum_from n (suc candidate) (if before xs candidate minimum then candidate else minimum) xs

  pub select_each : ℕ → ℕ → List A → List A
  select_each zero first xs = xs
  select_each (suc n) first xs =
      select_each n (suc first) (swap_elements blank xs first (minimum_from n (suc first) first xs))

  pub selection_sort : Bool → ℕ → List A → Bool × List A
  selection_sort present element_size xs =
      if valid_comparison_range present (length xs) element_size
      then (true, select_each (length xs) 0 xs)
      else (false, xs)

  -- The inner loop of Sort_bubbleSort, over `n` neighbours from `i` on.
  pub bubble_pass : ℕ → ℕ → Bool → List A → Bool × List A
  bubble_pass zero i changed xs = (changed, xs)
  bubble_pass (suc n) i changed xs = elim (before xs i (i - 1)) [
    | true ↦ bubble_pass n (suc i) true (swap_elements blank xs i (i - 1))
    | false ↦ bubble_pass n (suc i) changed xs
  ]

  pub bubble_passes : ℕ → List A → List A
  bubble_passes zero xs = xs
  bubble_passes (suc zero) xs = xs
  bubble_passes (suc (suc n)) xs =
      let pass = bubble_pass (suc n) 1 false xs in
      elim (pass.0) [ true ↦ bubble_passes (suc n) (pass.1) | false ↦ pass.1 ]

  pub bubble_sort : Bool → ℕ → List A → Bool × List A
  bubble_sort present element_size xs =
      if valid_comparison_range present (length xs) element_size
      then (true, bubble_passes (length xs) xs)
      else (false, xs)

  -- siftDown on the range from `base` on, with fuel: `count` is enough.
  pub larger_child : ℕ → ℕ → ℕ → List A → ℕ
  larger_child base root count xs =
      let child = root * 2 + 1 in
      if ltb (child + 1) count && before xs (base + child) (base + (child + 1))
      then child + 1
      else child

  pub sift_down : ℕ → ℕ → ℕ → ℕ → List A → List A
  sift_down zero base root count xs = xs
  sift_down (suc fuel) base root count xs =
      let child = larger_child base root count xs in
      elim (ltb root (count / 2) && before xs (base + root) (base + child)) [
        | true ↦
            sift_down fuel base child count (swap_elements blank xs (base + root) (base + child))
        | false ↦ xs
      ]

  pub heapify : ℕ → ℕ → ℕ → List A → List A
  heapify zero base count xs = xs
  heapify (suc parent) base count xs =
      heapify parent base count (sift_down count base parent count xs)

  pub unheap : ℕ → ℕ → List A → List A
  unheap zero base xs = xs
  unheap (suc zero) base xs = xs
  unheap (suc (suc n)) base xs =
      unheap (suc n) base
        (sift_down (suc n) base 0 (suc n) (swap_elements blank xs (base + 0) (base + suc n)))

  pub heap_sort_range : ℕ → ℕ → List A → List A
  heap_sort_range begin end xs =
      let count = end - begin in
      if ltb count 2 then xs else unheap count begin (heapify (count / 2) begin count xs)

  pub heap_sort : Bool → ℕ → List A → Bool × List A
  heap_sort present element_size xs =
      if valid_comparison_range present (length xs) element_size
      then (true, heap_sort_range 0 (length xs) xs)
      else (false, xs)

  pub swap_if_after : ℕ → ℕ → List A → List A
  swap_if_after i j xs = if after xs i j then swap_elements blank xs i j else xs

  -- The middle of partitionRange: `n` candidates, with the pivot at `last`.
  pub gather : ℕ → ℕ → ℕ → ℕ → List A → ℕ × List A
  gather zero candidate boundary last xs = (boundary, xs)
  gather (suc n) candidate boundary last xs = elim (before xs candidate last) [
    | true ↦
        gather n (suc candidate) (suc boundary) last (swap_elements blank xs boundary candidate)
    | false ↦ gather n (suc candidate) boundary last xs
  ]

  -- partitionRange, on a range that is not empty.
  pub median_last : ℕ → ℕ → List A → List A
  median_last begin last xs =
      let middle = begin + (last - begin) / 2 in
      swap_elements blank
        (swap_if_after begin middle (swap_if_after middle last (swap_if_after begin middle xs)))
        middle last

  pub partition_range : ℕ → ℕ → List A → ℕ × List A
  partition_range begin end xs =
      let last = end - 1 in
      let gathered = gather (last - begin) begin begin last (median_last begin last xs) in
      (gathered.0, swap_elements blank (gathered.1) (gathered.0) last)

  -- quickSortRange: a round of its loop is a call, as a call within it is.
  pub quick_sort_range : ℕ → ℕ → ℕ → List A → List A
  quick_sort_range zero begin end xs =
      if ltb 16 (end - begin)
      then heap_sort_range begin end xs
      else insertion_sort_range begin end xs
  quick_sort_range (suc depth) begin end xs = elim (ltb 16 (end - begin)) [
    | false ↦ insertion_sort_range begin end xs
    | true ↦
        let split = partition_range begin end xs in
        let pivot = split.0 in
        elim (ltb (pivot - begin) (end - (pivot + 1))) [
          | true ↦
              quick_sort_range depth (pivot + 1) end (quick_sort_range depth begin pivot (split.1))
          | false ↦
              quick_sort_range depth begin pivot (quick_sort_range depth (pivot + 1) end (split.1))
        ]
  ]

  -- The limit on the depth, for a count of 64 bits.
  pub depth_limit : ℕ → ℕ → ℕ
  depth_limit zero remaining = 0
  depth_limit (suc n) remaining = if ltb 1 remaining then 2 + depth_limit n (remaining / 2) else 0

  pub quick_sort : Bool → ℕ → List A → Bool × List A
  quick_sort present element_size xs =
      if valid_comparison_range present (length xs) element_size
      then (true, quick_sort_range (depth_limit 64 (length xs)) 0 (length xs) xs)
      else (false, xs)
