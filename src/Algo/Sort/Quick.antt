-- ===== src/Algo/Sort/Quick.antt =====
-- Heap sort and quick sort rearrange their range; the pivot's place is in the range.
use vexspoke.Base.{
  ℕ, zero, suc, ◌+◌, ◌-◌, ◌/◌, ◌≤◌, ◌<◌, ◌≡◌, ◌∙◌, refl, List, Bool, true, false, ltb, arith,
  if◌then◌else◌, length, ltb→lt,
}
use vexspoke.Algo.Sort.{
  Sign, swap_elements, before, after, heapify, unheap, heap_sort_range, swap_if_after, gather,
  median_last, partition_range, quick_sort_range, insertion_sort, selection_sort, bubble_sort,
  heap_sort, quick_sort, valid_comparison_range,
}
use vexspoke.Algo.Sort.Counts.{
  IsRearranged, IsRearranged-refl, IsRearranged-trans, branch-IsRearranged, if-IsRearranged,
  swap_elements-IsRearranged, exchanged, sift_down-IsRearranged, insertion_sort_range-IsRearranged,
  select_each-IsRearranged, bubble_passes-IsRearranged,
}

module _ {ℓ} {A : Type ℓ} (blank : A) (compare : A → A → Sign) where
  heapify-IsRearranged :
      (parent base size : ℕ) (xs : List A)
      → base + size ≤ length xs
      → IsRearranged xs (heapify blank compare parent base size xs)
  unfolding heapify
  heapify-IsRearranged zero base size xs h = IsRearranged-refl xs
  heapify-IsRearranged (suc parent) base size xs h =
      let one = sift_down-IsRearranged blank compare size base parent size xs h in
      IsRearranged-trans one
        (heapify-IsRearranged parent base size _ (omega (arith, one.same_length)))

  unheap-IsRearranged :
      (n base : ℕ) (xs : List A)
      → base + n ≤ length xs
      → IsRearranged xs (unheap blank compare n base xs)
  unfolding unheap
  unheap-IsRearranged zero base xs h = IsRearranged-refl xs
  unheap-IsRearranged (suc zero) base xs h = IsRearranged-refl xs
  unheap-IsRearranged (suc (suc n)) base xs h =
      exchanged blank (base + 0) (base + suc n) (omega arith) (omega arith) (λ e.
        let one =
          sift_down-IsRearranged blank compare (suc n) base 0 (suc n) _ (omega (arith, e)) in
        IsRearranged-trans one
          (unheap-IsRearranged (suc n) base _ (omega (arith, e, one.same_length))))

  pub heap_sort_range-IsRearranged :
      (begin end : ℕ) (xs : List A)
      → begin ≤ end
      → end ≤ length xs
      → IsRearranged xs (heap_sort_range blank compare begin end xs)
  unfolding heap_sort_range
  heap_sort_range-IsRearranged begin end xs b h =
      let size = end - begin in
      let one = heapify-IsRearranged (size / 2) begin size xs (omega arith) in
      if-IsRearranged (ltb size 2) (λ t. IsRearranged-refl xs)
        (λ f.
          IsRearranged-trans one
            (unheap-IsRearranged size begin _ (omega (arith, one.same_length))))

  swap_if_after-IsRearranged :
      (i j : ℕ) (xs : List A)
      → i < length xs
      → j < length xs
      → IsRearranged xs (swap_if_after blank compare i j xs)
  unfolding swap_if_after
  swap_if_after-IsRearranged i j xs hi hj =
      if-IsRearranged (after blank compare xs i j)
        (λ t. swap_elements-IsRearranged blank xs i j hi hj) (λ f. IsRearranged-refl xs)

  median_last-IsRearranged :
      (begin last : ℕ) (xs : List A)
      → begin ≤ last
      → last < length xs
      → IsRearranged xs (median_last blank compare begin last xs)
  unfolding median_last
  median_last-IsRearranged begin last xs b h =
      let middle = begin + (last - begin) / 2 in
      let m : middle < length xs = omega arith in
      let one = swap_if_after-IsRearranged begin middle xs (omega arith) m in
      let two =
        swap_if_after-IsRearranged middle last _ (omega (arith, one.same_length, m))
          (omega (arith, one.same_length)) in
      let e = two.same_length ∙ one.same_length in
      let three =
        swap_if_after-IsRearranged begin middle _ (omega (arith, e)) (omega (arith, e, m)) in
      let e' = three.same_length ∙ e in
      IsRearranged-trans one (
        IsRearranged-trans two (
          IsRearranged-trans three (
            swap_elements-IsRearranged blank _ middle last (omega (arith, e', m))
              (omega (arith, e')))))

  -- The outcome of a scan of a range: a rearrangement, and a place within bounds.
  IsGathered : ℕ → ℕ → List A → ℕ × List A → Type ℓ
  IsGathered low high xs r = IsRearranged xs r.1 × (low ≤ r.0) × (r.0 ≤ high)

  gather-IsGathered :
      (n candidate boundary last : ℕ) (xs : List A)
      → n + candidate ≡ last
      → boundary ≤ candidate
      → last < length xs
      → IsGathered boundary last xs (gather blank compare n candidate boundary last xs)
  unfolding gather IsGathered
  gather-IsGathered zero candidate boundary last xs e b h =
      (IsRearranged-refl xs, omega arith, omega arith)
  gather-IsGathered (suc n) candidate boundary last xs e b h =
      by_outcome (before blank compare xs candidate last)
        (let one =
            swap_elements-IsRearranged blank xs boundary candidate (omega arith) (omega arith) in
          let r =
            gather-IsGathered n (suc candidate) (suc boundary) last
              (swap_elements blank xs boundary candidate) (omega arith) (omega arith)
              (omega (arith, one.same_length)) in
          (IsRearranged-trans one r.0, omega (arith, r.1), r.2))
        (gather-IsGathered n (suc candidate) boundary last xs (omega arith) (omega arith) h)
    where
      by_outcome :
          (c : Bool) {p q : ℕ × List A}
          → IsGathered boundary last xs p
          → IsGathered boundary last xs q
          → IsGathered boundary last xs (elim c as (λ c. ℕ × List A) [ true ↦ p | false ↦ q ])
      by_outcome true on off = on
      by_outcome false on off = off

  partition_range-IsGathered :
      (begin end : ℕ) (xs : List A)
      → begin < end
      → end ≤ length xs
      → IsGathered begin (end - 1) xs (partition_range blank compare begin end xs)
  unfolding partition_range IsGathered
  partition_range-IsGathered begin end xs b h =
      let one = median_last-IsRearranged begin (end - 1) xs (omega arith) (omega arith) in
      let two =
        gather-IsGathered (end - 1 - begin) begin begin (end - 1) _ (omega arith) (omega arith)
          (omega (arith, one.same_length)) in
      let e = two.0.same_length ∙ one.same_length in
      (
        IsRearranged-trans one (
            IsRearranged-trans two.0 (
              swap_elements-IsRearranged blank _ _ (end - 1) (omega (arith, e, two.2))
                (omega (arith, e)))),
        two.1,
        two.2,
      )

  -- Quick sort leaves a rearrangement of the array, at any depth limit.
  pub quick_sort_range-IsRearranged :
      (depth begin end : ℕ) (xs : List A)
      → begin ≤ end
      → end ≤ length xs
      → IsRearranged xs (quick_sort_range blank compare depth begin end xs)
  unfolding quick_sort_range IsGathered
  quick_sort_range-IsRearranged zero begin end xs b h =
      if-IsRearranged (ltb 16 (end - begin)) (λ t. heap_sort_range-IsRearranged begin end xs b h)
        (λ f. insertion_sort_range-IsRearranged blank compare begin end xs h)
  quick_sort_range-IsRearranged (suc depth) begin end xs b h =
      branch-IsRearranged (ltb 16 (end - begin))
        (λ t.
          let large = ltb→lt 16 (end - begin) t in
          let split = partition_range-IsGathered begin end xs (omega arith) h in
          let pivot = (partition_range blank compare begin end xs).0 in
          let e = split.0.same_length in
          IsRearranged-trans split.0 (
            branch-IsRearranged (ltb (pivot - begin) (end - (pivot + 1)))
              (λ t'.
                let one =
                  quick_sort_range-IsRearranged depth begin pivot _ split.1
                    (omega (arith, split.2, e)) in
                IsRearranged-trans one (
                  quick_sort_range-IsRearranged depth (pivot + 1) end _
                    (omega (arith, split.2, large)) (omega (arith, e, one.same_length))))
              (λ f'.
                let one =
                  quick_sort_range-IsRearranged depth (pivot + 1) end _
                    (omega (arith, split.2, large)) (omega (arith, e)) in
                IsRearranged-trans one (
                  quick_sort_range-IsRearranged depth begin pivot _ split.1
                    (omega (arith, split.2, e, one.same_length))))))
        (λ f. insertion_sort_range-IsRearranged blank compare begin end xs h)

  -- What a sort returns, and what it leaves.
  pub IsSort : Bool → List A → Bool × List A → Type ℓ
  IsSort valid xs r = (r.0 ≡ valid) × IsRearranged xs r.1

  guarded-IsSort :
      {xs ys : List A} (valid : Bool)
      → IsRearranged xs ys
      → IsSort valid xs (if valid then (true, ys) else (false, xs))
  unfolding IsSort
  guarded-IsSort true rearranged = (refl, rearranged)
  guarded-IsSort {xs} false rearranged = (refl, IsRearranged-refl xs)

  -- Insertion, selection, bubble, heap and quick sort return what their guard says, and leave a
  -- rearrangement of the array, whatever the comparator answers.
  pub sorts-IsSort :
      (present : Bool) (element_size : ℕ) (xs : List A)
      → let valid = valid_comparison_range present (length xs) element_size in
        IsSort valid xs (insertion_sort blank compare present element_size xs)
        × IsSort valid xs (selection_sort blank compare present element_size xs)
        × IsSort valid xs (bubble_sort blank compare present element_size xs)
        × IsSort valid xs (heap_sort blank compare present element_size xs)
        × IsSort valid xs (quick_sort blank compare present element_size xs)
  unfolding insertion_sort selection_sort bubble_sort heap_sort quick_sort
  sorts-IsSort present element_size xs =
      let n = length xs in
      let valid = valid_comparison_range present n element_size in
      (
        guarded-IsSort valid (insertion_sort_range-IsRearranged blank compare 0 n xs (omega arith)),
        guarded-IsSort valid (select_each-IsRearranged blank compare n 0 xs (omega arith)),
        guarded-IsSort valid (bubble_passes-IsRearranged blank compare n xs (omega arith)),
        guarded-IsSort valid (heap_sort_range-IsRearranged 0 n xs (omega arith) (omega arith)),
        guarded-IsSort valid (quick_sort_range-IsRearranged _ 0 n xs (omega arith) (omega arith)),
      )
