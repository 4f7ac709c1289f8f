-- ===== src/Algo/Sort/Sorted.antt =====
-- Insertion sort sorts.
use native.Mathlib.Decide.{ℕ_discrete}
use vexspoke.Base.{
  ℕ, zero, suc, ◌+◌, ◌-◌, ◌≤◌, ◌<◌, ◌≡◌, ◌≢◌, refl, List, Bool, true, false, ◌&&◌, ltb, arith,
  get_or, length, Bool-cases, inl, inr, ltb→lt,
}
use vexspoke.Algo.Sort.{
  Sign, is_negative, swap_elements, before, sink, sink_each, insertion_sort_range, insertion_sort,
  valid_comparison_range,
}
use vexspoke.Algo.Sort.Counts.{IsRearranged, sink-IsRearranged, insertion_sort_range-IsRearranged}
use vexspoke.Algo.Sort.Swaps.{get_or-swap_elements, length-swap_elements}

module _ {ℓ} {A : Type ℓ} (blank : A) (compare : A → A → Sign) where
  -- No element among the first `n` comes before its predecessor.
  pub IsSorted : ℕ → List A → Type 0
  IsSorted n xs = (k : ℕ) → suc k < n → before blank compare xs (suc k) k ≡ false

  -- The same, but for the pair that ends at `c`.
  IsSortedBut : ℕ → ℕ → List A → Type 0
  IsSortedBut c n xs = (k : ℕ) → suc k < n → suc k ≢ c → before blank compare xs (suc k) k ≡ false

  -- The elements round a hole at `c` are in order.
  IsBridged : ℕ → ℕ → List A → Type 0
  IsBridged zero n xs = 0 ≤ n
  IsBridged (suc c) n xs = suc (suc c) < n → before blank compare xs (suc (suc c)) c ≡ false

  module _
      (asymmetric : (x y : A)
        → is_negative (compare x y) ≡ true
        → is_negative (compare y x) ≡ false) where
    -- An exchange of neighbours.
    module _ (xs : List A) (c : ℕ) (h : suc c < length xs) where
      abbrev ys : List A
      ys = swap_elements blank xs (suc c) c

      at_low : get_or ys c blank ≡ get_or xs (suc c) blank
      at_low = ground (arith, get_or-swap_elements blank xs (suc c) c c h (omega arith))

      at_high : get_or ys (suc c) blank ≡ get_or xs c blank
      at_high = ground (arith, get_or-swap_elements blank xs (suc c) c (suc c) h (omega arith))

      elsewhere : (k : ℕ) → k ≢ c → k ≢ suc c → get_or ys k blank ≡ get_or xs k blank
      elsewhere k one two =
          ground (arith, get_or-swap_elements blank xs (suc c) c k h (omega arith))

      swap-IsSortedBut :
          (n : ℕ)
          → before blank compare xs (suc c) c ≡ true
          → IsSortedBut (suc c) n xs
          → IsBridged (suc c) n xs
          → IsSortedBut c n ys
      unfolding IsSortedBut IsBridged
      swap-IsSortedBut n t order bridge k hk ne = elim (ℕ_discrete k c) [
        | yes e ↦ rw (e, at_high, at_low) (asymmetric _ _ t)
        | no one ↦ elim (ℕ_discrete k (suc c)) [
          | yes e ↦
              rw (e, elsewhere (suc (suc c)) (omega arith) (omega arith), at_high)
                (bridge (omega arith))
          | no two ↦
              rw (elsewhere k one two, elsewhere (suc k) ne (omega arith))
                (order k hk (omega arith))
        ]
      ]

    -- The gap moves down with the element.
    swap-IsBridged :
        (xs : List A) (c n : ℕ)
        → suc c < length xs
        → suc c < n
        → IsSortedBut (suc c) n xs
        → IsBridged c n (swap_elements blank xs (suc c) c)
    unfolding IsBridged IsSortedBut
    swap-IsBridged xs zero n h lt order = omega arith
    swap-IsBridged xs (suc c) n h lt order = λ hc.
        rw (at_high xs (suc c) h, elsewhere xs (suc c) h c (omega arith) (omega arith))
          (order c (omega arith) (omega arith))

    -- By the outcome of a test.
    by_outcome :
        (P : List A → Type 0) (b : Bool) {ys zs : List A}
        → (b ≡ true → P ys)
        → (b ≡ false → P zs)
        → P (elim b [ true ↦ ys | false ↦ zs ])
    by_outcome P true on off = on refl
    by_outcome P false on off = off refl

    sink-IsSorted :
        (c n : ℕ) (xs : List A)
        → c < n
        → n ≤ length xs
        → IsSortedBut c n xs
        → IsBridged c n xs
        → IsSorted n (sink blank compare 0 c xs)
    unfolding sink IsSorted IsSortedBut
    sink-IsSorted zero n xs lt le order bridge = λ k hk. order k hk (omega arith)
    sink-IsSorted (suc c) n xs lt le order bridge =
        by_outcome (IsSorted n) (ltb 0 (suc c) && before blank compare xs (suc c) c)
          (λ t.
            let h : suc c < length xs = omega arith in
            let moved = swap-IsSortedBut xs c h n (ground (arith, t)) order bridge in
            sink-IsSorted c n _ (omega arith)
              (omega (arith, length-swap_elements blank xs (suc c) c)) moved
              (swap-IsBridged xs c n h lt order))
          (λ f k hk. elim (ℕ_discrete k c) [
            | yes e ↦ rw e (ground (arith, f))
            | no other ↦ order k hk (omega arith)
          ])

    sink_each-IsSorted :
        (n i : ℕ) (xs : List A)
        → n + i ≤ length xs
        → IsSorted i xs
        → IsSorted (n + i) (sink_each blank compare 0 n i xs)
    unfolding sink_each IsSorted IsSortedBut IsBridged
    sink_each-IsSorted zero i xs h sorted = λ k hk. sorted k (omega arith)
    sink_each-IsSorted (suc n) i xs h sorted =
        let one = (sink-IsRearranged blank compare 0 i xs (omega arith)).same_length in
        let next =
          sink-IsSorted i (suc i) xs (omega arith) (omega arith) (λ k hk ne. sorted k (omega arith))
            (no_bridge i) in
        let rest =
          sink_each-IsSorted n (suc i) (sink blank compare 0 i xs) (omega (arith, one)) next in
        λ k hk. rest k (omega arith)
      where
        no_bridge : (i : ℕ) → IsBridged i (suc i) xs
        no_bridge zero = omega arith
        no_bridge (suc i) = λ h. absurd (omega arith)

    -- Insertion sort leaves no element before its predecessor, where the comparator never puts two
    -- elements each before the other.
    pub insertion_sort_range-IsSorted :
        (xs : List A) → IsSorted (length xs) (insertion_sort_range blank compare 0 (length xs) xs)
    unfolding insertion_sort_range IsSorted
    insertion_sort_range-IsSorted xs = elim (Bool-cases (ltb 0 (length xs))) [
      | inl t ↦
          let h = ltb→lt 0 (length xs) t in
          let all =
            sink_each-IsSorted (length xs - (0 + 1)) (0 + 1) xs (omega (arith, h))
              (λ k hk. absurd (omega arith)) in
          λ k hk. rw t (all k (omega (arith, h)))
      | inr f ↦ λ k hk. absurd (ground (arith, f, hk))
    ]

    -- Where the guard of Sort_insertionSort lets it run, it returns true, and leaves the elements
    -- rearranged so that none comes before its predecessor, given a comparator that never puts two
    -- elements each before the other.
    pub insertion_sort-IsSorted :
        (present : Bool) (element_size : ℕ) (xs : List A)
        → valid_comparison_range present (length xs) element_size ≡ true
        → ((insertion_sort blank compare present element_size xs).0 ≡ true)
          × IsSorted (length xs) (insertion_sort blank compare present element_size xs).1
          × IsRearranged xs (insertion_sort blank compare present element_size xs).1
    unfolding insertion_sort
    insertion_sort-IsSorted present element_size xs valid = rw valid (
      refl,
      insertion_sort_range-IsSorted xs,
      insertion_sort_range-IsRearranged blank compare 0 (length xs) xs (omega arith),
    )
