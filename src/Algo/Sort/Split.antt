-- ===== src/Algo/Sort/Split.antt =====
-- Sort_partitionInt32 splits the array.
use native.Mathlib.Decide.{ℕ_discrete}
use vexspoke.Base.{
  ℕ, zero, suc, ◌+◌, ◌≤◌, ◌<◌, ◌≡◌, refl, sym, List, Bool, true, false, arith, get_or, length,
}
use vexspoke.Algo.Sort.{swap_elements, partition_loop, partition_int32}
use vexspoke.Algo.Sort.Counts.{
  IsRearranged, IsRearranged-refl, IsRearranged-trans, swap_elements-IsRearranged,
}
use vexspoke.Algo.Sort.Swaps.{get_or-swap_elements}

module _ {ℓ} {A : Type ℓ} (blank : A) (below : A → Bool) where
  -- The elements before `boundary` pass the test, and those from there to `i` do not.
  pub record IsSplit (boundary i : ℕ) (xs : List A) : Type ℓ where
    pub ordered : boundary ≤ i
    pub low : (k : ℕ) → k < boundary → below (get_or xs k blank) ≡ true
    pub high : (k : ℕ) → boundary ≤ k → k < i → below (get_or xs k blank) ≡ false

  step-IsSplit :
      (boundary i : ℕ) (xs : List A)
      → i < length xs
      → below (get_or xs i blank) ≡ true
      → IsSplit boundary i xs
      → IsSplit (suc boundary) (suc i) (swap_elements blank xs boundary i)
  step-IsSplit boundary i xs h t v =
      let o = v.ordered in
      let at = λ (k : ℕ). get_or-swap_elements blank xs boundary i k (omega arith) h in
      record {
        ordered = omega arith;
        low = λ k hk. rw (at k) (ground (arith, v.low k));
        high = λ k lo hi. rw (at k) (ground (arith, v.high boundary, v.high k));
      }

  keep-IsSplit :
      (boundary i : ℕ) (xs : List A)
      → below (get_or xs i blank) ≡ false
      → IsSplit boundary i xs
      → IsSplit boundary (suc i) xs
  keep-IsSplit boundary i xs f v = record {
    ordered = omega (arith, v.ordered);
    low = v.low;
    high =
        λ k lo hi. elim (ℕ_discrete k i) [ yes e ↦ rw e f | no other ↦ v.high k lo (omega arith) ];
  }

  partition_loop-IsSplit :
      (n i boundary : ℕ) (xs : List A)
      → n + i ≡ length xs
      → IsSplit boundary i xs
      → let r = partition_loop blank below n i boundary xs in
        IsSplit r.0 (length xs) r.1 × IsRearranged xs r.1
  unfolding partition_loop
  partition_loop-IsSplit zero i boundary xs e v = (
    record {
      ordered = omega (arith, v.ordered);
      low = v.low;
      high = λ k lo hi. v.high k lo (omega arith);
    },
    IsRearranged-refl xs,
  )
  partition_loop-IsSplit (suc n) i boundary xs e v =
      by_outcome (below (get_or xs i blank))
        (λ t.
          let one =
            swap_elements-IsRearranged blank xs boundary i (omega (arith, v.ordered))
              (omega arith) in
          let r =
            partition_loop-IsSplit n (suc i) (suc boundary) (swap_elements blank xs boundary i)
              (omega (arith, one.same_length)) (step-IsSplit boundary i xs (omega arith) t v) in
          (subst_length one.same_length r.0, IsRearranged-trans one r.1))
        (λ f.
          partition_loop-IsSplit n (suc i) boundary xs (omega arith)
            (keep-IsSplit boundary i xs f v))
    where
      subst_length : {m n b : ℕ} {ys : List A} → m ≡ n → IsSplit b m ys → IsSplit b n ys
      subst_length e v = rw (sym e) v

      by_outcome :
          (b : Bool) {p q : ℕ × List A}
          → (b ≡ true → IsSplit p.0 (length xs) p.1 × IsRearranged xs p.1)
          → (b ≡ false → IsSplit q.0 (length xs) q.1 × IsRearranged xs q.1)
          → let r = elim b as (λ c. ℕ × List A) [ true ↦ p | false ↦ q ] in
            IsSplit r.0 (length xs) r.1 × IsRearranged xs r.1
      by_outcome true on off = on refl
      by_outcome false on off = off refl

  -- Sort_partitionInt32 rearranges the array so that exactly the elements before the returned index
  -- are below the pivot.
  pub partition_int32-IsSplit :
      (xs : List A)
      → let r = partition_int32 blank below xs in IsSplit r.0 (length xs) r.1 × IsRearranged xs r.1
  unfolding partition_int32
  partition_int32-IsSplit xs = partition_loop-IsSplit (length xs) 0 0 xs (omega arith) (record {
    ordered = omega arith;
    low = λ k h. absurd (omega arith);
    high = λ k lo hi. absurd (omega arith);
  })
