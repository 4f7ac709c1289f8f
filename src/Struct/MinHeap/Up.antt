-- ===== src/Struct/MinHeap/Up.antt =====
-- sift_up restores the heap order around an entry that is out of place.
use vexspoke.Base.{
  ℕ, zero, suc, ◌/◌, ◌≤◌, ◌≡◌, ◌≢◌, sym, ap, ◌⊎◌, inl, inr, List, Bool, true, not, ◌&&◌, ltb, ◌==◌,
  length-set, set as set_elem, Bool-cases, arith,
}
use vexspoke.Struct.MinHeap.{Entry, entry_at, fill_up}
use vexspoke.Struct.MinHeap.Order.{
  Before, at, IsHeap, other_way, at_set, at_other, Hole, Above, filled,
}

module _ {P : Type 0} (blank : Entry P) (le lt : P → P → Bool)
    (total : (a b : P) → (le a b ≡ true) ⊎ (le b a ≡ true))
    (trans : (a b c : P) → le a b ≡ true → le b c ≡ true → le a c ≡ true)
    (strict : (a b : P) → lt a b ≡ not (le b a)) where
  -- Moving the parent of a hole into it.
  others_up :
      (n k i : ℕ) (xs : List (Entry P))
      → 2 ≤ k
      → Hole blank le lt total trans strict n k xs
      → 2 ≤ i
      → i ≤ n
      → i ≢ k / 2
      → i / 2 ≢ k / 2
      → Before blank le lt total trans strict
          (at blank le lt total trans strict
            (set_elem xs k (at blank le lt total trans strict xs (k / 2)))
            (i / 2))
          (at blank le lt total trans strict
            (set_elem xs k (at blank le lt total trans strict xs (k / 2)))
            i)
  others_up n k i xs two hole two' h ne ne' =
      let e = at blank le lt total trans strict xs (k / 2) in
      let away : k ≢ i = λ q. ne' (ap (λ (j : ℕ). j / 2) (sym q)) in
      elim (Bool-cases (i / 2 == k)) [
        | inl t ↦
            let q : i / 2 ≡ k = ground (arith, t) in
            rw
              (
                q,
                at_set blank le lt total trans strict xs k e (omega (arith, hole.low, hole.inside)),
                at_other blank le lt total trans strict xs k i e away,
              )
              (hole.across i two h q)
        | inr f ↦
            let away' : k ≢ i / 2 = ground (arith, f) in
            rw
              (
                at_other blank le lt total trans strict xs k i e away,
                at_other blank le lt total trans strict xs k (i / 2) e away',
              )
              (hole.others i two' h (λ q. away (sym q)) (λ q. away' (sym q)))
      ]

  -- A child of the parent of a hole, where the parent has moved into the hole.
  child_up :
      (n k i : ℕ) (e : Entry P) (xs : List (Entry P))
      → 2 ≤ k
      → Hole blank le lt total trans strict n k xs
      → i ≤ n
      → i / 2 ≡ k / 2
      → Before blank le lt total trans strict e (at blank le lt total trans strict xs (k / 2))
      → Before blank le lt total trans strict e (
          at blank le lt total trans strict
            (set_elem xs k (at blank le lt total trans strict xs (k / 2)))
            i)
  child_up n k i e xs two hole h q below = elim (Bool-cases (i == k)) [
    | inl t ↦
        let s : i ≡ k = ground (arith, t) in
        rw
          (
            s,
            at_set blank le lt total trans strict xs k
                (at blank le lt total trans strict xs (k / 2))
                (omega (arith, hole.low, hole.inside)),
          )
          below
    | inr f ↦
        let away : k ≢ i = ground (arith, f) in
        let away' : i / 2 ≢ k = omega (arith, q, two) in
        let step = hole.others i (omega (arith, q, two)) h (λ s. away (sym s)) away' in
        rw
          (at_other blank le lt total trans strict xs k i
            (at blank le lt total trans strict xs (k / 2)) away)
          (trans e.priority (at blank le lt total trans strict xs (k / 2)).priority
            (at blank le lt total trans strict xs i).priority below (rw q at step))
  ]

  Hole-up :
      (n k : ℕ) (xs : List (Entry P))
      → 2 ≤ k
      → Hole blank le lt total trans strict n k xs
      → Hole blank le lt total trans strict n
          (k / 2)
          (set_elem xs k (at blank le lt total trans strict xs (k / 2)))
  Hole-up n k xs two hole = record {
    inside =
        omega (arith, hole.inside, length-set xs k (at blank le lt total trans strict xs (k / 2)));
    positive = omega (arith, two);
    low = omega (arith, hole.low);
    others = λ i two' h ne ne'. others_up n k i xs two hole two' h ne ne';
    across = λ i two' h q.
        let away : k ≢ k / 2 / 2 = omega (arith, two) in
        let up =
          hole.others (k / 2) two' (omega (arith, hole.low)) (omega (arith, two))
            (omega (arith, two)) in
        rw
          (at_other blank le lt total trans strict xs k (k / 2 / 2)
            (at blank le lt total trans strict xs (k / 2)) away)
          (child_up n k i (at blank le lt total trans strict xs (k / 2 / 2)) xs two hole h q up);
  }

  pub fill_up-IsHeap :
      (fuel n k : ℕ) (e : Entry P) (xs : List (Entry P))
      → k ≤ fuel
      → Hole blank le lt total trans strict n k xs
      → Above blank le lt total trans strict n k e xs
      → IsHeap blank le lt total trans strict n (fill_up blank le lt fuel k e xs)
  unfolding fill_up
  fill_up-IsHeap zero n k e xs h hole above = absurd (omega (arith, h, hole.positive))
  fill_up-IsHeap (suc fuel) n k e xs h hole above =
      elim (Bool-cases
        (ltb 1 k && not (le (entry_at blank le lt xs (k / 2)).priority e.priority))) [
          | inr f ↦
              rw (fill_up, f)
                (filled blank le lt total trans strict n k e xs hole above
                  (λ two. ground (arith, f, two)))
          | inl t ↦
              let two : 2 ≤ k = ground (arith, t) in
              let under =
                other_way blank le lt total trans strict
                  (at blank le lt total trans strict xs (k / 2)).priority e.priority
                  (ground (arith, t)) in
              rw (fill_up, t)
                (fill_up-IsHeap fuel n (k / 2) e _ (omega (arith, h, two)) (Hole-up n k xs two hole)
                  (λ i low q. child_up n k i e xs two hole low q under))
        ]
