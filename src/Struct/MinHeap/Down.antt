-- ===== src/Struct/MinHeap/Down.antt =====
-- sift_down restores the heap order around an entry that is out of place.
use Prim.Native.Nat.{◌<◌}
use vexspoke.Base.{
  ℕ, zero, suc, ◌+◌, ◌*◌, ◌/◌, ◌≤◌, ◌≡◌, ◌≢◌, sym, ◌⊎◌, inl, inr, List, Bool, true, false, not,
  ◌&&◌, leb, ◌==◌, length, length-set, set as set_elem, Bool-cases, arith,
}
use vexspoke.Struct.MinHeap.{Entry, entry_at, best_child, fill_down}
use vexspoke.Struct.MinHeap.Order.{
  Before, at, IsHeap, other_way, at_set, at_other, Hole, Below, filled,
}

module _ {P : Type 0} (blank : Entry P) (le lt : P → P → Bool)
    (total : (a b : P) → (le a b ≡ true) ⊎ (le b a ≡ true))
    (trans : (a b c : P) → le a b ≡ true → le b c ≡ true → le a c ≡ true)
    (strict : (a b : P) → lt a b ≡ not (le b a)) where
  -- The child that sift_down compares with: it is a child, and none is before it.
  record Least (n k b : ℕ) (xs : List (Entry P)) : Type 0 where
    child : b / 2 ≡ k
    low : b ≤ n
    least :
        (i : ℕ)
        → i ≤ n
        → i / 2 ≡ k
        → Before blank le lt total trans strict
            (at blank le lt total trans strict xs b)
            (at blank le lt total trans strict xs i)

  itself : (a : Entry P) → Before blank le lt total trans strict a a
  itself a = elim (total a.priority a.priority) [ inl t ↦ t | inr t ↦ t ]

  two_children :
      (n k b c : ℕ) (xs : List (Entry P))
      → b / 2 ≡ k
      → b ≤ n
      → 1 ≤ k
      → ((i : ℕ) → i ≤ n → i / 2 ≡ k → (i ≡ b) ⊎ (i ≡ c))
      → (c ≤ n
          → Before blank le lt total trans strict
              (at blank le lt total trans strict xs b)
              (at blank le lt total trans strict xs c))
      → Least n k b xs
  two_children n k b c xs child low one which before = record {
    child = child;
    low = low;
    least = λ i h q. elim (which i h q) [
      | inl s ↦ rw s (itself (at blank le lt total trans strict xs b))
      | inr s ↦ rw s (before (omega (arith, s, h)))
    ];
  }

  halves : (n k i : ℕ) → i / 2 ≡ k → (i ≡ k * 2) ⊎ (i ≡ k * 2 + 1)
  halves n k i q = elim (Bool-cases (i == k * 2)) [
    | inl t ↦ inl (ground (arith, t))
    | inr f ↦ inr (omega (arith, q, even f))
  ]
    where
      even : (i == k * 2) ≡ false → i ≢ k * 2
      even f = ground (arith, f)

  best_child-Least :
      (n k : ℕ) (xs : List (Entry P))
      → 1 ≤ k
      → k ≤ n / 2
      → Least n k (best_child blank le lt n k xs) xs
  unfolding best_child
  best_child-Least n k xs one h =
      let l = k * 2 in
      let r = k * 2 + 1 in
      elim (Bool-cases
        (leb r n && lt (entry_at blank le lt xs r).priority (entry_at blank le lt xs l).priority)) [
          | inl t ↦
              let less : lt (at blank le lt total trans strict xs r).priority
                    (at blank le lt total trans strict xs l).priority
                  ≡ true =
                ground (arith, t) in
              let under =
                other_way blank le lt total trans strict
                  (at blank le lt total trans strict xs l).priority
                  (at blank le lt total trans strict xs r).priority
                  (ground (
                    arith,
                    less,
                    strict (at blank le lt total trans strict xs r).priority
                        (at blank le lt total trans strict xs l).priority,
                  )) in
              rw (best_child, t)
                (two_children n k r l xs (omega arith) (ground (arith, t)) one
                  (λ i low q. swapped (halves n k i q)) (λ _. under))
          | inr f ↦
              rw (best_child, f)
                (two_children n k l r xs (omega arith) (omega (arith, h)) one
                  (λ i low q. halves n k i q)
                  (λ low. ground (
                    arith,
                    f,
                    low,
                    strict (at blank le lt total trans strict xs r).priority
                        (at blank le lt total trans strict xs l).priority,
                  )))
        ]
    where
      swapped : {A B : Type 0} → A ⊎ B → B ⊎ A
      swapped (inl a) = inr a
      swapped (inr b) = inl b

  Hole-down :
      (n k b : ℕ) (xs : List (Entry P))
      → Hole blank le lt total trans strict n k xs
      → Least n k b xs
      → Hole blank le lt total trans strict n b
          (set_elem xs k (at blank le lt total trans strict xs b))
  Hole-down n k b xs hole best = record {
    inside = omega (arith, hole.inside, length-set xs k (at blank le lt total trans strict xs b));
    positive = omega (arith, hole.positive, best.child);
    low = best.low;
    others = λ i two h ne ne'. elim (Bool-cases (i == k)) [
      | inl t ↦
          let q : i ≡ k = ground (arith, t) in
          let away : k ≢ k / 2 = omega (arith, hole.positive) in
          rw
            (
              q,
              at_set blank le lt total trans strict xs k (at blank le lt total trans strict xs b)
                  here,
              at_other blank le lt total trans strict xs k (k / 2)
                  (at blank le lt total trans strict xs b) away,
            )
            (hole.across b (omega (arith, q, two)) best.low best.child)
      | inr f ↦
          let away : k ≢ i = ground (arith, f) in
          elim (Bool-cases (i / 2 == k)) [
            | inl t ↦
                let q : i / 2 ≡ k = ground (arith, t) in
                rw
                  (
                    q,
                    at_set blank le lt total trans strict xs k
                        (at blank le lt total trans strict xs b) here,
                    at_other blank le lt total trans strict xs k i
                        (at blank le lt total trans strict xs b) away,
                  )
                  (best.least i h q)
            | inr g ↦
                let away' : k ≢ i / 2 = ground (arith, g) in
                rw
                  (
                    at_other blank le lt total trans strict xs k i
                        (at blank le lt total trans strict xs b) away,
                    at_other blank le lt total trans strict xs k (i / 2)
                        (at blank le lt total trans strict xs b) away',
                  )
                  (hole.others i two h (λ q. away (sym q)) (λ q. away' (sym q)))
          ]
    ];
    across = λ i two h q.
        let away : k ≢ i = omega (arith, q, best.child, hole.positive) in
        let step =
          hole.others i (omega (arith, q, two)) h (λ s. away (sym s))
            (omega (arith, q, best.child, hole.positive)) in
        rw
          (
            best.child,
            at_set blank le lt total trans strict xs k (at blank le lt total trans strict xs b)
                here,
            at_other blank le lt total trans strict xs k i (at blank le lt total trans strict xs b)
                away,
          )
          (rw q at step);
  }
    where
      here : k < length xs
      here = omega (arith, hole.low, hole.inside)

  pub fill_down-IsHeap :
      (fuel n k : ℕ) (e : Entry P) (xs : List (Entry P))
      → n < fuel + k
      → Hole blank le lt total trans strict n k xs
      → Below blank le lt total trans strict k e xs
      → IsHeap blank le lt total trans strict n (fill_down blank le lt fuel n k e xs)
  unfolding fill_down
  fill_down-IsHeap zero n k e xs h hole below = absurd (omega (arith, h, hole.low))
  fill_down-IsHeap (suc fuel) n k e xs h hole below =
      let b = best_child blank le lt n k xs in
      elim (Bool-cases
        (leb k (n / 2) && not (le e.priority (entry_at blank le lt xs b).priority))) [
          | inl t ↦
              let best = best_child-Least n k xs hole.positive (ground (arith, t)) in
              let under =
                other_way blank le lt total trans strict e.priority
                  (at blank le lt total trans strict xs b).priority (ground (arith, t)) in
              let here : k < length xs = omega (arith, hole.low, hole.inside) in
              rw (fill_down, t)
                (fill_down-IsHeap fuel n b e _ (omega (arith, h, best.child, hole.positive))
                  (Hole-down n k b xs hole best)
                  (λ two.
                    rw
                      (
                        best.child,
                        at_set blank le lt total trans strict xs k
                            (at blank le lt total trans strict xs b) here,
                      )
                      under))
          | inr f ↦
              rw (fill_down, f)
                (filled blank le lt total trans strict n k e xs hole
                  (λ i low q.
                    let inner : k ≤ n / 2 = omega (arith, low, q) in
                    let best = best_child-Least n k xs hole.positive inner in
                    trans e.priority (at blank le lt total trans strict xs b).priority
                      (at blank le lt total trans strict xs i).priority (ground (arith, f, inner))
                      (best.least i low q))
                  below)
        ]
