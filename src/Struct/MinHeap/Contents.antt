-- ===== src/Struct/MinHeap/Contents.antt =====
-- sift_up and sift_down move entries about and lose none.
use Prim.Native.Nat.{◌<◌}
use vexspoke.Base.{
  ℕ, zero, suc, ◌+◌, ◌*◌, ◌/◌, ◌≤◌, ◌≡◌, ◌≢◌, ◌∙◌, refl, sym, ap, inl, inr, List, Bool, true, false,
  not, ◌&&◌, ltb, leb, ◌==◌, length, length-set, get_or-set_self, get_or-set_ne, set as set_elem,
  Bool-cases, arith,
}
use vexspoke.Struct.MinHeap.{Entry, entry_at, fill_up, best_child, fill_down}

abbrev pub bit : Bool → ℕ
bit true = 1
bit false = 0

module _ {P : Type 0} (blank : Entry P) (le lt : P → P → Bool) (f : Entry P → Bool) where
  abbrev is : List (Entry P) → ℕ → ℕ
  is xs i = bit (f (entry_at blank le lt xs i))

  -- How many of the entries from 1 to n a test accepts.
  abbrev pub tally : ℕ → List (Entry P) → ℕ
  tally zero xs = 0
  tally (suc n) xs = tally n xs + bit (f (entry_at blank le lt xs (suc n)))

  pub tally_outside :
      (n k : ℕ) (e : Entry P) (xs : List (Entry P)) → n < k → tally n (set_elem xs k e) ≡ tally n xs
  tally_outside zero k e xs h = refl
  tally_outside (suc n) k e xs h =
      let away : k ≢ suc n = omega (arith, h) in
      rw (tally_outside n k e xs (omega (arith, h)), get_or-set_ne xs e blank away) refl

  pub tally_set :
      (n k : ℕ) (e : Entry P) (xs : List (Entry P))
      → 1 ≤ k
      → k ≤ n
      → k < length xs
      → tally n (set_elem xs k e) + is xs k ≡ tally n xs + bit (f e)
  tally_set zero k e xs one h low = absurd (omega (arith, one, h))
  tally_set (suc n) k e xs one h low = elim (Bool-cases (k == suc n)) [
    | inl t ↦
        let q : k ≡ suc n = ground (arith, t) in
        let out = tally_outside n k e xs (omega (arith, q)) in
        let here : entry_at blank le lt (set_elem xs k e) (suc n) ≡ e =
          rw (sym q) (get_or-set_self xs k e blank low) in
        omega (arith, out, ap (λ (x : Entry P). bit (f x)) here, ap (is xs) q)
    | inr g ↦
        let away : k ≢ suc n = ground (arith, g) in
        let rest = tally_set n k e xs one (omega (arith, h, away)) low in
        let same = get_or-set_ne xs e blank away in
        omega (arith, rest, ap (λ (x : Entry P). bit (f x)) same)
  ]

  pub tally-fill_up :
      (fuel n k : ℕ) (e : Entry P) (xs : List (Entry P))
      → 1 ≤ k
      → k ≤ n
      → n < length xs
      → tally n (fill_up blank le lt fuel k e xs) + is xs k ≡ tally n xs + bit (f e)
  unfolding fill_up
  tally-fill_up zero n k e xs one h low = tally_set n k e xs one h (omega (arith, h, low))
  tally-fill_up (suc fuel) n k e xs one h low =
      elim (Bool-cases
        (ltb 1 k && not (le (entry_at blank le lt xs (k / 2)).priority e.priority))) [
          | inr g ↦ rw (fill_up, g) (tally_set n k e xs one h (omega (arith, h, low)))
          | inl t ↦
              let two : 2 ≤ k = ground (arith, t) in
              let up = entry_at blank le lt xs (k / 2) in
              let away : k ≢ k / 2 = omega (arith, two) in
              let moved = tally_set n k up xs one h (omega (arith, h, low)) in
              let rest =
                tally-fill_up fuel n (k / 2) e (set_elem xs k up) (omega (arith, two))
                  (omega (arith, h)) (omega (arith, low, length-set xs k up)) in
              let same = ap (λ (x : Entry P). bit (f x)) (get_or-set_ne xs up blank away) in
              rw (fill_up, t) (omega (arith, moved, rest, same))
        ]

  best_child_places :
      (n k : ℕ) (xs : List (Entry P))
      → 1 ≤ k
      → k ≤ n / 2
      → (k < best_child blank le lt n k xs) × (best_child blank le lt n k xs ≤ n)
  unfolding best_child
  best_child_places n k xs one h =
      elim (Bool-cases (
        leb (k * 2 + 1) n
        && lt (entry_at blank le lt xs (k * 2 + 1)).priority
            (entry_at blank le lt xs (k * 2)).priority)) [
              | inl t ↦ rw (best_child, t) (omega arith, ground (arith, t))
              | inr g ↦ rw (best_child, g) (omega (arith, one), omega (arith, h))
            ]

  pub tally-fill_down :
      (fuel n k : ℕ) (e : Entry P) (xs : List (Entry P))
      → 1 ≤ k
      → k ≤ n
      → n < length xs
      → tally n (fill_down blank le lt fuel n k e xs) + is xs k ≡ tally n xs + bit (f e)
  unfolding fill_down
  tally-fill_down zero n k e xs one h low = tally_set n k e xs one h (omega (arith, h, low))
  tally-fill_down (suc fuel) n k e xs one h low =
      let b = best_child blank le lt n k xs in
      elim (Bool-cases
        (leb k (n / 2) && not (le e.priority (entry_at blank le lt xs b).priority))) [
          | inr g ↦ rw (fill_down, g) (tally_set n k e xs one h (omega (arith, h, low)))
          | inl t ↦
              let places = best_child_places n k xs one (ground (arith, t)) in
              let down = entry_at blank le lt xs b in
              let away : k ≢ b = omega (arith, places.0) in
              let moved = tally_set n k down xs one h (omega (arith, h, low)) in
              let rest =
                tally-fill_down fuel n b e (set_elem xs k down) (omega (arith, places.0)) places.1
                  (omega (arith, low, length-set xs k down)) in
              let same = ap (λ (x : Entry P). bit (f x)) (get_or-set_ne xs down blank away) in
              rw (fill_down, t) (omega (arith, moved, rest, same))
        ]

  pub length-fill_up :
      (fuel k : ℕ) (e : Entry P) (xs : List (Entry P))
      → length (fill_up blank le lt fuel k e xs) ≡ length xs
  unfolding fill_up
  length-fill_up zero k e xs = length-set xs k e
  length-fill_up (suc fuel) k e xs =
      elim (Bool-cases
        (ltb 1 k && not (le (entry_at blank le lt xs (k / 2)).priority e.priority))) [
          | inr g ↦ rw (fill_up, g) (length-set xs k e)
          | inl t ↦
              rw (fill_up, t)
                (length-fill_up fuel (k / 2) e _
                  ∙ length-set xs k (entry_at blank le lt xs (k / 2)))
        ]

  pub length-fill_down :
      (fuel n k : ℕ) (e : Entry P) (xs : List (Entry P))
      → length (fill_down blank le lt fuel n k e xs) ≡ length xs
  unfolding fill_down
  length-fill_down zero n k e xs = length-set xs k e
  length-fill_down (suc fuel) n k e xs =
      let b = best_child blank le lt n k xs in
      elim (Bool-cases
        (leb k (n / 2) && not (le e.priority (entry_at blank le lt xs b).priority))) [
          | inr g ↦ rw (fill_down, g) (length-set xs k e)
          | inl t ↦
              rw (fill_down, t)
                (length-fill_down fuel n b e _ ∙ length-set xs k (entry_at blank le lt xs b))
        ]

  pub tally_at :
      (n : ℕ) (xs : List (Entry P))
      → tally (n + 1) xs ≡ tally n xs + bit (f (entry_at blank le lt xs (n + 1)))
  tally_at n xs = let s : n + 1 ≡ suc n = omega arith in rw s refl
