-- ===== src/Struct/MinHeap/Order.antt =====
-- The heap order: no entry is before its parent, so that the root is a least one.
use Prim.Native.Nat.{◌<◌}
use vexspoke.Base.{
  ℕ, ◌/◌, ◌≤◌, ◌≡◌, ◌≢◌, ◌∙◌, sym, ◌⊎◌, inl, inr, List, Bool, true, false, not, ◌==◌, length,
  get_or-set_self, get_or-set_ne, set as set_elem, Bool-cases, arith,
}
use vexspoke.Struct.MinHeap.{Entry, entry_at}

module _ {P : Type 0} (blank : Entry P) (le lt : P → P → Bool)
    (total : (a b : P) → (le a b ≡ true) ⊎ (le b a ≡ true))
    (trans : (a b c : P) → le a b ≡ true → le b c ≡ true → le a c ≡ true)
    (strict : (a b : P) → lt a b ≡ not (le b a)) where
  -- The order of two entries of a list.
  abbrev pub Before : Entry P → Entry P → Type 0
  Before a b = le a.priority b.priority ≡ true

  abbrev pub at : List (Entry P) → ℕ → Entry P
  at xs i = entry_at blank le lt xs i

  -- The heap order of the first entries.
  abbrev pub IsHeap : ℕ → List (Entry P) → Type 0
  IsHeap n xs = (i : ℕ) → 2 ≤ i → i ≤ n → Before (at xs (i / 2)) (at xs i)

  pub other_way : (a b : P) → le a b ≡ false → le b a ≡ true
  other_way a b f = elim (total a b) [ inl t ↦ absurd (false_ne (sym f ∙ t)) | inr t ↦ t ]
    where
      false_ne : false ≢ true
      false_ne e = cc

  pub at_set :
      (xs : List (Entry P)) (k : ℕ) (e : Entry P) → k < length xs → at (set_elem xs k e) k ≡ e
  at_set xs k e h = get_or-set_self xs k e blank h

  pub at_other :
      (xs : List (Entry P)) (k i : ℕ) (e : Entry P) → k ≢ i → at (set_elem xs k e) i ≡ at xs i
  at_other xs k i e h = get_or-set_ne xs e blank h

  -- A hole at an index, which an entry is to fill: the others are in order, across the hole too.
  pub record Hole (n k : ℕ) (xs : List (Entry P)) : Type 0 where
    pub inside : n < length xs
    pub positive : 1 ≤ k
    pub low : k ≤ n
    pub others : (i : ℕ) → 2 ≤ i → i ≤ n → i ≢ k → i / 2 ≢ k → Before (at xs (i / 2)) (at xs i)
    pub across : (i : ℕ) → 2 ≤ k → i ≤ n → i / 2 ≡ k → Before (at xs (k / 2)) (at xs i)

  -- The entry may stand above the children of the hole, or below its parent.
  abbrev pub Above : ℕ → ℕ → Entry P → List (Entry P) → Type 0
  Above n k e xs = (i : ℕ) → i ≤ n → i / 2 ≡ k → Before e (at xs i)

  abbrev pub Below : ℕ → Entry P → List (Entry P) → Type 0
  Below k e xs = 2 ≤ k → Before (at xs (k / 2)) e

  -- Filling a hole where the entry fits.
  pub filled :
      (n k : ℕ) (e : Entry P) (xs : List (Entry P))
      → Hole n k xs
      → Above n k e xs
      → Below k e xs
      → IsHeap n (set_elem xs k e)
  filled n k e xs hole above below i two h = elim (Bool-cases (i == k)) [
    | inl t ↦
        let q : i ≡ k = ground (arith, t) in
        let ne : k ≢ k / 2 = omega (arith, hole.positive) in
        rw (q, at_set xs k e (omega (arith, hole.low, hole.inside)), at_other xs k (k / 2) e ne)
          (below (omega (arith, q, two)))
    | inr f ↦
        let ne : k ≢ i = ground (arith, f) in
        elim (Bool-cases (i / 2 == k)) [
          | inl t ↦
              let q : i / 2 ≡ k = ground (arith, t) in
              rw (q, at_set xs k e (omega (arith, hole.low, hole.inside)), at_other xs k i e ne)
                (above i h q)
          | inr g ↦
              let ne' : k ≢ i / 2 = ground (arith, g) in
              rw (at_other xs k i e ne, at_other xs k (i / 2) e ne')
                (hole.others i two h (λ q. ne (sym q)) (λ q. ne' (sym q)))
        ]
  ]
