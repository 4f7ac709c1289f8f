-- ===== src/Algo/Sort/Fuel.antt =====
-- The fuel of siftDown is enough.
use vexspoke.Base.{
  ℕ, zero, suc, ◌+◌, ◌/◌, ◌≤◌, ◌<◌, ◌≡◌, ◌∙◌, refl, ap, List, Bool, true, false, ◌&&◌, ltb, arith,
}
use vexspoke.Algo.Sort.{Sign, swap_elements, before, larger_child, sift_down}

module _ {ℓ} {A : Type ℓ} (blank : A) (compare : A → A → Sign) where
  later_child :
      (base root size : ℕ) (xs : List A) → root < larger_child blank compare base root size xs
  unfolding larger_child
  later_child base root size xs = ground arith

  by_outcome :
      (b : Bool) (xs ys zs : List A)
      → (b ≡ true → ys ≡ zs)
      → elim b as (λ c. List A) [ true ↦ ys | false ↦ xs ]
        ≡ elim b as (λ c. List A) [ true ↦ zs | false ↦ xs ]
  by_outcome true xs ys zs same = same refl
  by_outcome false xs ys zs same = refl

  stopped :
      (b : Bool) (xs ys : List A)
      → b ≡ false
      → elim b as (λ c. List A) [ true ↦ ys | false ↦ xs ] ≡ xs
  stopped true xs ys e = absurd (ground (arith, e))
  stopped false xs ys e = refl

  one_more :
      (fuel base root size : ℕ) (xs : List A)
      → size ≤ root + fuel
      → sift_down blank compare (suc fuel) base root size xs
        ≡ sift_down blank compare fuel base root size xs
  unfolding sift_down
  one_more zero base root size xs enough =
      let child = larger_child blank compare base root size xs in
      stopped (ltb root (size / 2) && before blank compare xs (base + root) (base + child)) xs _
        (ground (arith, enough))
  one_more (suc fuel) base root size xs enough =
      let child = larger_child blank compare base root size xs in
      let later : root < child = later_child base root size xs in
      let ys = swap_elements blank xs (base + root) (base + child) in
      by_outcome (ltb root (size / 2) && before blank compare xs (base + root) (base + child)) xs
        (sift_down blank compare (suc fuel) base child size ys)
        (sift_down blank compare fuel base child size ys)
        (λ t. one_more fuel base child size ys (omega (arith, enough, later)))

  -- siftDown returns what it returns with any more fuel, once the fuel and the root make up the
  -- size of the range; the size of the range is enough fuel from every root.
  pub sift_down_enough :
      (more fuel base root size : ℕ) (xs : List A)
      → size ≤ root + fuel
      → sift_down blank compare (more + fuel) base root size xs
        ≡ sift_down blank compare fuel base root size xs
  sift_down_enough zero fuel base root size xs enough =
      ap (λ n. sift_down blank compare n base root size xs) (omega arith)
  sift_down_enough (suc more) fuel base root size xs enough =
      let e : suc more + fuel ≡ suc (more + fuel) = omega arith in
      ap (λ n. sift_down blank compare n base root size xs) e
      ∙ one_more (more + fuel) base root size xs (omega arith)
      ∙ sift_down_enough more fuel base root size xs enough
