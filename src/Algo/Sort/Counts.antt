-- ===== src/Algo/Sort/Counts.antt =====
-- What the sorts keep: the length of the array, and how many of its elements pass a test.
use vexspoke.Base.{
  ℕ, zero, suc, ◌+◌, ◌-◌, ◌/◌, ◌≤◌, ◌<◌, ◌≡◌, ◌∙◌, ◌⊎◌, refl, List, Bool, true, false, ◌&&◌, ltb,
  arith, if◌then◌else◌, length,
}
use vexspoke.Algo.Sort.{
  Sign, swap_elements, before, sink, sink_each, insertion_sort_range, minimum_from, select_each,
  bubble_pass, bubble_passes, larger_child, sift_down,
}
use vexspoke.Algo.Sort.Swaps.{count, count-swap_elements, length-swap_elements}

-- One array is a rearrangement of another: as many elements of each kind.
pub record IsRearranged {ℓ} {A : Type ℓ} (xs ys : List A) : Type ℓ where
  pub same_length : length ys ≡ length xs
  pub same_counts : (p : A → Bool) → count p ys ≡ count p xs

module _ {ℓ} {A : Type ℓ} where
  pub IsRearranged-refl : (xs : List A) → IsRearranged xs xs
  IsRearranged-refl xs = record { same_length = refl; same_counts = λ p. refl }

  pub IsRearranged-trans :
      {xs ys zs : List A} → IsRearranged xs ys → IsRearranged ys zs → IsRearranged xs zs
  IsRearranged-trans one two = record {
    same_length = two.same_length ∙ one.same_length;
    same_counts = λ p. two.same_counts p ∙ one.same_counts p;
  }

  -- By the outcome of a test.
  pub branch-IsRearranged :
      (b : Bool) {xs ys zs : List A}
      → (b ≡ true → IsRearranged xs ys)
      → (b ≡ false → IsRearranged xs zs)
      → IsRearranged xs (elim b [ true ↦ ys | false ↦ zs ])
  branch-IsRearranged true on off = on refl
  branch-IsRearranged false on off = off refl

  pair-IsRearranged :
      {xs : List A} (b : Bool) (p q : Bool × List A)
      → (b ≡ true → IsRearranged xs p.1)
      → (b ≡ false → IsRearranged xs q.1)
      → IsRearranged xs (elim b as (λ c. Bool × List A) [ true ↦ p | false ↦ q ]).1
  pair-IsRearranged true p q on off = on refl
  pair-IsRearranged false p q on off = off refl

  pub if-IsRearranged :
      (b : Bool) {xs ys zs : List A}
      → (b ≡ true → IsRearranged xs ys)
      → (b ≡ false → IsRearranged xs zs)
      → IsRearranged xs (if b then ys else zs)
  if-IsRearranged true on off = on refl
  if-IsRearranged false on off = off refl

module _ {ℓ} {A : Type ℓ} (blank : A) where
  pub swap_elements-IsRearranged :
      (xs : List A) (i j : ℕ)
      → i < length xs
      → j < length xs
      → IsRearranged xs (swap_elements blank xs i j)
  swap_elements-IsRearranged xs i j hi hj = record {
    same_length = length-swap_elements blank xs i j;
    same_counts = λ p. count-swap_elements blank p xs i j hi hj;
  }

  -- An exchange, and then more of the same.
  pub exchanged :
      {xs zs : List A} (i j : ℕ)
      → i < length xs
      → j < length xs
      → (length (swap_elements blank xs i j) ≡ length xs
          → IsRearranged (swap_elements blank xs i j) zs)
      → IsRearranged xs zs
  exchanged {xs} i j hi hj more =
      let one = swap_elements-IsRearranged xs i j hi hj in
      IsRearranged-trans one (more one.same_length)

module _ {ℓ} {A : Type ℓ} (blank : A) (compare : A → A → Sign) where
  pub sink-IsRearranged :
      (begin k : ℕ) (xs : List A) → k < length xs → IsRearranged xs (sink blank compare begin k xs)
  unfolding sink
  sink-IsRearranged begin zero xs h = IsRearranged-refl xs
  sink-IsRearranged begin (suc k) xs h =
      branch-IsRearranged (ltb begin (suc k) && before blank compare xs (suc k) k)
        (λ t.
          exchanged blank (suc k) k h (omega arith)
            (λ e. sink-IsRearranged begin k _ (omega (arith, e))))
        (λ f. IsRearranged-refl xs)

  sink_each-IsRearranged :
      (begin n i : ℕ) (xs : List A)
      → n ≡ 0 ⊎ (n + i ≤ length xs)
      → IsRearranged xs (sink_each blank compare begin n i xs)
  unfolding sink_each
  sink_each-IsRearranged begin zero i xs h = IsRearranged-refl xs
  sink_each-IsRearranged begin (suc n) i xs h =
      let one = sink-IsRearranged begin i xs (omega (arith, h)) in
      IsRearranged-trans one
        (sink_each-IsRearranged begin n (suc i) _ (omega (arith, h, one.same_length)))

  pub insertion_sort_range-IsRearranged :
      (begin end : ℕ) (xs : List A)
      → end ≤ length xs
      → IsRearranged xs (insertion_sort_range blank compare begin end xs)
  unfolding insertion_sort_range
  insertion_sort_range-IsRearranged begin end xs h =
      sink_each-IsRearranged begin _ _ xs (omega arith)

  minimum_from-lt :
      (n candidate minimum m : ℕ) (xs : List A)
      → n + candidate ≤ m
      → minimum < m
      → minimum_from blank compare n candidate minimum xs < m
  unfolding minimum_from
  minimum_from-lt zero candidate minimum m xs h lt = lt
  minimum_from-lt (suc n) candidate minimum m xs h lt =
      minimum_from-lt n (suc candidate) _ m xs (omega arith) (ground arith)

  pub select_each-IsRearranged :
      (n first : ℕ) (xs : List A)
      → n + first ≤ length xs
      → IsRearranged xs (select_each blank compare n first xs)
  unfolding select_each
  select_each-IsRearranged zero first xs h = IsRearranged-refl xs
  select_each-IsRearranged (suc n) first xs h =
      exchanged blank first _ (omega arith)
        (minimum_from-lt n (suc first) first (length xs) xs (omega arith) (omega arith))
        (λ e. select_each-IsRearranged n (suc first) _ (omega (arith, e)))

  bubble_pass-IsRearranged :
      (n i : ℕ) (changed : Bool) (xs : List A)
      → n + i ≤ length xs
      → IsRearranged xs (bubble_pass blank compare n i changed xs).1
  unfolding bubble_pass
  bubble_pass-IsRearranged zero i changed xs h = IsRearranged-refl xs
  bubble_pass-IsRearranged (suc n) i changed xs h =
      pair-IsRearranged (before blank compare xs i (i - 1)) _ _
        (λ t.
          exchanged blank i (i - 1) (omega arith) (omega arith)
            (λ e. bubble_pass-IsRearranged n (suc i) true _ (omega (arith, e))))
        (λ f. bubble_pass-IsRearranged n (suc i) changed xs (omega arith))

  pub bubble_passes-IsRearranged :
      (n : ℕ) (xs : List A) → n ≤ length xs → IsRearranged xs (bubble_passes blank compare n xs)
  unfolding bubble_passes
  bubble_passes-IsRearranged zero xs h = IsRearranged-refl xs
  bubble_passes-IsRearranged (suc zero) xs h = IsRearranged-refl xs
  bubble_passes-IsRearranged (suc (suc n)) xs h =
      let one = bubble_pass-IsRearranged (suc n) 1 false xs (omega arith) in
      branch-IsRearranged ((bubble_pass blank compare (suc n) 1 false xs).0)
        (λ t.
          IsRearranged-trans one
            (bubble_passes-IsRearranged (suc n) _ (omega (arith, one.same_length))))
        (λ f. one)

  larger_child-lt :
      (base root size : ℕ) (xs : List A)
      → root < size / 2
      → larger_child blank compare base root size xs < size
  unfolding larger_child
  larger_child-lt base root size xs h = ground arith

  pub sift_down-IsRearranged :
      (fuel base root size : ℕ) (xs : List A)
      → base + size ≤ length xs
      → IsRearranged xs (sift_down blank compare fuel base root size xs)
  unfolding sift_down
  sift_down-IsRearranged zero base root size xs h = IsRearranged-refl xs
  sift_down-IsRearranged (suc fuel) base root size xs h =
      let child = larger_child blank compare base root size xs in
      branch-IsRearranged
        (ltb root (size / 2) && before blank compare xs (base + root) (base + child))
        (λ t.
          let lt : root < size / 2 = ground (arith, t) in
          let small = larger_child-lt base root size xs lt in
          exchanged blank (base + root) (base + child) (omega arith) (omega arith)
            (λ e. sift_down-IsRearranged fuel base child size _ (omega (arith, e))))
        (λ f. IsRearranged-refl xs)
