-- ===== src/Algo/Sort/Swaps.antt =====
-- An exchange of two elements: the length, the elements, and how many pass a test.
use vexspoke.Base.{
  ℕ, zero, suc, ◌+◌, ◌<◌, ◌≡◌, ◌∙◌, sym, ap, List, [], ◌∷◌, Bool, ◌==◌, arith, if◌then◌else◌,
  get_or, get_or-set, length, length-set, set as set_elem,
}
use vexspoke.Algo.Sort.{swap_elements}

module _ {ℓ} {A : Type ℓ} where
  -- How many elements pass a test.
  abbrev pub count : (A → Bool) → List A → ℕ
  count p [] = 0
  count p (x ∷ xs) = (if p x then 1 else 0) + count p xs

  count-set :
      (p : A → Bool) (xs : List A) (i : ℕ) (v d : A)
      → i < length xs
      → count p (set_elem xs i v) + (if p (get_or xs i d) then 1 else 0)
        ≡ count p xs + (if p v then 1 else 0)
  count-set p [] i v d h = elim h [ ]
  count-set p (x ∷ xs) zero v d h = omega arith
  count-set p (x ∷ xs) (suc i) v d h = omega (arith, count-set p xs i v d (omega arith))

module _ {ℓ} {A : Type ℓ} (blank : A) where
  pub length-swap_elements :
      (xs : List A) (i j : ℕ) → length (swap_elements blank xs i j) ≡ length xs
  unfolding swap_elements
  length-swap_elements xs i j =
      length-set (set_elem xs i (get_or xs j blank)) j _ ∙ length-set xs i _

  pub count-swap_elements :
      (p : A → Bool) (xs : List A) (i j : ℕ)
      → i < length xs
      → j < length xs
      → count p (swap_elements blank xs i j) ≡ count p xs
  unfolding swap_elements
  count-swap_elements p xs i j hi hj =
      let ys = set_elem xs i (get_or xs j blank) in
      let one = count-set p xs i (get_or xs j blank) blank hi in
      let two =
        count-set p ys j (get_or xs i blank) blank
          (omega (arith, length-set xs i (get_or xs j blank))) in
      let at = get_or-set xs i j (get_or xs j blank) blank hi in
      let same : get_or ys j blank ≡ get_or xs j blank = ground (arith, at) in
      let two' =
        ap (λ x. count p (set_elem ys j (get_or xs i blank)) + (if p x then 1 else 0)) (sym same)
        ∙ two in
      omega (arith, one, two')

  pub get_or-swap_elements :
      (xs : List A) (i j k : ℕ)
      → i < length xs
      → j < length xs
      → get_or (swap_elements blank xs i j) k blank ≡ (
          if j == k
          then get_or xs i blank
          else if i == k
          then get_or xs j blank
          else get_or xs k blank)
  unfolding swap_elements
  get_or-swap_elements xs i j k hi hj = ground (
    arith,
    get_or-set (set_elem xs i (get_or xs j blank)) j k (get_or xs i blank) blank
        (omega (arith, length-set xs i (get_or xs j blank))),
    get_or-set xs i k (get_or xs j blank) blank hi,
  )
