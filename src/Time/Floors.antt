-- ===== src/Time/Floors.antt =====
-- The divisions of src/time/ round down, on both sides of 0.
use Prim.Native.Nat.{◌<◌}
use native.Mathlib.Nat.{mod-lt, div-add-mod', add-div_right, mul-add-div_right, div-eq_of_lt}
use vexspoke.Base.{
  ℕ, zero, suc, ◌+◌, ◌-◌, ◌*◌, ◌/◌, ◌%◌, ◌≡◌, ◌∙◌, ap, ◌==◌, false, arith, if◌then◌else◌,
}
use vexspoke.Time.Signed.{
  ℤ, pos, negsuc, add_nat, ◌-ℤ◌, scale, to_nat, borrow, era_of, add_nat-below, add_nat-above,
  sub_nat-below,
}

-- A quotient and a remainder of an integer, rounded down.
pub record IsFloor (z : ℤ) (k : ℕ) (q : ℤ) (r : ℕ) : Type 0 where
  pub small : r < k
  pub whole : add_nat (scale q k) r ≡ z

borrowed :
    (n k q r : ℕ)
    → q * suc k + r ≡ n + 1
    → r < suc k
    → let b : ℤ × ℕ = if r == 0 then (negsuc (q - 1), 0) else (negsuc q, suc k - r) in
      IsFloor (negsuc n) (suc k) b.0 b.1
unfolding scale
borrowed n k q zero e h = record { small = omega arith; whole = exact q e }
  where
    exact : (q : ℕ) → q * suc k + 0 ≡ n + 1 → add_nat (scale (negsuc (q - 1)) (suc k)) 0 ≡ negsuc n
    exact zero e = absurd (omega (arith, e))
    exact (suc q) e =
        let one : suc q - 1 ≡ q = omega arith in
        rw one (add_nat-below (q * suc k + k) 0 (omega arith) ∙ ap negsuc (omega (arith, e)))
borrowed n k q (suc r) e h =
    let f : (suc r == 0) ≡ false = ground arith in
    rw f (record {
      small = omega (arith, h);
      whole =
          add_nat-below (q * suc k + k) (suc k - suc r) (omega (arith, h))
          ∙ ap negsuc (omega (arith, e, h));
    })

-- The borrow makes a floor of a quotient that C rounds to zero.
pub borrow-IsFloor : (z : ℤ) (k : ℕ) → 0 < k → IsFloor z k (borrow z k).0 (borrow z k).1
unfolding borrow scale add_nat
borrow-IsFloor z zero h = absurd (omega (arith, h))
borrow-IsFloor (pos n) (suc k) h = record {
  small = mod-lt n h;
  whole = ap pos (div-add-mod' n (suc k));
}
borrow-IsFloor (negsuc n) (suc k) h =
    borrowed n k ((n + 1) / suc k) ((n + 1) % suc k) (div-add-mod' (n + 1) (suc k))
      (mod-lt (n + 1) h)

-- So does the other way that the source rounds down.
pub era_of-IsFloor :
    (z : ℤ) (k : ℕ) → 0 < k → IsFloor z k (era_of z k) (to_nat (z -ℤ scale (era_of z k) k))
unfolding era_of scale ◌-ℤ◌ to_nat add_nat
era_of-IsFloor z zero h = absurd (omega (arith, h))
era_of-IsFloor (pos n) (suc k) h =
    let e = div-add-mod' n (suc k) in
    let s = mod-lt n h in
    rw (sub_nat-below n (n / suc k * suc k) (omega (arith, e)))
      (record { small = omega (arith, e, s); whole = ap pos (omega (arith, e)) })
era_of-IsFloor (negsuc n) (suc k) h =
    let e = div-add-mod' n (suc k) in
    let s = mod-lt n h in
    let up : n + 1 + (suc k - 1) ≡ n + suc k = omega arith in
    let q : n / suc k + 1 - 1 ≡ n / suc k = omega arith in
    let b = n / suc k * suc k + k in
    rw (up, add-div_right n h, q, add_nat-above n (b + 1) (omega (arith, e, s)))
      (record {
        small = omega (arith, e, s);
        whole =
            add_nat-below b (b + 1 - n - 1) (omega (arith, e, s)) ∙ ap negsuc (omega (arith, e, s));
      })

-- The quotient of an integer that is given by a quotient and a remainder.
pub era_of-IsFloor_unique : (q : ℤ) (r k : ℕ) → r < k → era_of (add_nat (scale q k) r) k ≡ q
unfolding era_of scale add_nat
era_of-IsFloor_unique q r zero h = absurd (omega (arith, h))
era_of-IsFloor_unique (pos m) r (suc k) h =
    let some_k : 0 < suc k = omega arith in
    ap pos (mul-add-div_right some_k m r ∙ omega (arith, div-eq_of_lt h))
era_of-IsFloor_unique (negsuc m) r (suc k) h =
    let some_k : 0 < suc k = omega arith in
    let shape : m * suc k + k - r + 1 + (suc k - 1) ≡ (m + 1) * suc k + (k - r) =
      omega (arith, h) in
    let small : k - r < suc k = omega arith in
    rw (add_nat-below (m * suc k + k) r (omega (arith, h))) (
      ap negsuc
        (rw (shape, mul-add-div_right some_k (m + 1) (k - r), div-eq_of_lt small) (omega arith)))
