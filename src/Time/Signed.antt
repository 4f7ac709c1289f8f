-- ===== src/Time/Signed.antt =====
-- The signed integers of src/time/, and the divisions that its functions make floors of.
use Prim.Native.Nat.{◌<◌}
use vexspoke.Base.{
  ℕ, zero, suc, ◌+◌, ◌-◌, ◌*◌, ◌/◌, ◌%◌, ◌≤◌, ◌≡◌, ◌∙◌, refl, ap, ◌==◌, leb, true, false, arith,
  if◌then◌else◌, Bool-cases, inl, inr,
}

-- `negsuc n` is - (n + 1).
pub data ℤ : Type 0 where
  pos negsuc : ℕ → ℤ

-- An integer and a natural number.
unfoldable pub add_nat : ℤ → ℕ → ℤ
add_nat (pos m) n = pos (m + n)
add_nat (negsuc m) n = if leb n m then negsuc (m - n) else pos (n - m - 1)

unfoldable pub sub_nat : ℤ → ℕ → ℤ
sub_nat (pos m) n = if leb n m then pos (m - n) else negsuc (n - m - 1)
sub_nat (negsuc m) n = negsuc (m + n)

infixl 6 ◌+ℤ◌
unfoldable pub ◌+ℤ◌ : ℤ → ℤ → ℤ
z +ℤ pos n = add_nat z n
z +ℤ negsuc n = sub_nat z (n + 1)

infixl 6 ◌-ℤ◌
unfoldable pub ◌-ℤ◌ : ℤ → ℤ → ℤ
z -ℤ pos n = sub_nat z n
z -ℤ negsuc n = add_nat z (n + 1)

unfoldable pub scale : ℤ → ℕ → ℤ
scale (pos m) k = pos (m * k)
scale (negsuc m) zero = pos 0
scale (negsuc m) (suc k) = negsuc (m * suc k + k)

-- An integer that is not negative.
unfoldable pub to_nat : ℤ → ℕ
to_nat (pos n) = n
to_nat (negsuc n) = 0

-- A quotient and a remainder, which C rounds to zero, and the borrow where the remainder is negative:
-- `q = n / k; r = n % k; if (r < 0) { r += k; q--; }`.
unfoldable pub borrow : ℤ → ℕ → ℤ × ℕ
borrow (pos n) k = (pos (n / k), n % k)
borrow (negsuc n) k =
    let q = (n + 1) / k in
    let r = (n + 1) % k in if r == 0 then (negsuc (q - 1), 0) else (negsuc q, k - r)

-- `(n >= 0 ? n : n - (k - 1)) / k`.
unfoldable pub era_of : ℤ → ℕ → ℤ
era_of (pos n) k = pos (n / k)
era_of (negsuc n) k = negsuc ((n + 1 + (k - 1)) / k - 1)

pub add_nat-below : (m n : ℕ) → n ≤ m → add_nat (negsuc m) n ≡ negsuc (m - n)
unfolding add_nat
add_nat-below m n h = let t : leb n m ≡ true = ground arith in rw t refl

pub add_nat-above : (m n : ℕ) → m < n → add_nat (negsuc m) n ≡ pos (n - m - 1)
unfolding add_nat
add_nat-above m n h = let t : leb n m ≡ false = ground arith in rw t refl

pub sub_nat-below : (m n : ℕ) → n ≤ m → sub_nat (pos m) n ≡ pos (m - n)
unfolding sub_nat
sub_nat-below m n h = let t : leb n m ≡ true = ground arith in rw t refl

pub sub_nat-above : (m n : ℕ) → m < n → sub_nat (pos m) n ≡ negsuc (n - m - 1)
unfolding sub_nat
sub_nat-above m n h = let t : leb n m ≡ false = ground arith in rw t refl

pub sub_nat-add_nat : (z : ℤ) (n : ℕ) → sub_nat (add_nat z n) n ≡ z
unfolding add_nat sub_nat
sub_nat-add_nat (pos m) n = sub_nat-below (m + n) n (omega arith) ∙ ap pos (omega arith)
sub_nat-add_nat (negsuc m) n = elim (Bool-cases (leb n m)) [
  | inl t ↦ rw (add_nat, t) (ap negsuc (ground (arith, t)))
  | inr f ↦
      let e : leb n (n - m - 1) ≡ false = ground (arith, f) in
      rw (add_nat, f, e) (ap negsuc (ground (arith, f)))
]

pub minus-same : (w : ℤ) (r : ℕ) → add_nat w r -ℤ w ≡ pos r
unfolding ◌-ℤ◌ add_nat sub_nat
minus-same (pos m) r = sub_nat-below (m + r) m (omega arith) ∙ ap pos (omega arith)
minus-same (negsuc m) r = elim (Bool-cases (leb r m)) [
  | inl t ↦
      let e : leb (m + 1) (m - r) ≡ false = ground arith in
      rw (add_nat, t, e) (ap pos (ground (arith, t)))
  | inr f ↦ rw (add_nat, f) (ap pos (ground (arith, f)))
]
