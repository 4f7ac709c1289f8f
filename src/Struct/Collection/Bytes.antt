-- ===== src/Struct/Collection/Bytes.antt =====
-- memcpy, memcmp and memset of a number of bytes, over buffers given by their slots. The number
-- need not be a whole number of slots: the size that the callers compute may have wrapped.
use Prim.Native.Nat.{min}
use vexspoke.Base.{
  ℕ, zero, suc, ◌+◌, ◌-◌, ◌*◌, ◌/◌, ◌%◌, ◌^◌, ◌≤◌, ◌<◌, ◌≡◌, refl, ap, List, [], ◌∷◌, ◌++◌, Bool,
  true, false, ◌↔◌, ◌&&◌, ◌||◌, ◌==◌, arith, leb, if◌then◌else◌, set, take, drop, length,
}

module _ (stride : ℕ) where
  -- The destination after memcpy(dst, src, n).
  pub copy_bytes : ℕ → List ℕ → List ℕ → List ℕ
  copy_bytes n [] dst = dst
  copy_bytes n (s ∷ src) [] = []
  copy_bytes n (s ∷ src) (d ∷ dst) =
      let rest = copy_bytes (n - stride) src dst in
      if leb stride n then s ∷ rest else (d - d % 256 ^ n + s % 256 ^ n) ∷ dst

  -- memcmp(a, b, n) == 0.
  unfoldable pub same_bytes : ℕ → List ℕ → List ℕ → Bool
  same_bytes n [] ys = true
  same_bytes n (x ∷ xs) [] = true
  same_bytes n (x ∷ xs) (y ∷ ys) =
      let rest = same_bytes (n - stride) xs ys in
      if leb stride n then x == y && rest else x % 256 ^ n == y % 256 ^ n

  -- The buffer after memset(data + offset, 0, n).
  pub zero_bytes : ℕ → ℕ → List ℕ → List ℕ
  zero_bytes offset n [] = []
  zero_bytes offset n (x ∷ xs) =
      let end = min stride (offset + n) in
      (if leb stride offset || n == 0
        then x
        else x % 256 ^ offset + x / 256 ^ end % 256 ^ (stride - end) * 256 ^ end)
      ∷ zero_bytes (offset - stride) (if leb stride offset then n else offset + n - end) xs

  module _ (positive : 0 < stride) where
    -- Whole slots are copied whole.
    pub copy_bytes-mul :
        (k : ℕ) (src dst : List ℕ)
        → k ≤ length src
        → k ≤ length dst
        → copy_bytes (k * stride) src dst ≡ take k src ++ drop k dst
    unfolding copy_bytes
    copy_bytes-mul zero [] dst h h' = refl
    copy_bytes-mul zero (s ∷ src) [] h h' = refl
    copy_bytes-mul zero (s ∷ src) (d ∷ dst) h h' = ground arith
    copy_bytes-mul (suc k) [] dst h h' = absurd (omega arith)
    copy_bytes-mul (suc k) (s ∷ src) [] h h' = absurd (omega arith)
    copy_bytes-mul (suc k) (s ∷ src) (d ∷ dst) h h' =
        let less : suc k * stride - stride ≡ k * stride = grind arith in
        let more : leb stride (suc k * stride) ≡ true = grind arith in
        rw (less, more, copy_bytes-mul k src dst (omega arith) (omega arith))

    -- The first `k` slots are the same exactly when memcmp says so.
    pub same_bytes-mul :
        (k : ℕ) (xs ys : List ℕ)
        → k ≤ length xs
        → k ≤ length ys
        → (same_bytes (k * stride) xs ys ≡ true) ↔ (take k xs ≡ take k ys)
    unfolding same_bytes
    same_bytes-mul zero [] ys h h' = ground arith
    same_bytes-mul zero (x ∷ xs) [] h h' = ground arith
    same_bytes-mul zero (x ∷ xs) (y ∷ ys) h h' = ground arith
    same_bytes-mul (suc k) [] ys h h' = absurd (omega arith)
    same_bytes-mul (suc k) (x ∷ xs) [] h h' = absurd (omega arith)
    same_bytes-mul (suc k) (x ∷ xs) (y ∷ ys) h h' =
        let less : suc k * stride - stride ≡ k * stride = grind arith in
        let more : leb stride (suc k * stride) ≡ true = grind arith in
        rw (less, more) (ground (arith, same_bytes-mul k xs ys))

    mod-one : (n : ℕ) → n % 1 ≡ 0
    mod-one n = omega arith

    zero_bytes-none : (xs : List ℕ) → zero_bytes 0 0 xs ≡ xs
    unfolding zero_bytes
    zero_bytes-none [] = refl
    zero_bytes-none (x ∷ xs) = ground (arith, zero_bytes-none xs)

    -- A slot that is cleared whole is cleared alone.
    pub zero_bytes-mul : (k : ℕ) (xs : List ℕ) → zero_bytes (k * stride) stride xs ≡ set xs k 0
    unfolding zero_bytes
    zero_bytes-mul k [] = refl
    zero_bytes-mul zero (x ∷ xs) =
        let start : 0 * stride ≡ 0 = omega arith in
        let end : min stride (0 + stride) ≡ stride = omega arith in
        let inside : leb stride 0 ≡ false = ground arith in
        let some_bytes : (stride == 0) ≡ false = ground arith in
        let none_left : 0 + stride - stride ≡ 0 = omega arith in
        let to_end : stride - stride ≡ 0 = omega arith in
        let before : 0 - stride ≡ 0 = omega arith in
        rw
          (
            start,
            end,
            inside,
            some_bytes,
            none_left,
            to_end,
            before,
            zero_bytes-none xs,
            mod-one x,
            mod-one (x / 256 ^ stride),
          )
          (ap (λ n. n ∷ xs) (omega arith))
    zero_bytes-mul (suc k) (x ∷ xs) =
        let less : suc k * stride - stride ≡ k * stride = grind arith in
        let more : leb stride (suc k * stride) ≡ true = grind arith in
        rw (less, more) (ap (◌∷◌ x) (zero_bytes-mul k xs))
