-- ===== src/Struct/Map/Mask.antt =====
-- The step of a probe, `(idx + 1) & mask`, where the capacity is a power of two.
use Prim.Native.Nat.{◌<◌, min, bit_and, digits, bit_and-bitwise}
use mathlib.Core.Path.{ap₂}
use native.Mathlib.Nat.{
  zero-mod, mod-one, mod-lt, mod-eq_of_lt, div-add-mod', mul-add-mod_self_right, mul_assoc,
}
use vexspoke.Struct.Map.{next_slot}
use vexspoke.Base.{ℕ, zero, suc, ◌+◌, ◌-◌, ◌*◌, ◌/◌, ◌%◌, ◌^◌, ◌≤◌, ◌≡◌, ◌∙◌, refl, sym, ap, arith}

abbrev masked : ℕ → ℕ → ℕ → ℕ
masked fuel x mask = digits (λ b. zero) min fuel x mask

masked_small : (fuel k x : ℕ) → x ≤ fuel → x < 2 ^ k → masked fuel x (2 ^ k - 1) ≡ x
masked_small zero k zero h h' = refl
masked_small zero k (suc x) h h' = absurd (omega (arith, h))
masked_small (suc fuel) k zero h h' = refl
masked_small (suc fuel) zero (suc x) h h' = absurd (omega (arith, h'))
masked_small (suc fuel) (suc k) (suc x) h h' =
    let half : (2 ^ suc k - 1) / 2 ≡ 2 ^ k - 1 = omega arith in
    let odd : (2 ^ suc k - 1) % 2 ≡ 1 = omega arith in
    let rest = masked_small fuel k (suc x / 2) (omega (arith, h)) (omega (arith, h')) in
    rw (half, odd, rest) (omega arith)

masked_power : (fuel k : ℕ) → 2 ^ k ≤ fuel → masked fuel (2 ^ k) (2 ^ k - 1) ≡ 0
masked_power zero k h = refl
masked_power (suc fuel) zero h = masked_none fuel
  where
    masked_none : (fuel : ℕ) → masked fuel 0 0 * 2 + 0 ≡ 0
    masked_none zero = refl
    masked_none (suc fuel) = refl
masked_power (suc fuel) (suc k) h = by_pred (2 ^ suc k) refl (λ h'. masked_power fuel k h')
  where
    by_pred :
        (x : ℕ)
        → x ≡ 2 ^ suc k
        → (2 ^ k ≤ fuel → masked fuel (2 ^ k) (2 ^ k - 1) ≡ 0)
        → masked (suc fuel) x (2 ^ suc k - 1) ≡ 0
    by_pred zero e rest = refl
    by_pred (suc x) e rest =
        let half : (2 ^ suc k - 1) / 2 ≡ 2 ^ k - 1 = omega arith in
        let top : suc x / 2 ≡ 2 ^ k = omega (arith, e) in
        let even : suc x % 2 ≡ 0 = omega (arith, e) in
        rw (half, top, even) (omega (arith, rest (omega (arith, h))))

pub pow_pos : (k : ℕ) → 0 < 2 ^ k
pow_pos zero = omega arith
pow_pos (suc k) = omega (arith, pow_pos k)

pub next_slot_lt : (k idx : ℕ) → idx + 1 < 2 ^ k → next_slot (2 ^ k) idx ≡ idx + 1
next_slot_lt k idx h =
    rw (bit_and-bitwise (idx + 1) (2 ^ k - 1)) (masked_small (idx + 1) k (idx + 1) (omega arith) h)

pub next_slot_wraps : (k idx : ℕ) → idx + 1 ≡ 2 ^ k → next_slot (2 ^ k) idx ≡ 0
next_slot_wraps k idx e =
    rw (e, bit_and-bitwise (2 ^ k) (2 ^ k - 1)) (masked_power (2 ^ k) k (omega arith))

masked_zero : (fuel x : ℕ) → masked fuel x 0 ≡ 0
masked_zero zero x = refl
masked_zero (suc fuel) zero = refl
masked_zero (suc fuel) (suc x) = omega (arith, masked_zero fuel (suc x / 2))

pub masked_lt : (k x : ℕ) → bit_and x (2 ^ k - 1) < 2 ^ k
masked_lt k x = rw (bit_and-bitwise x (2 ^ k - 1)) (below x k x)
  where
    below : (fuel k x : ℕ) → masked fuel x (2 ^ k - 1) < 2 ^ k
    below zero k x = omega (arith, pow_pos k)
    below (suc fuel) k zero = omega (arith, pow_pos k)
    below (suc fuel) zero (suc x) = omega (arith, masked_zero (suc fuel) (suc x))
    below (suc fuel) (suc k) (suc x) =
        let half : (2 ^ suc k - 1) / 2 ≡ 2 ^ k - 1 = omega arith in
        rw half (omega (arith, below fuel k (suc x / 2)))

double_mod : (q m r : ℕ) → 0 < m → r < 2 → (q * 2 + r) % (m * 2) ≡ q % m * 2 + r
double_mod q m r h h' =
    ap (λ n. n % (m * 2)) (omega (arith, div-add-mod' q m, mul_assoc (q / m) m 2))
    ∙ mul-add-mod_self_right (q / m) (m * 2) (q % m * 2 + r)
    ∙ mod-eq_of_lt (omega (arith, mod-lt q h))

masked_mod : (fuel k x : ℕ) → x ≤ fuel → masked fuel x (2 ^ k - 1) ≡ x % 2 ^ k
masked_mod zero k zero h = sym (zero-mod (2 ^ k))
masked_mod zero k (suc x) h = elim h [ ]
masked_mod (suc fuel) k zero h = sym (zero-mod (2 ^ k))
masked_mod (suc fuel) zero (suc x) h = masked_zero (suc fuel) (suc x) ∙ sym (mod-one (suc x))
masked_mod (suc fuel) (suc k) (suc x) h =
    let half : (2 ^ suc k - 1) / 2 ≡ 2 ^ k - 1 = omega arith in
    let odd : (2 ^ suc k - 1) % 2 ≡ 1 = omega (arith, pow_pos k) in
    let rest = masked_mod fuel k (suc x / 2) (omega (arith, h)) in
    let twice = double_mod (suc x / 2) (2 ^ k) (suc x % 2) (pow_pos k) (omega arith) in
    let whole : (suc x / 2 * 2 + suc x % 2) % (2 ^ k * 2) ≡ suc x % 2 ^ suc k =
      ap₂ ◌%◌ (omega arith) (omega arith) in
    rw (half, odd, rest) (omega (arith, twice, whole))

-- `x & (2 ^ k - 1)` is the remainder by the power of two.
pub bit_and-mask : (k x : ℕ) → bit_and x (2 ^ k - 1) ≡ x % 2 ^ k
bit_and-mask k x = bit_and-bitwise x (2 ^ k - 1) ∙ masked_mod x k x (omega arith)
