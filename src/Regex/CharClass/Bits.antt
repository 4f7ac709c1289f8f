-- ===== src/Regex/CharClass/Bits.antt =====
-- One bit of one byte, by evaluation over all bytes and all places.
use native.Mathlib.Decide.{ℕ_discrete}
use Prim.Native.Nat.{bit_and, bit_or}
use vexspoke.Base.{
  ℕ, zero, suc, ◌+◌, ◌-◌, ◌*◌, ◌/◌, ◌%◌, ◌^◌, ◌<◌, ◌≡◌, refl, Bool, true, false, not, ◌||◌, ◌==◌,
  arith, ltb, ltb→lt,
}

-- A test that no number less than `bound` fails.
holds_to : (ℕ → Bool) → ℕ → Bool
holds_to test zero = true
holds_to test (suc last) = elim (test last) [ true ↦ holds_to test last | false ↦ false ]

holds_to-use :
    (test : ℕ → Bool) {bound : ℕ} → holds_to test bound ≡ true → (i : ℕ) → i < bound → test i ≡ true
unfolding holds_to
holds_to-use test {bound = zero} table i small = elim small [ ]
holds_to-use test {bound = suc last} table i small =
    let earlier = holds_to-use test {bound = last} in
    elim (ℕ_discrete i last) [
      | yes e ↦ rw e (ground (arith, table))
      | no other ↦ earlier (ground (arith, table)) i (omega arith)
    ]

-- Whether a byte has the bit at a place.
abbrev pub has_bit : ℕ → ℕ → Bool
has_bit b j = not (bit_and b (2 ^ j) == 0)

abbrev same : Bool → Bool → Bool
same true b = b
same false b = not b

same_sound : (a b : Bool) → same a b ≡ true → a ≡ b
same_sound true b h = ground arith
same_sound false b h = ground arith

abbrev or_test : ℕ → Bool
or_test n =
    let b = n / 64 in
    let i = n / 8 % 8 in
    let j = n % 8 in same (has_bit (bit_or b (2 ^ i)) j) (i == j || has_bit b j)

or_table : holds_to or_test 16384 ≡ true
unfolding holds_to
or_table = refl

pub has_bit-bit_or :
    (b i j : ℕ) → b < 256 → i < 8 → j < 8 → has_bit (bit_or b (2 ^ i)) j ≡ (i == j || has_bit b j)
has_bit-bit_or b i j hb hi hj =
    let n = b * 64 + i * 8 + j in
    let checked = holds_to-use or_test or_table n (omega arith) in
    let first : n / 64 ≡ b = omega arith in
    let second : n / 8 % 8 ≡ i = omega arith in
    let third : n % 8 ≡ j = omega arith in same_sound _ _ (rw (first, second, third) at checked)

abbrev or_small : ℕ → Bool
or_small n = ltb (bit_or (n / 8) (2 ^ (n % 8))) 256

or_small_table : holds_to or_small 2048 ≡ true
unfolding holds_to
or_small_table = refl

pub bit_or-lt : (b i : ℕ) → b < 256 → i < 8 → bit_or b (2 ^ i) < 256
bit_or-lt b i hb hi =
    let n = b * 8 + i in
    let checked = holds_to-use or_small or_small_table n (omega arith) in
    let first : n / 8 ≡ b = omega arith in
    let second : n % 8 ≡ i = omega arith in ltb→lt _ _ (rw (first, second) at checked)

abbrev not_test : ℕ → Bool
not_test n = same (has_bit (255 - n / 8) (n % 8)) (not (has_bit (n / 8) (n % 8)))

not_table : holds_to not_test 2048 ≡ true
unfolding holds_to
not_table = refl

pub has_bit-complement : (b j : ℕ) → b < 256 → j < 8 → has_bit (255 - b) j ≡ not (has_bit b j)
has_bit-complement b j hb hj =
    let n = b * 8 + j in
    let checked = holds_to-use not_test not_table n (omega arith) in
    let first : n / 8 ≡ b = omega arith in
    let second : n % 8 ≡ j = omega arith in same_sound _ _ (rw (first, second) at checked)
