-- ===== src/Regex/CharClass/Members.antt =====
-- Which bytes a class holds after each operation.
use native.Mathlib.Decide.{ℕ_discrete}
use Prim.Native.Nat.{bit_or, bit_and-bitwise}
use vexspoke.Base.{
  ℕ, zero, suc, ◌+◌, ◌-◌, ◌/◌, ◌%◌, ◌^◌, ◌≤◌, ◌<◌, ◌≡◌, inl, inr, refl, ap, ◌∙◌, List, [], ◌∷◌,
  Bool, true, false, not, ◌&&◌, ◌||◌, ◌==◌, ltb, leb, arith, get_or, get_or-set_self, get_or-set_ne,
  length, length-set, map, replicate, Bool-cases,
}
use vexspoke.Regex.CharClass.{
  CharClass, set_bit, add_folded_byte, add_byte, clear, add_run, add_range, negate, test,
}
use vexspoke.Regex.CharClass.Bits.{has_bit-bit_or, bit_or-lt, has_bit-complement}

-- 32 bytes.
pub record IsBitmap (cls : CharClass) : Type 0 where
  pub sized : length cls.bits ≡ 32
  pub byte : (i : ℕ) → get_or cls.bits i 0 < 256

pub clear-IsBitmap : IsBitmap clear
unfolding clear
clear-IsBitmap = record { sized = refl; byte = λ i. small i 32 }
  where
    small : (i n : ℕ) → get_or (replicate n 0) i 0 < 256
    small i zero = omega arith
    small zero (suc n) = omega arith
    small (suc i) (suc n) = small i n

zero_byte : (i n : ℕ) → get_or (replicate {A = ℕ} n 0) i 0 ≡ 0
zero_byte i zero = refl
zero_byte zero (suc n) = refl
zero_byte (suc i) (suc n) = zero_byte i n

test-clear : (c : ℕ) → test clear c ≡ false
unfolding clear test
test-clear c = rw (zero_byte (c / 8) 32, bit_and-bitwise 0 (2 ^ (c % 8)))

set_bit-IsBitmap : {cls : CharClass} (b : ℕ) → IsBitmap cls → b < 256 → IsBitmap (set_bit cls b)
unfolding set_bit
set_bit-IsBitmap {cls} b v h =
    let w = bit_or (get_or cls.bits (b / 8) 0) (2 ^ (b % 8)) in
    record {
      sized = omega (arith, length-set cls.bits (b / 8) w, v.sized);
      byte = λ i. elim (ℕ_discrete (b / 8) i) [
        | yes e ↦
            rw (← e, get_or-set_self cls.bits (b / 8) w 0 (omega (arith, v.sized)))
              (bit_or-lt _ _ (v.byte (b / 8)) (omega arith))
        | no ne ↦ rw (get_or-set_ne cls.bits {i = b / 8} {j = i} w 0 ne) (v.byte i)
      ];
    }

test-set_bit :
    {cls : CharClass} (b c : ℕ)
    → IsBitmap cls
    → b < 256
    → c < 256
    → test (set_bit cls b) c ≡ (b == c || test cls c)
unfolding set_bit test
test-set_bit {cls} b c v hb hc =
    let w = bit_or (get_or cls.bits (b / 8) 0) (2 ^ (b % 8)) in
    elim (ℕ_discrete (b / 8) (c / 8)) [
      | yes e ↦
          let same : (b % 8 == c % 8) ≡ (b == c) = ground arith in
          rw (
            ← e,
            get_or-set_self cls.bits (b / 8) w 0 (omega (arith, v.sized)),
            has_bit-bit_or (get_or cls.bits (b / 8) 0) (b % 8) (c % 8) (v.byte (b / 8))
                (omega arith) (omega arith),
            same,
          )
      | no ne ↦
          let differ : (b == c) ≡ false = ground arith in
          rw (get_or-set_ne cls.bits {i = b / 8} {j = c / 8} w 0 ne, differ)
    ]

get_or-complement :
    (bs : List ℕ) (i : ℕ) → i < length bs → get_or (map (λ b. 255 - b) bs) i 0 ≡ 255 - get_or bs i 0
get_or-complement [] i h = elim h [ ]
get_or-complement (b ∷ bs) zero h = refl
get_or-complement (b ∷ bs) (suc i) h = get_or-complement bs i (omega arith)

-- The complement of a class holds exactly the other bytes.
pub test-negate :
    {cls : CharClass} (c : ℕ) → IsBitmap cls → c < 256 → test (negate cls) c ≡ not (test cls c)
unfolding negate test
test-negate {cls} c v h =
    rw (get_or-complement cls.bits (c / 8) (omega (arith, v.sized)))
      (has_bit-complement _ _ (v.byte (c / 8)) (omega arith))

||_assoc : (a b c : Bool) → (a || (b || c)) ≡ (a || b || c)
||_assoc true b c = refl
||_assoc false b c = refl

-- What a byte stands for, with or without regard to case.
abbrev pub folds : ℕ → Bool → ℕ → Bool
folds b insensitive c =
    b == c
    || insensitive
      && (leb b'A' b && leb b b'Z' && b + 32 == c || leb b'a' b && leb b b'z' && b - 32 == c)

-- A class that has become a bitmap with the bytes of a test, beside those it had.
pub record Adds (cls : CharClass) (p : ℕ → Bool) (after : CharClass) : Type 0 where
  pub valid : IsBitmap after
  pub holds : (c : ℕ) → c < 256 → test after c ≡ (p c || test cls c)

pub set_bit-Adds :
    {cls : CharClass} (b : ℕ) → IsBitmap cls → b < 256 → Adds cls (λ c. b == c) (set_bit cls b)
set_bit-Adds b v h = record {
  valid = set_bit-IsBitmap b v h;
  holds = λ c hc. test-set_bit b c v h hc;
}

pub Adds-trans :
    {a b c : CharClass} (p q : ℕ → Bool) → Adds a p b → Adds b q c → Adds a (λ x. q x || p x) c
Adds-trans p q f g = record {
  valid = g.valid;
  holds = λ x h. g.holds x h ∙ ap (λ t. q x || t) (f.holds x h) ∙ ||_assoc (q x) (p x) _;
}

pub Adds-ext :
    {a b : CharClass} (p q : ℕ → Bool) → ((c : ℕ) → c < 256 → p c ≡ q c) → Adds a p b → Adds a q b
Adds-ext {a} p q e f = record {
  valid = f.valid;
  holds = λ x h. f.holds x h ∙ ap (λ t. t || test a x) (e x h);
}

add_folded_byte-Adds :
    {cls : CharClass} (b : ℕ) (insensitive : Bool)
    → IsBitmap cls
    → b < 256
    → Adds cls (folds b insensitive) (add_folded_byte cls b insensitive)
unfolding add_folded_byte
add_folded_byte-Adds b false v h = Adds-ext _ _ (λ c hc. ground arith) (set_bit-Adds b v h)
add_folded_byte-Adds b true v h =
    let first = set_bit-Adds b v h in
    elim (Bool-cases (leb b'A' b && leb b b'Z')) [
      | inl upper ↦ rw upper (
          Adds-ext _ _ (λ c hc. ground arith)
            (Adds-trans _ _ first (set_bit-Adds (b + 32) first.valid (ground arith))))
      | inr not_upper ↦ elim (Bool-cases (leb b'a' b && leb b b'z')) [
        | inl lower ↦
            rw (not_upper, lower)
              (Adds-ext _ _ (λ c hc. ground arith)
                (Adds-trans _ _ first (set_bit-Adds (b - 32) first.valid (ground arith))))
        | inr not_lower ↦ rw (not_upper, not_lower) (Adds-ext _ _ (λ c hc. ground arith) first)
      ]
    ]

-- Adding a byte adds that byte, and with case folding the other case of a letter, and nothing else.
test-add_byte :
    {cls : CharClass} (b c : ℕ) (insensitive : Bool)
    → IsBitmap cls
    → b < 256
    → c < 256
    → test (add_byte cls b insensitive) c ≡ (folds b insensitive c || test cls c)
unfolding add_byte
test-add_byte b c insensitive v hb hc = (add_folded_byte-Adds b insensitive v hb).holds c hc

-- Some byte of the `n` from `lo` on stands for `c`.
abbrev pub run_folds : ℕ → ℕ → Bool → ℕ → Bool
run_folds lo zero insensitive c = false
run_folds lo (suc n) insensitive c = run_folds (lo + 1) n insensitive c || folds lo insensitive c

add_run-Adds :
    (lo n : ℕ) (insensitive : Bool) {cls : CharClass}
    → IsBitmap cls
    → lo + n ≤ 256
    → Adds cls (run_folds lo n insensitive) (add_run cls lo n insensitive)
unfolding add_run
add_run-Adds lo zero insensitive v h = record { valid = v; holds = λ c hc. refl }
add_run-Adds lo (suc n) insensitive v h =
    let first = add_folded_byte-Adds lo insensitive v (omega arith) in
    Adds-trans _ _ first (add_run-Adds (lo + 1) n insensitive first.valid (omega arith))

run_folds_plain : (lo n c : ℕ) → run_folds lo n false c ≡ (leb lo c && ltb c (lo + n))
run_folds_plain lo zero c = ground arith
run_folds_plain lo (suc n) c = ground (arith, run_folds_plain (lo + 1) n c)

-- Without case folding, adding the range from `lo` to `hi` adds the bytes between them, both
-- included, and nothing else; where `hi` is below `lo` it adds nothing.
pub test-add_range :
    {cls : CharClass} (lo hi c : ℕ)
    → IsBitmap cls
    → hi < 256
    → c < 256
    → test (add_range cls lo hi false) c ≡ (leb lo c && leb c hi || test cls c)
unfolding add_range
test-add_range {cls} lo hi c v hb hc = elim (Bool-cases (ltb hi lo)) [
  | inl inverted ↦ rw inverted (ground arith)
  | inr ordered ↦ rw ordered (
      (add_run-Adds lo (hi + 1 - lo) false v (ground arith)).holds c hc
      ∙ ap (λ t. t || test cls c) (run_folds_plain lo (hi + 1 - lo) c ∙ ground arith))
]
