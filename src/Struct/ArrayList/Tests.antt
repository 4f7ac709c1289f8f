-- ===== src/Struct/ArrayList/Tests.antt =====
-- Runs of the list, and its theorems at concrete lists.
use vexspoke.Base.{
  ℕ, ◌^◌, ◌≡◌, ◌<◌, refl, List, [], ◌∷◌, arith, length, replicate, length-replicate,
}
use vexspoke.Struct.Sample.{granting, pair_at}
use vexspoke.Struct.Collection.{Collection, read_slot_at}
use vexspoke.Struct.Collection.Bounds.{IsValid}
use vexspoke.Struct.ArrayList.{add, get}
use vexspoke.Struct.ArrayList.Refine.{
  Op, add_value, get_at, set_at, remove_at, run, spec_run, list_run_refines, Grants,
}
use vexspoke.Struct.ArrayList.Limits.{add_at_half_range, add_at_four_gigabytes}

pair_at-IsValid : IsValid (pair_at 0)
pair_at-IsValid = omega arith

granting-Grants : Grants granting
granting-Grants r = ((λ _. 0xaa), refl)

abbrev script : List Op
script =
    add_value 0x10009 ∷ get_at 2 ∷ remove_at 0 ∷ get_at 0 ∷ set_at 1 5 ∷ get_at 1 ∷ get_at 9 ∷ []

-- The third word does not fit the buffer, nor the 16 bits of an element.
list_run_refines_example : run granting (pair_at 0) script ≡ 0 ∷ 9 ∷ 0 ∷ 8 ∷ 0 ∷ 5 ∷ 0 ∷ []
unfolding spec_run read_slot_at
list_run_refines_example =
    list_run_refines granting script granting-Grants pair_at-IsValid (omega arith) (omega arith)

-- A list of bytes that fills 2^31 slots, and one of 8-byte words that fills 2^29.
zeros : ℕ → List ℕ
zeros n = replicate n 0

length-zeros : (n : ℕ) → length (zeros n) ≡ n
unfolding zeros
length-zeros n = length-replicate n 0

abbrev full_of : ℕ → ℕ → Collection
full_of n stride = record (pair_at 0) {
  active_count = n;
  capacity = n;
  stride = stride;
  data_buffer = zeros n;
}

full_of-IsValid :
    (n stride : ℕ) → 0 < n → n < 2 ^ 32 → 0 < stride → stride < 2 ^ 32 → IsValid (full_of n stride)
full_of-IsValid n stride p q r s = omega (arith, length-zeros n)

add_at_half_range_example :
    ((add granting (full_of (2 ^ 31) 1) 5).capacity ≡ 0)
    × (get (add granting (full_of (2 ^ 31) 1) 5) 3 ≡ 0)
add_at_half_range_example =
    add_at_half_range
      (full_of-IsValid (2 ^ 31) 1 (omega arith) (omega arith) (omega arith) (omega arith)) refl
      granting (λ _. 0xaa) 5 3 refl refl

add_at_four_gigabytes_example : get (add granting (full_of (2 ^ 29) 8) 5) 3 ≡ 0xaa
unfolding read_slot_at
add_at_four_gigabytes_example =
    add_at_four_gigabytes
      (full_of-IsValid (2 ^ 29) 8 (omega arith) (omega arith) (omega arith) (omega arith)) refl
      granting (λ _. 0xaa) 5 3 (omega arith) refl refl (omega arith)
