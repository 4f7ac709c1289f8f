-- ===== src/Struct/Set/Tests.antt =====
-- Runs of a set with four slots.
use vexspoke.Base.{ℕ, ◌≡◌, refl, some, [], Bool, true, false, arith, replicate}
use vexspoke.Struct.Map.{Memory, empty}
use vexspoke.Struct.Set.{Set, create, add, contains}
use vexspoke.Struct.Set.Adding.{contains-add_element}

abbrev no_headers : Memory
no_headers = record { type_of = λ address. 0; bytes_of = λ address. [] }

abbrev all_granted : ℕ → Bool
all_granted bytes = true

abbrev four_slots : Set
four_slots = record {
  slots = replicate 4 empty;
  capacity = 4;
  active_count = 0;
  element_class = 0;
  exhaustion = record { count = 0; reported = false };
}

create_four : create 0 3 ≡ four_slots
unfolding create
create_four = refl

contains-add_element_example :
    (r : Bool × Set) × (add no_headers all_granted 4 four_slots 7 ≡ some r)
    × (contains no_headers r.1 7 ≡ true)
contains-add_element_example =
    contains-add_element no_headers all_granted 2 four_slots 7 3 refl refl (omega arith)
      (omega arith) refl
