-- ===== src/Struct/Set.antt =====
-- src/struct/set.c: `Set`, a hash table with open addressing. Its static functions isReferenceClass,
-- computeHash, elementsEqual and highestOneBit are those of map.c, under these names or others, and
-- are shared here. An entry has no value, and its `value` here is 0. A loop has fuel, and the result
-- of a call that needs more is `none`.
pub mod Adding
mod Tests
use Prim.Native.Nat.{bit_and}
use vexspoke.Base.{
  ℕ, zero, suc, ◌+◌, ◌-◌, ◌*◌, ◌/◌, ◌^◌, Option, none, some, ◌>>=◌, List, Bool, true, false, leb,
  if◌then◌else◌, get_or, set as set_elem, replicate, u32,
}
use vexspoke.Struct.Exhaustion.{Exhaustion, report}
use vexspoke.Struct.Map.{
  Memory, Entry, Slot, empty, deleted, occupied, compute_hash, matches_entry, next_slot,
  first_capacity, first_of, find_loop, move_all,
}

pub record Set : Type 0 where
  pub slots : List Slot
  pub capacity : ℕ
  pub active_count : ℕ
  pub element_class : ℕ
  pub exhaustion : Exhaustion

-- Set_2, where memory is granted.
pub create : ℕ → ℕ → Set
create element_class capacity = record {
  slots = replicate (first_capacity capacity) empty;
  capacity = u32 (first_capacity capacity);
  active_count = 0;
  element_class = element_class;
  exhaustion = record { count = 0; reported = false };
}

module _ (memory : Memory) where
  module _ (element_class hash element capacity : ℕ) where
    -- The loop of Set_add, with fuel: what the call returns, and the slots.
    pub add_loop : ℕ → List Slot → Option ℕ → ℕ → Option (Bool × List Slot)
    add_loop zero slots first idx = none
    add_loop (suc fuel) slots first idx = elim (get_or slots idx empty) [
      | empty ↦
          let entry : Entry = record { key = element; value = 0; hash = hash } in
          let target = first_of memory element_class hash element capacity first idx in
          some (true, set_elem slots target (occupied entry))
      | deleted ↦
          let target = first_of memory element_class hash element capacity first idx in
          add_loop fuel slots (some target) (next_slot capacity idx)
      | occupied e ↦ elim (matches_entry memory element_class hash element e) [
        | true ↦ some (false, slots)
        | false ↦ add_loop fuel slots first (next_slot capacity idx)
      ]
    ]

  -- Where the probe for an element begins.
  abbrev pub home : Set → ℕ → ℕ
  home set element = bit_and (compute_hash memory set.element_class element) (set.capacity - 1)

  abbrev pub find : Set → ℕ → Option (ℕ × Entry)
  find set element =
      find_loop memory set.element_class (compute_hash memory set.element_class element) element
        set.capacity set.capacity set.slots (home set element)

  -- Set_contains.
  pub contains : Set → ℕ → Bool
  contains set element = elim (find set element) [ none ↦ false | some (idx, e) ↦ true ]

  -- Set_remove: whether the element was there, and the set.
  pub remove : Set → ℕ → Bool × Set
  remove set element = elim (find set element) [
    | none ↦ (false, set)
    | some (idx, e) ↦ (
      true,
      record set {
        slots = set_elem set.slots idx deleted;
        active_count = u32 (set.active_count + 2 ^ 32 - 1);
      },
    )
  ]

  -- rehash, where `granted` says whether a block of so many bytes is allocated.
  pub rehash : (ℕ → Bool) → ℕ → Set → ℕ → Option Set
  rehash granted fuel set new_cap = elim (granted (new_cap * 24)) [
    | false ↦ some (record set { exhaustion = (report set.exhaustion).0 })
    | true ↦ move_all memory fuel new_cap set.slots (replicate new_cap empty) >>= λ slots.
        some (record set { slots = slots; capacity = u32 new_cap })
  ]

  -- The part of Set_add behind the growth.
  pub add_here : ℕ → Set → ℕ → Option (Bool × Set)
  add_here fuel set element =
      add_loop set.element_class (compute_hash memory set.element_class element) element
        set.capacity fuel set.slots none (home set element)
      >>= λ done. some (
        done.0,
        record set {
          slots = done.1;
          active_count = if done.0 then u32 (set.active_count + 1) else set.active_count;
        },
      )

  -- Set_add.
  pub add : (ℕ → Bool) → ℕ → Set → ℕ → Option (Bool × Set)
  add granted fuel set element =
      (if leb (set.capacity - set.capacity / 4) set.active_count
        then rehash granted fuel set (u32 (set.capacity * 2))
        else some set)
      >>= λ grown. add_here fuel grown element
