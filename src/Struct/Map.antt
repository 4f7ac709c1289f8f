-- ===== src/Struct/Map.antt =====
-- src/struct/map.c: `Map`, a hash table with open addressing. A slot is its state, with the key, the
-- value and the hash where it is occupied: no other slot's words are read. A handle is the struct
-- that it points at; the branches on a null handle are not modelled. The headers of memory blocks,
-- and whether memory is granted, are parameters. A loop has fuel, and the result of a call that
-- needs more is `none`.
pub mod Mask
pub mod Probe
pub mod Lookup
mod Tests
use Prim.Native.Nat.{bit_and, bit_or}
use vexspoke.Base.{
  ℕ, zero, suc, ◌+◌, ◌-◌, ◌*◌, ◌/◌, ◌^◌, Option, none, some, ◌>>=◌, List, [], ◌∷◌, Bool, true,
  false, not, ◌&&◌, ◌==◌, ltb, leb, if◌then◌else◌, length, get_or, set as set_elem, replicate, u32,
  u64,
}
use vexspoke.Struct.Exhaustion.{Exhaustion, report}
use vexspoke.Util.Hash.{fnv1a64, murmur3_mix64}

-- ID_STRING and ID_LIST.
abbrev pub id_string : ℕ
id_string = 0x11

abbrev pub id_list : ℕ
id_list = 0x1c

-- What Memory_type, and Memory_length with the bytes, say of an address.
pub record Memory : Type 0 where
  pub type_of : ℕ → ℕ
  pub bytes_of : ℕ → List ℕ

pub record Entry : Type 0 where
  pub key : ℕ
  pub value : ℕ
  pub hash : ℕ

-- STATE_EMPTY, STATE_OCCUPIED and STATE_DELETED.
pub data Slot : Type 0 where
  empty deleted : Slot
  occupied : Entry → Slot

pub record Map : Type 0 where
  pub slots : List Slot
  pub capacity : ℕ
  pub active_count : ℕ
  pub key_class : ℕ
  pub value_class : ℕ
  pub exhaustion : Exhaustion

-- isReferenceClass.
abbrev pub is_reference_class : ℕ → Bool
is_reference_class class_id = elim (class_id == id_string) [
  | true ↦ true
  | false ↦ leb id_list class_id
]

abbrev pub equal_bytes : List ℕ → List ℕ → Bool
equal_bytes [] [] = true
equal_bytes [] (y ∷ ys) = false
equal_bytes (x ∷ xs) [] = false
equal_bytes (x ∷ xs) (y ∷ ys) = x == y && equal_bytes xs ys

-- The step of a probe.
abbrev pub next_slot : ℕ → ℕ → ℕ
next_slot capacity idx = bit_and (idx + 1) (capacity - 1)

-- highestOneBit: the least power of two that is not less.
abbrev pub highest_one_bit : ℕ → ℕ
highest_one_bit n =
    let v = n - 1 in
    let v1 = bit_or v (v / 2 ^ 1) in
    let v2 = bit_or v1 (v1 / 2 ^ 2) in
    let v4 = bit_or v2 (v2 / 2 ^ 4) in
    let v8 = bit_or v4 (v4 / 2 ^ 8) in
    let v16 = bit_or v8 (v8 / 2 ^ 16) in
    let v32 = bit_or v16 (v16 / 2 ^ 32) in if leb n 1 then 1 else u64 (v32 + 1)

-- The number of slots that Map_3 asks for.
abbrev pub first_capacity : ℕ → ℕ
first_capacity capacity =
    let cap = if capacity == 0 then 16 else highest_one_bit capacity in if ltb cap 4 then 4 else cap

-- Map_3, where memory is granted.
pub create : ℕ → ℕ → ℕ → Map
create key_class value_class capacity = record {
  slots = replicate (first_capacity capacity) empty;
  capacity = u32 (first_capacity capacity);
  active_count = 0;
  key_class = key_class;
  value_class = value_class;
  exhaustion = record { count = 0; reported = false };
}

module _ (memory : Memory) where
  -- computeHash.
  pub compute_hash : ℕ → ℕ → ℕ
  compute_hash key_class key =
      let inspected = not (memory.type_of key == 0) && ltb 0 (length (memory.bytes_of key)) in
      if key == 0
      then 0
      else if is_reference_class key_class && leb 4096 key && inspected
      then fnv1a64 (memory.bytes_of key)
      else murmur3_mix64 key

  -- keysEqual.
  pub keys_equal : ℕ → ℕ → ℕ → Bool
  keys_equal key_class k1 k2 = elim (k1 == k2) [
    | true ↦ true
    | false ↦
        if k1 == 0
        then false
        else if k2 == 0
        then false
        else if is_reference_class key_class
            && leb 4096 k1
            && leb 4096 k2
            && not (memory.type_of k1 == 0)
            && memory.type_of k1 == memory.type_of k2
        then equal_bytes (memory.bytes_of k1) (memory.bytes_of k2)
        else false
  ]

  -- The test that each probe makes of an occupied slot.
  abbrev pub matches_entry : ℕ → ℕ → ℕ → Entry → Bool
  matches_entry key_class hash key e = e.hash == hash && keys_equal key_class e.key key

  module _ (key_class hash key capacity : ℕ) where
    abbrev pub first_of : Option ℕ → ℕ → ℕ
    first_of none idx = idx
    first_of (some deleted_at) idx = deleted_at

    -- The loop of Map_put, with fuel: whether the entry is new, and the slots.
    unfoldable pub put_loop : ℕ → List Slot → ℕ → Option ℕ → ℕ → Option (Bool × List Slot)
    put_loop zero slots value first idx = none
    put_loop (suc fuel) slots value first idx = elim (get_or slots idx empty) [
      | empty ↦
          let entry : Entry = record { key = key; value = value; hash = hash } in
          some (true, set_elem slots (first_of first idx) (occupied entry))
      | deleted ↦ put_loop fuel slots value (some (first_of first idx)) (next_slot capacity idx)
      | occupied e ↦ elim (matches_entry key_class hash key e) [
        | true ↦ some (false, set_elem slots idx (occupied (record e { value = value })))
        | false ↦ put_loop fuel slots value first (next_slot capacity idx)
      ]
    ]

    -- The loop of Map_get, Map_containsKey and Map_remove: the place and the entry it ends at.
    unfoldable pub find_loop : ℕ → List Slot → ℕ → Option (ℕ × Entry)
    find_loop zero slots idx = none
    find_loop (suc rounds) slots idx = elim (get_or slots idx empty) [
      | empty ↦ none
      | deleted ↦ find_loop rounds slots (next_slot capacity idx)
      | occupied e ↦ elim (matches_entry key_class hash key e) [
        | true ↦ some (idx, e)
        | false ↦ find_loop rounds slots (next_slot capacity idx)
      ]
    ]

  -- Where the probe for a key begins.
  abbrev pub home : Map → ℕ → ℕ
  home map key = bit_and (compute_hash map.key_class key) (map.capacity - 1)

  abbrev pub find : Map → ℕ → Option (ℕ × Entry)
  find map key =
      find_loop map.key_class (compute_hash map.key_class key) key map.capacity map.capacity
        map.slots (home map key)

  -- Map_get.
  pub get : Map → ℕ → ℕ
  get map key = elim (find map key) [ none ↦ 0 | some (idx, e) ↦ e.value ]

  -- Map_containsKey.
  pub contains_key : Map → ℕ → Bool
  contains_key map key = elim (find map key) [ none ↦ false | some (idx, e) ↦ true ]

  -- Map_remove: the old value and the map.
  pub remove : Map → ℕ → ℕ × Map
  remove map key = elim (find map key) [
    | none ↦ (0, map)
    | some (idx, e) ↦ (
      e.value,
      record map {
        slots = set_elem map.slots idx deleted;
        active_count = u32 (map.active_count + 2 ^ 32 - 1);
      },
    )
  ]

  -- The inner loop of rehash, with fuel: the first slot from a place on that is not occupied.
  pub free_slot : ℕ → ℕ → List Slot → ℕ → Option ℕ
  free_slot zero capacity slots idx = none
  free_slot (suc fuel) capacity slots idx = elim (get_or slots idx empty) [
    | empty ↦ some idx
    | deleted ↦ some idx
    | occupied e ↦ free_slot fuel capacity slots (next_slot capacity idx)
  ]

  -- The outer loop of rehash, over the old slots.
  pub move_all : ℕ → ℕ → List Slot → List Slot → Option (List Slot)
  move_all fuel capacity [] slots = some slots
  move_all fuel capacity (empty ∷ old) slots = move_all fuel capacity old slots
  move_all fuel capacity (deleted ∷ old) slots = move_all fuel capacity old slots
  move_all fuel capacity (occupied e ∷ old) slots =
      free_slot fuel capacity slots (bit_and e.hash (capacity - 1)) >>= λ idx.
      move_all fuel capacity old (set_elem slots idx (occupied e))

  -- rehash, where `granted` says whether a block of so many bytes is allocated.
  pub rehash : (ℕ → Bool) → ℕ → Map → ℕ → Option Map
  rehash granted fuel map new_cap = elim (granted (new_cap * 32)) [
    | false ↦ some (record map { exhaustion = (report map.exhaustion).0 })
    | true ↦ move_all fuel new_cap map.slots (replicate new_cap empty) >>= λ slots.
        some (record map { slots = slots; capacity = u32 new_cap })
  ]

  -- The part of Map_put behind the growth.
  pub put_here : ℕ → Map → ℕ → ℕ → Option Map
  put_here fuel map key value =
      put_loop map.key_class (compute_hash map.key_class key) key map.capacity fuel map.slots value
        none (home map key)
      >>= λ done. some (record map {
        slots = done.1;
        active_count = if done.0 then u32 (map.active_count + 1) else map.active_count;
      })

  -- Map_put.
  pub put : (ℕ → Bool) → ℕ → Map → ℕ → ℕ → Option Map
  put granted fuel map key value =
      (if leb (map.capacity - map.capacity / 4) map.active_count
        then rehash granted fuel map (u32 (map.capacity * 2))
        else some map)
      >>= λ grown. put_here fuel grown key value
