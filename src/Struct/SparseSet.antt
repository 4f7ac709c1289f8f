-- ===== src/Struct/SparseSet.antt =====
-- src/struct/sparseset.c: `SparseSet`, a dense array of ids with the index of each id beside it. A
-- handle is the struct that it points at; the branches on a null handle are not modelled. The
-- int32_t fields and ids are natural numbers, and -1, for absent, is `none`; a negative id, which
-- every operation refuses as it refuses one past `max_entities`, is not modelled. The component
-- bytes of an entry are one value, and a component pointer is the index of its entry.
pub mod Dense
pub mod Members
mod Tests
use vexspoke.Base.{
  ℕ, zero, suc, ◌+◌, ◌-◌, ◌*◌, Option, none, some, List, Bool, true, false, ◌==◌, ltb, leb,
  if◌then◌else◌, get_or, set as set_elem, tabulate, replicate, u32, u64, ◌^◌,
}
use vexspoke.Struct.Exhaustion.{Exhaustion, report}

pub record SparseSet : Type 0 where
  pub capacity : ℕ
  pub max_entities : ℕ
  pub count : ℕ
  pub stride : ℕ
  pub dense : List ℕ
  pub sparse : List (Option ℕ)
  pub components : List ℕ
  pub exhaustion : Exhaustion

-- The cast (int32_t) of a size. Every test of a field that is negative goes as that of 0 does.
abbrev int_field : ℕ → ℕ
int_field n = let w = u32 n in if ltb w (2 ^ 31) then w else 0

-- SparseSet_3, where memory is granted: `dense` and the components are not initialised.
pub create : (ℕ → ℕ) → (ℕ → ℕ) → ℕ → ℕ → ℕ → SparseSet
create dense_block data_block capacity max_entities stride = record {
  capacity = int_field capacity;
  max_entities = int_field max_entities;
  count = 0;
  stride = int_field stride;
  dense = tabulate dense_block 0 capacity;
  sparse = replicate max_entities none;
  components = if ltb 0 stride then tabulate data_block 0 capacity else replicate 0 0;
  exhaustion = record { count = 0; reported = false };
}

-- What `sparse` says of an id.
abbrev pub index_of : SparseSet → ℕ → Option ℕ
index_of s id = get_or s.sparse id none

-- SparseSet_contains.
pub contains : SparseSet → ℕ → Bool
contains s id =
    if leb s.max_entities id then false else elim (index_of s id) [ none ↦ false | some _ ↦ true ]

-- The component pointer of an entry, `data` itself where there are no components.
abbrev pub component_at : SparseSet → ℕ → Option ℕ
component_at s i = if ltb 0 s.stride then some i else none

-- The end of SparseSet_add: a new entry at the end of `dense`.
pub push_entry : SparseSet → ℕ → Option ℕ × SparseSet
push_entry s id = (
  component_at s s.count,
  record s {
    dense = set_elem s.dense s.count id;
    sparse = set_elem s.sparse id (some s.count);
    count = s.count + 1;
  },
)

-- SparseSet_add.
pub add : SparseSet → ℕ → Option ℕ × SparseSet
add s id = if leb s.max_entities id then (none, s) else elim (index_of s id) [
  | some i ↦ (component_at s i, s)
  | none ↦
      if leb s.capacity s.count
      then (none, record s { exhaustion = (report s.exhaustion).0 })
      else push_entry s id
]

-- The middle of SparseSet_remove: the last entry moves into the hole.
pub fill_hole : SparseSet → ℕ → ℕ → SparseSet
fill_hole s i last_index =
    let last = get_or s.dense last_index 0 in
    record s {
      dense = set_elem s.dense i last;
      sparse = set_elem s.sparse last (some i);
      components =
          if ltb 0 s.stride
          then set_elem s.components i (get_or s.components last_index 0)
          else s.components;
    }

-- SparseSet_remove, for the id at entry `i`.
pub remove_entry : SparseSet → ℕ → ℕ → SparseSet
remove_entry s id i =
    let last_index = s.count - 1 in
    let s' = if i == last_index then s else fill_hole s i last_index in
    record s' { sparse = set_elem s'.sparse id none; count = last_index }

-- SparseSet_remove.
pub remove : SparseSet → ℕ → SparseSet
remove s id =
    if leb s.max_entities id
    then s
    else elim (index_of s id) [ none ↦ s | some i ↦ remove_entry s id i ]

-- What SparseSet_get points at: a component, or the set itself as a sign of presence.
pub data Found : Type 0 where
  absent : Found
  present : Found
  component : ℕ → Found

-- SparseSet_get.
pub get : SparseSet → ℕ → Found
get s id = if leb s.max_entities id then absent else elim (index_of s id) [
  | none ↦ absent
  | some i ↦ if s.stride == 0 then present else component i
]
