-- ===== src/Struct/Instant.antt =====
-- What the constructors of list.c, stack.c, queue.c and deque.c share, and src/oop/stride.c.
use vexspoke.Base.{
  ℕ, ◌*◌, Option, none, some, false, ◌||◌, ◌==◌, ltb, if◌then◌else◌, u32, u64, replicate,
}
use vexspoke.Struct.Exhaustion.{Exhaustion, report_construction}
use vexspoke.Struct.Arena.{Arena, header, buffer}
use vexspoke.Struct.Collection.{Collection}

-- Stride_get, after the mask; the class numbers are those of src/oop/type.h.
pub stride_of : ℕ → ℕ
stride_of id =
    if id == 0x10
    then 1
    else if id == 0x06
    then 2
    else if id == 0x01 || id == 0x05 || id == 0x09 || id == 0x0a || id == 0x0b
    then 4
    else if id == 0x13 || id == 0x14 || id == 0x15
    then 16
    else if id == 0x16
    then 40
    else if id == 0x0e
    then 12
    else if id == 0x29
    then 16
    else if id == 0x2a
    then 36
    else if id == 0x2b
    then 64
    else if id == 0x2c
    then 16
    else if id == 0x23
    then 16
    else 8

-- `DEFAULT_CAPACITY`.
abbrev pub default_capacity : ℕ
default_capacity = 1024

-- The header of a fresh container, with its buffer zeroed.
abbrev pub fresh : ℕ → ℕ → ℕ → ℕ → ℕ → Collection
fresh type_id element_class stride cap count = record {
  type_id = type_id;
  active_count = u32 count;
  element_class = element_class;
  stride = u32 stride;
  capacity = u32 cap;
  head = 0;
  data_buffer = replicate cap 0;
  exhaustion = record { count = 0; reported = false };
}

-- `sizeof` of the header: 8 + 5 * 4 bytes, padded to 32, a pointer, a counter and a padded flag.
abbrev header_bytes : ℕ
header_bytes = 56

-- `instant`, for the class numbered `id`: the container or a refusal, and the process-wide account
-- of refused constructions.
unfoldable pub instant : ℕ → Arena → Exhaustion → ℕ → ℕ → ℕ → Option Collection × Exhaustion
unfolding stride_of report_construction
instant id arena account element_class capacity count =
    let stride = stride_of (arena.class_of element_class) in
    let cap = if ltb capacity default_capacity then default_capacity else capacity in
    elim (arena.alloc (header id header_bytes)) [
      | none ↦ (none, (report_construction account).0)
      | some _ ↦ elim (arena.alloc (buffer element_class (u64 (cap * stride)))) [
        | none ↦ (none, (report_construction account).0)
        | some _ ↦ (some (fresh (arena.full_type id) element_class stride cap count), account)
      ]
    ]
