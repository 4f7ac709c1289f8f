-- ===== src/Struct/Deque.antt =====
-- src/struct/deque.c: `Deque`, a circular buffer with two ends that doubles when it is full. A
-- handle is the header that it points at; the branches on a null handle are not modelled.
pub mod Cells
pub mod Growth
pub mod Refine
mod Getters
mod Tests
use vexspoke.Base.{
  ℕ, ◌+◌, ◌-◌, ◌*◌, ◌%◌, ◌^◌, Option, none, some, List, ◌++◌, Bool, true, false, ◌==◌, ltb, leb,
  if◌then◌else◌, u32, u64, get_or, set as set_elem, take, drop, tabulate,
}
use vexspoke.Struct.Exhaustion.{Exhaustion}
use vexspoke.Struct.Arena.{Arena, buffer}
use vexspoke.Struct.Collection.{Collection, read_slot, write_slot, write_slot_at, report_exhaustion}
use vexspoke.Struct.Instant

-- instant, with `ID_DEQUE`.
unfoldable pub instant : Arena → Exhaustion → ℕ → ℕ → ℕ → Option Collection × Exhaustion
unfolding Instant.instant
instant = Instant.instant 0x20

-- Deque_2.
unfoldable pub create : Arena → Exhaustion → ℕ → ℕ → Option Collection × Exhaustion
unfolding instant
create arena account element_class capacity = instant arena account element_class capacity 0

-- The live slots in their logical order, as the memcpy calls of ensureCapacity lay them out.
pub unrolled : Collection → List ℕ
unrolled c =
    if c.active_count == 0
    then take 0 c.data_buffer
    else if c.head == 0
    then take c.active_count c.data_buffer
    else take (c.capacity - c.head) (drop c.head c.data_buffer) ++ take c.head c.data_buffer

-- How many slots those calls write.
pub unrolled_count : Collection → ℕ
unrolled_count c =
    if c.active_count == 0 then 0 else if c.head == 0 then c.active_count else c.capacity

-- ensureCapacity. The new capacity is a product of 32-bit integers.
unfoldable pub ensure_capacity : Arena → Collection → Bool × Collection
unfolding unrolled unrolled_count
ensure_capacity arena c =
    if ltb c.active_count c.capacity
    then (true, c)
    else elim (arena.alloc (buffer c.element_class (u64 (u32 (c.capacity * 2) * c.stride)))) [
      | none ↦ (false, report_exhaustion c)
      | some block ↦ (
        true,
        record c {
          data_buffer =
              unrolled c ++ drop (unrolled_count c) (tabulate block 0 (u32 (c.capacity * 2)));
          capacity = u32 (c.capacity * 2);
          head = 0;
        },
      )
    ]

-- The slot before the head; the arithmetic is that of 32-bit integers.
abbrev pub slot_before : Collection → ℕ
slot_before c = u32 (u32 (c.head + 2 ^ 32 - 1) + c.capacity) % c.capacity

-- The end of Deque_addFirst, which writes with no test of the bounds.
unfoldable pub put_first : Collection → ℕ → Collection
put_first c value = record c {
  data_buffer =
      set_elem c.data_buffer (slot_before c)
        (write_slot_at (get_or c.data_buffer (slot_before c) 0) c.stride value);
  head = u32 (slot_before c);
  active_count = u32 (c.active_count + 1);
}

-- Deque_addFirst.
unfoldable pub add_first : Arena → Collection → ℕ → Collection
add_first arena c value =
    let (ok, c') = ensure_capacity arena c in if ok then put_first c' value else c'

-- The slot behind the last one.
abbrev pub slot_after : Collection → ℕ
slot_after c = u32 (c.head + c.active_count) % c.capacity

-- The end of Deque_addLast.
unfoldable pub put_last : Collection → ℕ → Collection
put_last c value =
    let c' = write_slot c (slot_after c) value in
    record c' { active_count = u32 (c'.active_count + 1) }

-- Deque_addLast.
unfoldable pub add_last : Arena → Collection → ℕ → Collection
add_last arena c value =
    let (ok, c') = ensure_capacity arena c in if ok then put_last c' value else c'

-- Deque_removeFirst.
unfoldable pub remove_first : Collection → ℕ × Collection
remove_first c = if c.active_count == 0 then (0, c) else (
  read_slot c c.head,
  record c { head = u32 (c.head + 1) % c.capacity; active_count = c.active_count - 1 },
)

-- The last slot.
abbrev pub slot_last : Collection → ℕ
slot_last c = u32 (u32 (c.head + c.active_count) + 2 ^ 32 - 1) % c.capacity

-- Deque_removeLast.
unfoldable pub remove_last : Collection → ℕ × Collection
remove_last c =
    if c.active_count == 0
    then (0, c)
    else (read_slot c (slot_last c), record c { active_count = c.active_count - 1 })

-- Deque_peekFirst.
unfoldable pub peek_first : Collection → ℕ
peek_first c = if c.active_count == 0 then 0 else read_slot c c.head

-- Deque_peekLast.
unfoldable pub peek_last : Collection → ℕ
peek_last c = if c.active_count == 0 then 0 else read_slot c (slot_last c)

-- Deque_get. The index has the 64 bits of `size_t`, and so has the sum.
unfoldable pub get : Collection → ℕ → ℕ
get c index =
    if leb c.active_count index then 0 else read_slot c (u64 (c.head + index) % c.capacity)

-- Deque_slot: the byte offset of a slot in the buffer.
pub slot : Collection → ℕ → Option ℕ
slot c index =
    if leb c.active_count index
    then none
    else some (u64 (u64 (c.head + index) % c.capacity * c.stride))
