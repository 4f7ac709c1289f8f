-- ===== src/Struct/ArrayList.antt =====
-- src/struct/list.c: `List`, an array that doubles when it is full. A handle is the header that
-- it points at; the branches on a null handle are not modelled. A slot pointer is a slot's index.
pub mod Contents
pub mod Refine
pub mod Limits
mod Getters
mod Tests
use vexspoke.Base.{
  ℕ, zero, suc, ◌+◌, ◌-◌, ◌*◌, Option, none, some, List, ◌++◌, Bool, true, false, ◌&&◌, ◌==◌, ltb,
  leb, if◌then◌else◌, u32, u64, get_or, set as set_elem, take, drop, tabulate, length, replicate,
}
use vexspoke.Struct.Exhaustion.{Exhaustion}
use vexspoke.Struct.Arena.{Arena, buffer}
use vexspoke.Struct.Collection.{Collection, read_slot, write_slot, report_exhaustion}
use vexspoke.Struct.Collection.Bytes.{copy_bytes, same_bytes, zero_bytes}
use vexspoke.Struct.Instant
use vexspoke.Struct.Instant.{default_capacity}

-- instant, with `ID_LIST`.
unfoldable pub instant : Arena → Exhaustion → ℕ → ℕ → ℕ → Option Collection × Exhaustion
unfolding Instant.instant
instant = Instant.instant 0x1c

-- List_2.
unfoldable pub create : Arena → Exhaustion → ℕ → ℕ → Option Collection × Exhaustion
unfolding instant
create arena account element_class capacity = instant arena account element_class capacity 0

-- List_2Count.
unfoldable pub create_count : Arena → Exhaustion → ℕ → ℕ → Option Collection × Exhaustion
unfolding instant
create_count arena account element_class count = instant arena account element_class count count

-- The loop of bufferGrow, `while (newCap < needed) newCap *= 2`; `none` when the fuel runs out.
pub double_until : ℕ → ℕ → ℕ → Option ℕ
double_until zero cap needed = none
double_until (suc fuel) cap needed =
    let rest = double_until fuel (u64 (cap * 2)) needed in if ltb cap needed then rest else some cap

-- One doubling is enough wherever bufferGrow is called: `needed` is at most `capacity + 1`.
abbrev grow_fuel : ℕ
grow_fuel = 65

-- The second half of bufferGrow, for the capacity that its loop found. The number of bytes that
-- is copied is a product of 32-bit integers, and the capacity that is written back is cut to 32
-- bits; the buffer has the capacity that was asked for.
unfoldable pub regrow : Arena → Collection → ℕ → Bool × Collection
regrow arena c cap = elim (arena.alloc (buffer c.element_class (u64 (cap * c.stride)))) [
  | none ↦ (false, report_exhaustion c)
  | some block ↦ (
    true,
    record c {
      data_buffer =
          copy_bytes c.stride (u32 (c.active_count * c.stride)) c.data_buffer
            (tabulate block 0 cap);
      capacity = u32 cap;
    },
  )
]

-- bufferGrow.
pub buffer_grow : Arena → Collection → ℕ → Bool × Collection
unfolding double_until regrow
buffer_grow arena c needed =
    let start = if c.capacity == 0 then default_capacity else c.capacity in
    elim (double_until grow_fuel start needed) [ none ↦ (false, c) | some cap ↦ regrow arena c cap ]

-- The end of List_add.
pub append : Collection → ℕ → Collection
append c value =
    let c' = write_slot c c.active_count value in
    record c' { active_count = u32 (c'.active_count + 1) }

-- List_add.
unfoldable pub add : Arena → Collection → ℕ → Collection
unfolding buffer_grow append
add arena c value =
    if leb c.capacity c.active_count
    then (let (ok, c') = buffer_grow arena c (u32 (c.active_count + 1)) in
        if ok then append c' value else c')
    else append c value

-- The end of List_addSlot: the fresh slot is zeroed, and its byte offset in the buffer is the
-- result. Both factors of the offset have 32 bits.
pub append_slot : Collection → Option ℕ × Collection
append_slot c =
    let offset = u32 (c.active_count * c.stride) in
    (
      some offset,
      record c {
        data_buffer = zero_bytes c.stride offset c.stride c.data_buffer;
        active_count = u32 (c.active_count + 1);
      },
    )

-- List_addSlot.
pub add_slot : Arena → Collection → Option ℕ × Collection
unfolding buffer_grow append_slot
add_slot arena c =
    if leb c.capacity c.active_count
    then (let (ok, c') = buffer_grow arena c (u32 (c.active_count + 1)) in
        if ok then append_slot c' else (none, c'))
    else append_slot c

-- List_get.
unfoldable pub get : Collection → ℕ → ℕ
get c index = if leb c.active_count index then 0 else read_slot c index

-- List_set.
unfoldable pub set : Collection → ℕ → ℕ → Collection
unfolding write_slot
set c index value = if leb c.active_count index then c else write_slot c index value

-- List_slot: the byte offset of a slot in the buffer.
pub slot : Collection → ℕ → Option ℕ
slot c index = if leb c.active_count index then none else some (u64 (index * c.stride))

-- memmove of `n` slots from index `from` to index `to`, within one buffer.
abbrev pub move_slots : ℕ → ℕ → ℕ → List ℕ → List ℕ
move_slots to from n xs = take to xs ++ (take n (drop from xs) ++ drop (to + n) xs)

-- List_remove.
unfoldable pub remove : Collection → ℕ → Collection
remove c index =
    if leb c.active_count index
    then c
    else let tail = c.active_count - index - 1 in
      let moved =
        if ltb 0 tail then move_slots index (index + 1) tail c.data_buffer else c.data_buffer in
      record c { data_buffer = moved; active_count = c.active_count - 1 }

-- List_compare, of two lists that are not the same object. Both factors of the size have 32 bits.
unfoldable pub compare : Collection → Collection → Bool
compare a b =
    if a.active_count == b.active_count
    then if a.stride == b.stride
      then same_bytes a.stride (u32 (a.active_count * a.stride)) a.data_buffer b.data_buffer
      else false
    else false
