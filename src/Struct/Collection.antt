-- ===== src/Struct/Collection.antt =====
-- src/struct/collection.c: the header that every container embeds, and its bounded slot access.
-- A slot is the number that its `stride` bytes spell in little-endian order, so that a copy of
-- bytes is a copy of slots; a read or write of a C integer touches the low bits of a slot.
pub mod Bytes
pub mod Getters
pub mod Slots
pub mod Bounds
use vexspoke.Base.{
  ℕ, ◌+◌, ◌-◌, ◌*◌, ◌%◌, ◌^◌, List, Bool, ◌==◌, leb, if◌then◌else◌, get_or, set as set_elem,
}
use vexspoke.Struct.Exhaustion.{Exhaustion, report}

-- `Collection`. `data` lists the slots of the buffer.
pub record Collection : Type 0 where
  pub type_id : ℕ
  pub active_count : ℕ
  pub element_class : ℕ
  pub stride : ℕ
  pub capacity : ℕ
  pub head : ℕ
  pub data_buffer : List ℕ
  pub exhaustion : Exhaustion

-- 2 to the number of bits of the integer type that a stride selects.
abbrev pub word_mod : ℕ → ℕ
word_mod stride =
    if stride == 1
    then 2 ^ 8
    else if stride == 2
    then 2 ^ 16
    else if stride == 4
    then 2 ^ 32
    else 2 ^ 64

-- readSlotAt.
unfoldable pub read_slot_at : ℕ → ℕ → ℕ
read_slot_at slot stride = slot % word_mod stride

-- writeSlotAt, with the slot that it leaves.
unfoldable pub write_slot_at : ℕ → ℕ → ℕ → ℕ
write_slot_at slot stride value = slot - slot % word_mod stride + value % word_mod stride

-- Collection_size.
abbrev pub size : Collection → ℕ
size c = c.active_count

-- Collection_isEmpty.
abbrev pub is_empty : Collection → Bool
is_empty c = size c == 0

-- Collection_readSlot: an index past the capacity, or whose offset overflows, reads 0.
unfoldable pub read_slot : Collection → ℕ → ℕ
read_slot c index =
    if leb c.capacity index
    then 0
    else if leb (2 ^ 64) (index * c.stride)
    then 0
    else read_slot_at (get_or c.data_buffer index 0) c.stride

-- Collection_writeSlot: such an index writes nothing.
unfoldable pub write_slot : Collection → ℕ → ℕ → Collection
write_slot c index value =
    if leb c.capacity index then c else if leb (2 ^ 64) (index * c.stride) then c else record c {
      data_buffer =
          set_elem c.data_buffer index
            (write_slot_at (get_or c.data_buffer index 0) c.stride value);
    }

-- Collection_reportExhaustion.
unfoldable pub report_exhaustion : Collection → Collection
report_exhaustion c = record c { exhaustion = (report c.exhaustion).0 }
