-- ===== src/Atomic/Ring.antt =====
-- src/atomic/ring.c: `RingBuffer`. Each operation holds the ring's SpinLock from its first access of
-- the ring to its last, so it is one step. An item is one value; null handles and items are not
-- modelled. The counters are of 64 bits and wrap.
pub mod Slots
pub mod Refine
mod Tests
use Prim.Native.Nat.{bit_and, bit_or}
use vexspoke.Base.{
  ℕ, ◌+◌, ◌-◌, ◌*◌, ◌/◌, ◌%◌, ◌^◌, List, [], Bool, true, false, ◌==◌, leb, if◌then◌else◌, u64,
  get_or, set as set_elem, replicate, Option, none, some,
}

pub record RingBuffer : Type 0 where
  pub capacity : ℕ
  pub mask : ℕ
  pub elem_size : ℕ
  pub head : ℕ
  pub tail : ℕ
  pub slots : List ℕ

-- nextPow2.
abbrev pub next_pow2 : ℕ → ℕ
next_pow2 value =
    let v = value - 1 in
    let v1 = bit_or v (v / 2 ^ 1) in
    let v2 = bit_or v1 (v1 / 2 ^ 2) in
    let v4 = bit_or v2 (v2 / 2 ^ 4) in
    let v8 = bit_or v4 (v4 / 2 ^ 8) in
    let v16 = bit_or v8 (v8 / 2 ^ 16) in
    let v32 = bit_or v16 (v16 / 2 ^ 32) in if value == 0 then 1 else u64 (v32 + 1)

-- RingBuffer_0.
abbrev pub empty_ring : RingBuffer
empty_ring = record { capacity = 0; mask = 0; elem_size = 0; head = 0; tail = 0; slots = [] }

-- RingBuffer_2, where `granted` says whether calloc returns memory.
abbrev pub create_ring : Bool → ℕ → ℕ → RingBuffer
create_ring granted elem_size capacity =
    let cap = next_pow2 capacity in
    if elem_size == 0
    then empty_ring
    else if granted
    then record {
      capacity = cap;
      mask = u64 (cap + 2 ^ 64 - 1);
      elem_size = elem_size;
      head = 0;
      tail = 0;
      slots = replicate cap 0;
    }
    else empty_ring

-- RingBuffer_push.
pub push : RingBuffer → ℕ → Bool × RingBuffer
push ring item =
    if leb ring.capacity (u64 (ring.tail + 2 ^ 64 - ring.head)) then (false, ring) else (
      true,
      record ring {
        slots = set_elem ring.slots (bit_and ring.tail ring.mask) item;
        tail = u64 (ring.tail + 1);
      },
    )

-- RingBuffer_pop, with the item that it stores.
pub pop : RingBuffer → Option ℕ × RingBuffer
pop ring = if ring.head == ring.tail then (none, ring) else (
  some (get_or ring.slots (bit_and ring.head ring.mask) 0),
  record ring { head = u64 (ring.head + 1) },
)
