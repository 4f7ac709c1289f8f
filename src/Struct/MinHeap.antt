-- ===== src/Struct/MinHeap.antt =====
-- src/struct/minheap.c: `MinHeap`, a binary heap with its root at index 1. The arrays of items and of
-- priorities, which are read and written together, are one list of entries. The type of the priorities
-- and its two comparisons are parameters: the C code has `float`.
pub mod Order
pub mod Up
pub mod Down
pub mod Contents
pub mod Valid
pub mod Push
pub mod Pop
mod Tests
use vexspoke.Base.{
  ℕ, zero, suc, ◌+◌, ◌-◌, ◌*◌, ◌/◌, ◌^◌, List, [], ◌∷◌, Bool, true, false, not, ◌&&◌, ltb, leb,
  ◌==◌, if◌then◌else◌, length, get_or, set as set_elem, Option, none, some, u32,
}
use vexspoke.Struct.Exhaustion.{Exhaustion, report}

pub record Entry (P : Type 0) : Type 0 where
  pub item : ℕ
  pub priority : P

pub record MinHeap (P : Type 0) : Type 0 where
  pub size : ℕ
  pub capacity : ℕ
  pub entries : List (Entry P)
  pub exhaustion : Exhaustion

-- MinHeap_1, where `block` is the room for one entry more than the capacity, if the arena gives it. A
-- capacity that is negative as an `int32_t` admits no entry, as 0 does.
pub create : {P : Type 0} → ℕ → Option (List (Entry P)) → Option (MinHeap P)
create capacity none = none
create capacity (some block) = some (record {
  size = 0;
  capacity = if ltb (u32 capacity) (2 ^ 31) then u32 capacity else 0;
  entries = block;
  exhaustion = record { count = 0; reported = false };
})

module _ {P : Type 0} (blank : Entry P) (le lt : P → P → Bool) where
  abbrev pub entry_at : List (Entry P) → ℕ → Entry P
  entry_at xs i = get_or xs i blank

  -- The loop of sift_up: the hole at an index, and the entry that is to fill it. The index is fuel
  -- enough.
  pub fill_up : ℕ → ℕ → Entry P → List (Entry P) → List (Entry P)
  fill_up zero index e xs = set_elem xs index e
  fill_up (suc fuel) index e xs =
      elim (ltb 1 index && not (le (entry_at xs (index / 2)).priority e.priority)) [
        | false ↦ set_elem xs index e
        | true ↦ fill_up fuel (index / 2) e (set_elem xs index (entry_at xs (index / 2)))
      ]

  -- sift_up.
  abbrev pub sift_up : ℕ → List (Entry P) → List (Entry P)
  sift_up index xs = fill_up index index (entry_at xs index) xs

  -- The child of an index that sift_down compares with.
  pub best_child : ℕ → ℕ → List (Entry P) → ℕ
  best_child size index xs =
      if leb (index * 2 + 1) size
        && lt (entry_at xs (index * 2 + 1)).priority (entry_at xs (index * 2)).priority
      then index * 2 + 1
      else index * 2

  -- The loop of sift_down. The size is fuel enough.
  pub fill_down : ℕ → ℕ → ℕ → Entry P → List (Entry P) → List (Entry P)
  fill_down zero size index e xs = set_elem xs index e
  fill_down (suc fuel) size index e xs =
      elim (leb index (size / 2)
        && not (le e.priority (entry_at xs (best_child size index xs)).priority)) [
          | false ↦ set_elem xs index e
          | true ↦
              let best = best_child size index xs in
              fill_down fuel size best e (set_elem xs index (entry_at xs best))
        ]

  -- sift_down.
  abbrev pub sift_down : ℕ → ℕ → List (Entry P) → List (Entry P)
  sift_down size index xs = fill_down size size index (entry_at xs index) xs

  -- MinHeap_push: the heap, and whether the entry has room.
  pub push : ℕ → P → MinHeap P → MinHeap P × Bool
  push item priority heap =
      let index = heap.size + 1 in
      let placed = set_elem heap.entries index (record { item = item; priority = priority }) in
      if leb heap.capacity heap.size
      then (record heap { exhaustion = (report heap.exhaustion).0 }, false)
      else (record heap { size = index; entries = sift_up index placed }, true)

  -- MinHeap_popItem: the item, which is 0 on an empty heap, and the heap.
  pub pop_item : MinHeap P → ℕ × MinHeap P
  pop_item heap =
      let moved = set_elem heap.entries 1 (entry_at heap.entries heap.size) in
      let size = heap.size - 1 in
      if heap.size == 0 then (0, heap) else (
        (entry_at heap.entries 1).item,
        record heap { size = size; entries = if size == 0 then moved else sift_down size 1 moved },
      )

  -- MinHeap_peekItem.
  abbrev pub peek_item : MinHeap P → ℕ
  peek_item heap = if heap.size == 0 then 0 else (entry_at heap.entries 1).item
