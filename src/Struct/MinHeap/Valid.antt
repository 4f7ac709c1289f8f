-- ===== src/Struct/MinHeap/Valid.antt =====
-- A valid heap: the entries have their slots, and are in the heap order.
use Prim.Native.Nat.{◌<◌}
use vexspoke.Base.{◌≤◌, ◌≡◌, ◌⊎◌, Bool, true, not, length}
use vexspoke.Struct.MinHeap.{Entry, MinHeap}
use vexspoke.Struct.MinHeap.Order.{IsHeap}

module _ {P : Type 0} (blank : Entry P) (le lt : P → P → Bool)
    (total : (a b : P) → (le a b ≡ true) ⊎ (le b a ≡ true))
    (trans : (a b c : P) → le a b ≡ true → le b c ≡ true → le a c ≡ true)
    (strict : (a b : P) → lt a b ≡ not (le b a)) where
  -- The entries have their slots, and are in the heap order.
  pub record IsValid (heap : MinHeap P) : Type 0 where
    pub fits : heap.size ≤ heap.capacity
    pub room : heap.capacity < length heap.entries
    pub ordered : IsHeap blank le lt total trans strict heap.size heap.entries
