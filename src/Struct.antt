-- ===== src/Struct.antt =====
-- src/struct: the containers, over a shared header and a shared account of refused allocations.
pub mod Exhaustion
pub mod Collection
pub mod Arena
pub mod Instant
pub mod Sample
pub mod ArrayList
pub mod Stack
pub mod Deque
pub mod Queue
pub mod SparseSet
pub mod MinHeap
pub mod Map
pub mod Set
