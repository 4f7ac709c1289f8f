-- ===== src/Struct/Queue.antt =====
-- src/struct/queue.c: `Queue`, the circular buffer of deque.c used from the back to the front. The
-- static functions and the bodies are those of deque.c, under the names of the queue. A handle is
-- the header that it points at; the branches on a null handle are not modelled.
pub mod Order
mod Getters
mod Tests
use vexspoke.Base.{ℕ, Option, Bool}
use vexspoke.Struct.Exhaustion.{Exhaustion}
use vexspoke.Struct.Arena.{Arena}
use vexspoke.Struct.Collection.{Collection}
use vexspoke.Struct.Instant
use vexspoke.Struct.Deque

-- instant, with `ID_QUEUE`.
unfoldable pub instant : Arena → Exhaustion → ℕ → ℕ → ℕ → Option Collection × Exhaustion
unfolding Instant.instant
instant = Instant.instant 0x27

-- Queue_2.
unfoldable pub create : Arena → Exhaustion → ℕ → ℕ → Option Collection × Exhaustion
unfolding instant
create arena account element_class capacity = instant arena account element_class capacity 0

-- ensureCapacity, which is that of deque.c.
unfoldable pub ensure_capacity : Arena → Collection → Bool × Collection
ensure_capacity = Deque.ensure_capacity

-- Queue_push: what Deque_addLast does.
unfoldable pub push : Arena → Collection → ℕ → Collection
push = Deque.add_last

-- Queue_pop: what Deque_removeFirst does.
unfoldable pub pop : Collection → ℕ × Collection
pop = Deque.remove_first

-- Queue_peek: what Deque_peekFirst does.
unfoldable pub peek : Collection → ℕ
peek = Deque.peek_first

-- Queue_slot: what Deque_slot does.
unfoldable pub slot : Collection → ℕ → Option ℕ
slot = Deque.slot
