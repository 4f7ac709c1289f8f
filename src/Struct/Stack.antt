-- ===== src/Struct/Stack.antt =====
-- src/struct/stack.c: `Stack`, a growing array used at its end. A handle is the header that it
-- points at; the branches on a null handle are not modelled.
pub mod Order
mod Getters
mod Tests
use vexspoke.Base.{
  ℕ, ◌+◌, ◌-◌, ◌*◌, ◌^◌, Option, none, some, Bool, true, false, ◌==◌, ltb, leb, if◌then◌else◌, u64,
}
use vexspoke.Struct.Exhaustion.{Exhaustion}
use vexspoke.Struct.Arena.{Arena}
use vexspoke.Struct.Collection.{Collection, read_slot}
use vexspoke.Struct.Instant
use vexspoke.Struct.Instant.{default_capacity}
use vexspoke.Struct.ArrayList.{append, regrow}

-- instant, with `ID_STACK`.
unfoldable pub instant : Arena → Exhaustion → ℕ → ℕ → ℕ → Option Collection × Exhaustion
unfolding Instant.instant
instant = Instant.instant 0x1f

-- Stack_2.
unfoldable pub create : Arena → Exhaustion → ℕ → ℕ → Option Collection × Exhaustion
unfolding instant
create arena account element_class capacity = instant arena account element_class capacity 0

-- `TryValue`, with the codes that Stack_pushTry returns for a stack that is not null.
pub data TryValue : Type 0 where
  ok : ℕ → TryValue
  overflow no_memory : TryValue

-- The new capacity; the product has the 64 bits of `size_t`.
abbrev pub grown_capacity : Collection → ℕ
grown_capacity c = if c.capacity == 0 then default_capacity else u64 (c.capacity * 2)

-- The end of Stack_pushTry, for a stack with room.
pub push_word : Collection → ℕ → TryValue × Collection
push_word c value = (ok value, append c value)

-- What follows the growth, which copies and writes back what `regrow` of list.c does.
pub after_growth : Bool × Collection → ℕ → TryValue × Collection
unfolding push_word
after_growth (true, c) value = push_word c value
after_growth (false, c) value = (no_memory, c)

-- Stack_pushTry.
unfoldable pub push_try : Arena → Collection → ℕ → TryValue × Collection
unfolding after_growth
push_try arena c value =
    if leb c.capacity c.active_count
    then (if ltb (2 ^ 32 - 1) (grown_capacity c)
        then (overflow, c)
        else after_growth (regrow arena c (grown_capacity c)) value)
    else push_word c value

-- Stack_push.
unfoldable pub push : Arena → Collection → ℕ → Collection
unfolding push_try
push arena c value = (push_try arena c value).1

-- Stack_pop.
unfoldable pub pop : Collection → ℕ × Collection
pop c =
    if c.active_count == 0
    then (0, c)
    else let c' : Collection = record c { active_count = c.active_count - 1 } in
      (read_slot c' c'.active_count, c')

-- Stack_peek.
unfoldable pub peek : Collection → ℕ
peek c = if c.active_count == 0 then 0 else read_slot c (c.active_count - 1)

-- Stack_slot: the byte offset of a slot in the buffer.
pub slot : Collection → ℕ → Option ℕ
slot c index = if leb c.active_count index then none else some (u64 (index * c.stride))
