-- ===== src/Struct/ArrayList/Limits.antt =====
-- Comparison, and what happens to a list past the sizes that 32 bits count.
use vexspoke.Base.{
  ℕ, ◌*◌, ◌^◌, ◌<◌, ◌≡◌, ◌↔◌, some, List, arith, true, get_or, get_or-tabulate, get_or-set_ne, take,
  tabulate, u32, u64,
}
use vexspoke.Struct.Arena.{Arena, buffer}
use vexspoke.Struct.Collection.{Collection, read_slot, read_slot_at, write_slot, write_slot_at}
use vexspoke.Struct.Collection.Bounds.{IsValid}
use vexspoke.Struct.Collection.Bytes.{copy_bytes, copy_bytes-mul, same_bytes-mul}
use vexspoke.Struct.ArrayList.{append, add, get, compare, regrow}
use vexspoke.Struct.ArrayList.Contents.{add_granted}

-- Two valid lists compare equal exactly when they have the same stride, the same number of live
-- slots and the same bytes in them, provided that the bytes of the first number below 2^32.
compare_iff :
    (a b : Collection)
    → IsValid a
    → IsValid b
    → a.active_count * a.stride < 2 ^ 32
    → (compare a b ≡ true) ↔ (
        (a.active_count ≡ b.active_count)
        × (a.stride ≡ b.stride)
        × (take a.active_count a.data_buffer ≡ take a.active_count b.data_buffer))
unfolding compare
compare_iff a b va vb fits =
    let whole : u32 (a.active_count * a.stride) ≡ a.active_count * a.stride = omega arith in
    rw whole
      (ground (arith, same_bytes-mul a.stride va.wide a.active_count a.data_buffer b.data_buffer))

copy_bytes-zero : (stride : ℕ) → 0 < stride → (src dst : List ℕ) → copy_bytes stride 0 src dst ≡ dst
copy_bytes-zero stride positive src dst =
    let none_left : 0 * stride ≡ 0 = omega arith in
    rw none_left at (copy_bytes-mul stride positive 0 src dst (omega arith) (omega arith))

module _ {c : Collection} (v : IsValid c) (full : c.active_count ≡ c.capacity) (arena : Arena)
    (block : ℕ → ℕ) where
  -- A list that is full at a capacity of 2^31 is left by `add` with a capacity of 0, so that every
  -- element reads as 0 from then on, the old ones too.
  pub add_at_half_range :
      (x i : ℕ)
      → c.capacity ≡ 2 ^ 31
      → arena.alloc (buffer c.element_class (u64 (2 ^ 32 * c.stride))) ≡ some block
      → ((add arena c x).capacity ≡ 0) × (get (add arena c x) i ≡ 0)
  unfolding regrow append write_slot get read_slot
  add_at_half_range x i half granted =
      let granted' : arena.alloc (buffer c.element_class (u64 (c.capacity * 2 * c.stride)))
          ≡ some block =
        rw half granted in
      rw (add_granted v full (omega arith) arena block x granted', regrow, granted') (ground arith)

  -- Where the live slots have 2^32 bytes, `add` copies none of them into the larger buffer.
  pub add_at_four_gigabytes :
      (x i : ℕ)
      → c.capacity < 2 ^ 31
      → c.active_count * c.stride ≡ 2 ^ 32
      → arena.alloc (buffer c.element_class (u64 (c.capacity * 2 * c.stride))) ≡ some block
      → i < c.active_count
      → get (add arena c x) i ≡ read_slot_at (block i) c.stride
  unfolding regrow append write_slot get read_slot
  add_at_four_gigabytes x i half bytes granted h =
      let none_copied : u32 (c.active_count * c.stride) ≡ 0 = omega arith in
      let offset : i * c.stride < 2 ^ 64 = grind arith in
      rw
        (
          add_granted v full (omega arith) arena block x granted,
          regrow,
          granted,
          none_copied,
          copy_bytes-zero c.stride v.wide,
        )
        (ground (
          arith,
          get_or-set_ne (tabulate block 0 (c.capacity * 2)) {i = c.active_count} {j = i}
              (write_slot_at (get_or (tabulate block 0 (c.capacity * 2)) c.active_count 0) c.stride
                x)
              0,
          get_or-tabulate block 0 (c.capacity * 2) i 0 (omega arith),
        ))
