-- ===== src/Struct/Collection/Bounds.antt =====
-- The invariant of a header, and slot access within the capacity.
use vexspoke.Base.{ℕ, ◌*◌, ◌^◌, ◌≤◌, ◌<◌, ◌≡◌, arith, get_or, length, length-set, set as set_elem}
use vexspoke.Struct.Collection.{Collection, read_slot, read_slot_at, write_slot, write_slot_at}

-- The buffer has the capacity's slots, the live ones among them, and no 32-bit field overflows.
pub record IsValid (c : Collection) : Type 0 where
  pub room : c.active_count ≤ c.capacity
  pub sized : length c.data_buffer ≡ c.capacity
  pub positive : 0 < c.capacity
  pub small : c.capacity < 2 ^ 32
  pub wide : 0 < c.stride
  pub narrow : c.stride < 2 ^ 32

module _ {c : Collection} (v : IsValid c) (i : ℕ) (h : i < c.capacity) where
  offset-fits : i * c.stride < 2 ^ 64
  offset-fits = grind arith

  pub read_slot_of_lt : read_slot c i ≡ read_slot_at (get_or c.data_buffer i 0) c.stride
  unfolding read_slot
  read_slot_of_lt = ground (arith, offset-fits)

  pub write_slot_of_lt :
      (x : ℕ)
      → write_slot c i x ≡ record c {
        data_buffer =
            set_elem c.data_buffer i (write_slot_at (get_or c.data_buffer i 0) c.stride x);
      }
  unfolding write_slot
  write_slot_of_lt x = ground (arith, offset-fits)

pub write_slot-IsValid : {c : Collection} (i x : ℕ) → IsValid c → IsValid (write_slot c i x)
unfolding write_slot
write_slot-IsValid {c} i x v =
    ground (arith, length-set c.data_buffer i (write_slot_at (get_or c.data_buffer i 0) c.stride x))
