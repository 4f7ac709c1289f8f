-- ===== src/Struct/Arena.antt =====
-- What the containers ask of the memory library, which is not part of this repository: whether an
-- allocation is granted, what an unwritten block holds, and the algebra of type ids. Each call
-- of an operation is given the arena that answers it.
use vexspoke.Base.{ℕ, Option}

-- `Memory_alloc`: for a header, or for a buffer of elements of a class.
pub data Request : Type 0 where
  header : ℕ → ℕ → Request
  buffer : ℕ → ℕ → Request

pub record Arena : Type 0 where
  -- `id & MASK_CLASS`
  pub class_of : ℕ → ℕ
  -- the full id of a container's class (`TYPE_LIST` and the like)
  pub full_type : ℕ → ℕ
  -- `none` refuses; a granted block is read slot by slot, and holds anything at first
  pub alloc : Request → Option (ℕ → ℕ)
