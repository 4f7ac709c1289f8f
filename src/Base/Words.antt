-- ===== src/Base/Words.antt =====
-- Unsigned machine words as native numbers, with their wrap-around.
use Prim.Native.Nat.{ℕ, ◌%◌, ◌^◌}

-- The casts (uint32_t) and (size_t).
abbrev pub u32 : ℕ → ℕ
u32 n = n % 2 ^ 32

abbrev pub u64 : ℕ → ℕ
u64 n = n % 2 ^ 64
