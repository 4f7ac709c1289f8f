-- ===== src/Struct/Sample.antt =====
-- Arenas and small containers that the tests share.
use vexspoke.Base.{ℕ, none, some, [], ◌∷◌, false}
use vexspoke.Struct.Arena.{Arena}
use vexspoke.Struct.Collection.{Collection}

-- Grants every request, and hands out blocks full of 0xaa.
abbrev pub granting : Arena
granting = record { class_of = λ id. id; full_type = λ id. id; alloc = λ _. some (λ _. 0xaa) }

-- Refuses every request.
abbrev pub refusing : Arena
refusing = record { class_of = λ id. id; full_type = λ id. id; alloc = λ _. none }

-- Two live 16-bit words in two slots: full, with the head as given.
abbrev pub pair_at : ℕ → Collection
pair_at head = record {
  type_id = 0x1c;
  active_count = 2;
  element_class = 6;
  stride = 2;
  capacity = 2;
  head = head;
  data_buffer = 7 ∷ 8 ∷ [];
  exhaustion = record { count = 0; reported = false };
}
