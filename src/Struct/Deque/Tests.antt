-- ===== src/Struct/Deque/Tests.antt =====
-- Runs of the deque, and its theorems at concrete deques.
use vexspoke.Base.{List, [], ◌∷◌}
use vexspoke.Struct.Deque.Refine.{Op, push_front, push_back, pop_front, pop_back, get_at}

abbrev script : List Op
script =
    push_back 1
    ∷ push_front 0x10002
    ∷ get_at 1
    ∷ pop_back
    ∷ pop_front
    ∷ pop_front
    ∷ pop_back
    ∷ pop_back
    ∷ []
