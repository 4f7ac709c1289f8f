-- ===== src/Struct/Queue/Order.antt =====
-- First in, first out.
use vexspoke.Base.{ℕ, zero, suc, ◌≡◌, List, [], ◌∷◌}
use vexspoke.Struct.Arena.{Arena}
use vexspoke.Struct.Collection.{Collection}
use vexspoke.Struct.Deque.Cells.{IsRing, contents}
use vexspoke.Struct.Queue.{push, pop}

-- Push each value in turn.
pub push_all : Arena → Collection → List ℕ → Collection
push_all arena c [] = c
push_all arena c (x ∷ xs) = push_all arena (push arena c x) xs

-- Pop `n` times: what comes out, and what is left.
pub pop_times : ℕ → Collection → List ℕ × Collection
pop_times zero c = ([], c)
pop_times (suc n) c = let (x, c') = pop c in let (xs, c'') = pop_times n c' in (x ∷ xs, c'')

-- The queue after the pushes is valid and holds the old words, then the new ones.
record Filled (before after : Collection) (words : List ℕ) : Type 0 where
  ring : IsRing after
  same_stride : after.stride ≡ before.stride
  holds : contents after ≡ words
