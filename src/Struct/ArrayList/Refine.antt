-- ===== src/Struct/ArrayList/Refine.antt =====
-- A list is a sequence of words, whatever operations are called on it, as long as the arena grants
-- the buffers and the bytes of the live slots can be counted in 32 bits.
use mathlib.Core.Path.{ap₂}
use native.Mathlib.Nat.{le_trans}
use vexspoke.Base.{
  ℕ, ◌+◌, ◌*◌, ◌%◌, ◌^◌, ◌≤◌, ◌<◌, ◌≡◌, refl, ◌∙◌, some, List, [], ◌∷◌, ◌++◌, arith, leb, false,
  get_or, set as set_elem, length, Bool-cases, inl, inr, erase_at,
}
use vexspoke.Struct.Arena.{Arena, Request}
use vexspoke.Struct.Collection.{Collection, word_mod, write_slot}
use vexspoke.Struct.Collection.Bounds.{IsValid, write_slot-IsValid}
use vexspoke.Struct.ArrayList.{append, add, get, set, remove, regrow}
use vexspoke.Struct.ArrayList.Contents.{
  contents, add_granted, request, regrow-IsValid, contents-regrow, regrow_fields, contents-append,
  append-IsValid, get-contents, contents-set, contents-remove, remove-IsValid,
}

-- An arena that refuses nothing.
abbrev pub Grants : Arena → Type 0
Grants arena = (r : Request) → (block : ℕ → ℕ) × (arena.alloc r ≡ some block)

mul_right_mono : {a b : ℕ} (k : ℕ) → a ≤ b → a * k ≤ b * k
mul_right_mono k h = grind arith

-- A call, and what the caller sees of it.
pub data Op : Type 0 where
  add_value : ℕ → Op
  get_at : ℕ → Op
  set_at : ℕ → ℕ → Op
  remove_at : ℕ → Op

step : Arena → Collection → Op → ℕ × Collection
step arena c (add_value x) = (0, add arena c x)
step arena c (get_at i) = (get c i, c)
step arena c (set_at i x) = (0, set c i x)
step arena c (remove_at i) = (0, remove c i)

pub run : Arena → Collection → List Op → List ℕ
unfolding step
run arena c [] = []
run arena c (op ∷ ops) = let (reply, c') = step arena c op in reply ∷ run arena c' ops

-- The same calls on a sequence of words below `m`.
spec_step : ℕ → List ℕ → Op → ℕ × List ℕ
spec_step m xs (add_value x) = (0, xs ++ (x % m ∷ []))
spec_step m xs (get_at i) = (get_or xs i 0, xs)
spec_step m xs (set_at i x) = (0, set_elem xs i (x % m))
spec_step m xs (remove_at i) = (0, erase_at xs i)

unfoldable pub spec_run : ℕ → List ℕ → List Op → List ℕ
unfolding spec_step
spec_run m xs [] = []
spec_run m xs (op ∷ ops) = let (reply, xs') = spec_step m xs op in reply ∷ spec_run m xs' ops

stride-append : (c : Collection) (x : ℕ) → (append c x).stride ≡ c.stride
unfolding append write_slot
stride-append c x = ground arith

active_count-append :
    (c : Collection) (x : ℕ)
    → c.active_count < 2 ^ 31
    → (append c x).active_count ≡ c.active_count + 1
unfolding append write_slot
active_count-append c x h = ground arith

-- What holds after a call, of the list before it.
record Kept (before after : Collection) (count : ℕ) (words : List ℕ) : Type 0 where
  valid : IsValid after
  same_stride : after.stride ≡ before.stride
  count_le : after.active_count ≤ count
  holds : contents after ≡ words

append-Kept :
    {c : Collection} (x : ℕ)
    → IsValid c
    → c.active_count < c.capacity
    → c.active_count < 2 ^ 31
    → Kept c (append c x) (c.active_count + 1) (contents c ++ (x % word_mod c.stride ∷ []))
append-Kept {c} x v room few = record {
  valid = append-IsValid v x room;
  same_stride = stride-append c x;
  count_le = omega (arith, active_count-append c x few);
  holds = contents-append v x room;
}

add_roomy :
    (arena : Arena) (c : Collection) (x : ℕ)
    → leb c.capacity c.active_count ≡ false
    → add arena c x ≡ append c x
unfolding add
add_roomy arena c x below = rw below

-- A full list is doubled first.
add_full-Kept :
    (arena : Arena) {c : Collection} (x : ℕ)
    → Grants arena
    → IsValid c
    → c.active_count < 2 ^ 31
    → c.active_count * c.stride < 2 ^ 32
    → c.active_count ≡ c.capacity
    → Kept c (add arena c x) (c.active_count + 1) (contents c ++ (x % word_mod c.stride ∷ []))
add_full-Kept arena {c} x grants v few fits full =
    let half : c.capacity < 2 ^ 31 = omega arith in
    let (block, granted) = grants (request v full (omega arith) arena) in
    let c' : Collection = (regrow arena c (c.capacity * 2)).1 in
    let fields = regrow_fields v full half fits arena block granted in
    let same = contents-regrow v full half fits arena block granted in
    let k =
      append-Kept {c = c'} x (regrow-IsValid v full half fits arena block granted) (omega arith)
        (omega arith) in
    rw (add_granted v full (omega arith) arena block x granted) (record {
      valid = k.valid;
      same_stride = k.same_stride ∙ fields.2;
      count_le = omega arith;
      holds = k.holds ∙ ap₂ (λ words stride. words ++ (x % word_mod stride ∷ [])) same fields.2;
    })

-- Where memory and the 32-bit size allow it, `add` puts one word at the end.
add-Kept :
    (arena : Arena) {c : Collection} (x : ℕ)
    → Grants arena
    → IsValid c
    → c.active_count < 2 ^ 31
    → c.active_count * c.stride < 2 ^ 32
    → Kept c (add arena c x) (c.active_count + 1) (contents c ++ (x % word_mod c.stride ∷ []))
add-Kept arena {c} x grants v few fits = elim (Bool-cases (leb c.capacity c.active_count)) [
  | inl past ↦ add_full-Kept arena x grants v few fits (ground arith)
  | inr below ↦ rw (add_roomy arena c x below) (append-Kept x v (ground arith) few)
]

set-Kept :
    {c : Collection} (i x : ℕ)
    → IsValid c
    → Kept c (set c i x) (c.active_count + 1) (set_elem (contents c) i (x % word_mod c.stride))
unfolding set
set-Kept {c} i x v = record {
  valid = ground (arith, write_slot-IsValid i x v);
  same_stride = unfold write_slot in ground arith;
  count_le = unfold write_slot in ground arith;
  holds = contents-set v i x;
}

remove-Kept :
    {c : Collection} (i : ℕ)
    → IsValid c
    → Kept c (remove c i) (c.active_count + 1) (erase_at (contents c) i)
unfolding remove
remove-Kept {c} i v = record {
  valid = remove-IsValid v i;
  same_stride = ground arith;
  count_le = ground arith;
  holds = contents-remove v i;
}

-- Each call does to the words what it says.
step-Kept :
    (arena : Arena) {c : Collection} (op : Op)
    → Grants arena
    → IsValid c
    → c.active_count < 2 ^ 31
    → c.active_count * c.stride < 2 ^ 32
    → Kept c
        (step arena c op).1
        (c.active_count + 1)
        (spec_step (word_mod c.stride) (contents c) op).1
      × ((step arena c op).0 ≡ (spec_step (word_mod c.stride) (contents c) op).0)
unfolding step spec_step
step-Kept arena (add_value x) grants v few fits = (add-Kept arena x grants v few fits, refl)
step-Kept arena {c} (get_at i) grants v few fits = (
  record { valid = v; same_stride = refl; count_le = omega arith; holds = refl },
  get-contents v i,
)
step-Kept arena (set_at i x) grants v few fits = (set-Kept i x v, refl)
step-Kept arena (remove_at i) grants v few fits = (remove-Kept i v, refl)

-- While the live slots, one more for each call to come, number at most 2^31 and have at most 2^32
-- bytes, and the arena refuses nothing, a valid list replies to any calls as the sequence of its
-- words does, each value cut to the width of the element class.
pub list_run_refines :
    (arena : Arena) (ops : List Op) {c : Collection}
    → Grants arena
    → IsValid c
    → c.active_count + length ops ≤ 2 ^ 31
    → (c.active_count + length ops) * c.stride ≤ 2 ^ 32
    → run arena c ops ≡ spec_run (word_mod c.stride) (contents c) ops
unfolding run spec_run
list_run_refines arena [] grants v few fits = refl
list_run_refines arena (op ∷ ops) {c} grants v few fits =
    let (k, same_reply) = step-Kept arena op grants v (omega arith) (grind (arith, v.wide)) in
    let c' : Collection = (step arena c op).1 in
    let few' : c'.active_count + length ops ≤ 2 ^ 31 = omega (arith, k.count_le) in
    let fits' : (c'.active_count + length ops) * c'.stride ≤ 2 ^ 32 =
      rw k.same_stride (le_trans (mul_right_mono c.stride (omega (arith, k.count_le))) fits) in
    ap₂ ◌∷◌ same_reply (
      list_run_refines arena ops grants k.valid few' fits'
      ∙ ap₂ (λ stride words. spec_run (word_mod stride) words ops) k.same_stride k.holds)
