-- ===== src/Atomic/Ring/Refine.antt =====
-- src/atomic/ring.c: a ring against a bounded queue of items. The counters may wrap at 2^64.
use Prim.Native.Nat.{bit_and}
use mathlib.Core.Path.{ap₂}
use native.Mathlib.Nat.{add-zero, zero-add, mod-lt, pow-le-pow_right}
use native.Mathlib.Decide.{dec_lt, ℕ_discrete}
use vexspoke.Base.{
  ℕ, suc, ◌+◌, ◌-◌, ◌%◌, ◌^◌, ◌≤◌, ◌<◌, ◌≡◌, ◌≢◌, ◌∙◌, refl, sym, ap, List, [], ◌∷◌, ◌++◌, length,
  arith, Bool, true, false, ◌==◌, ltb, leb, if◌then◌else◌, get_or, get_or-set_self, get_or-set_ne,
  length-set, length-tabulate, tabulate, tabulate-ext, tabulate-shift, tabulate-suc, Option, none,
  some, u64, set as set_elem,
}
use vexspoke.Struct.Map.Mask.{bit_and-mask, pow_pos}
use vexspoke.Atomic.Ring.{RingBuffer, push, pop}
use vexspoke.Atomic.Ring.Slots.{u64-mod, u64-add-mod, masks_differ}

-- The distance from the head to the tail.
abbrev pub used : RingBuffer → ℕ
used ring = u64 (ring.tail + 2 ^ 64 - ring.head)

pub record IsQueue (bits : ℕ) (ring : RingBuffer) : Type 0 where
  pub narrow : bits < 64
  pub capacity_is : ring.capacity ≡ 2 ^ bits
  pub mask_is : ring.mask ≡ 2 ^ bits - 1
  pub sized : length ring.slots ≡ 2 ^ bits
  pub head_in : ring.head < 2 ^ 64
  pub tail_in : ring.tail < 2 ^ 64
  pub used_in : used ring ≤ 2 ^ bits

-- The item at a distance from the head, and the items from the oldest on.
abbrev pub item_at : ℕ → RingBuffer → ℕ → ℕ
item_at bits ring i = get_or ring.slots ((ring.head + i) % 2 ^ bits) 0

abbrev pub items : ℕ → RingBuffer → List ℕ
items bits ring = tabulate (item_at bits ring) 0 (used ring)

pub data Op : Type 0 where
  pushes : ℕ → Op
  pops : Op

pub data Reply : Type 0 where
  accepted : Bool → Reply
  taken : Option ℕ → Reply

step : RingBuffer → Op → Reply × RingBuffer
step ring (pushes item) = let (ok, ring') = push ring item in (accepted ok, ring')
step ring pops = let (item, ring') = pop ring in (taken item, ring')

pub run : RingBuffer → List Op → List Reply
unfolding step
run ring [] = []
run ring (op ∷ ops) = let (reply, ring') = step ring op in reply ∷ run ring' ops

-- The same calls on a queue of items that holds `capacity` of them at most.
spec_step : ℕ → List ℕ → Op → Reply × List ℕ
spec_step capacity xs (pushes item) =
    if ltb (length xs) capacity then (accepted true, xs ++ (item ∷ [])) else (accepted false, xs)
spec_step capacity [] pops = (taken none, [])
spec_step capacity (x ∷ xs) pops = (taken (some x), xs)

unfoldable pub spec_run : ℕ → List ℕ → List Op → List Reply
unfolding spec_step
spec_run capacity xs [] = []
spec_run capacity xs (op ∷ ops) =
    let (reply, xs') = spec_step capacity xs op in reply ∷ spec_run capacity xs' ops

module _ {bits : ℕ} {ring : RingBuffer} (v : IsQueue bits ring) where
  capacity_in : 2 ^ bits < 2 ^ 64
  capacity_in = omega (arith, pow-le-pow_right {n = 2} (omega arith) v.narrow, pow_pos bits)

  below : bits ≤ 64
  below = omega (arith, v.narrow)

  tail_slot : bit_and ring.tail ring.mask ≡ (ring.head + used ring) % 2 ^ bits
  tail_slot =
      let whole : ring.tail ≡ u64 (ring.head + used ring) = omega (arith, v.head_in, v.tail_in) in
      rw v.mask_is (
        bit_and-mask bits ring.tail
        ∙ ap (λ n. n % 2 ^ bits) whole
        ∙ u64-mod bits (ring.head + used ring) below)

  head_slot : bit_and ring.head ring.mask ≡ (ring.head + 0) % 2 ^ bits
  head_slot = rw (v.mask_is, add-zero) (bit_and-mask bits ring.head)

  length-items : length (items bits ring) ≡ used ring
  length-items = length-tabulate (item_at bits ring) 0 (used ring)

  module _ (item : ℕ) (room : used ring < 2 ^ bits) where
    after_push : RingBuffer
    after_push = record ring {
      slots = set_elem ring.slots ((ring.head + used ring) % 2 ^ bits) item;
      tail = u64 (ring.tail + 1);
    }

    used-after_push : used after_push ≡ suc (used ring)
    unfolding after_push
    used-after_push = omega (arith, capacity_in, v.head_in, v.tail_in, room)

    push_lem : push ring item ≡ (true, after_push)
    unfolding push after_push
    push_lem =
        let free : leb ring.capacity (used ring) ≡ false = ground (arith, v.capacity_is) in
        rw (free, tail_slot) refl

    push-IsQueue : IsQueue bits after_push
    unfolding after_push
    push-IsQueue = record {
      narrow = v.narrow;
      capacity_is = v.capacity_is;
      mask_is = v.mask_is;
      sized = length-set ring.slots ((ring.head + used ring) % 2 ^ bits) item ∙ v.sized;
      head_in = v.head_in;
      tail_in = omega arith;
      used_in = omega (arith, used-after_push, room);
    }

    items-push : items bits after_push ≡ items bits ring ++ (item ∷ [])
    unfolding after_push
    items-push =
        ap (tabulate (item_at bits after_push) 0) used-after_push
        ∙ tabulate-suc (item_at bits after_push) 0 (used ring)
        ∙ ap₂ (λ xs x. xs ++ (x ∷ []))
            (tabulate-ext (item_at bits after_push) (item_at bits ring) 0 (used ring) (λ k h.
              rw zero-add (get_or-set_ne ring.slots item 0 (masks_differ bits ring.head room h))))
            (rw zero-add (
              get_or-set_self ring.slots ((ring.head + used ring) % 2 ^ bits) item 0
                (omega (arith, v.sized, mod-lt (ring.head + used ring) (pow_pos bits)))))

  push_full : (item : ℕ) → ¬ (used ring < 2 ^ bits) → push ring item ≡ (false, ring)
  unfolding push
  push_full item full =
      let refused : leb ring.capacity (used ring) ≡ true = ground (arith, v.capacity_is) in
      rw refused refl

  module _ (some_left : ring.head ≢ ring.tail) where
    after_pop : RingBuffer
    after_pop = record ring { head = u64 (ring.head + 1) }

    used-after_pop : used ring ≡ suc (used after_pop)
    unfolding after_pop
    used-after_pop = omega (arith, v.head_in, v.tail_in, some_left)

    pop_lem : pop ring ≡ (some (item_at bits ring 0), after_pop)
    unfolding pop after_pop
    pop_lem =
        let nonempty : (ring.head == ring.tail) ≡ false = ground arith in
        rw (nonempty, head_slot) refl

    pop-IsQueue : IsQueue bits after_pop
    unfolding after_pop
    pop-IsQueue = record {
      narrow = v.narrow;
      capacity_is = v.capacity_is;
      mask_is = v.mask_is;
      sized = v.sized;
      head_in = omega arith;
      tail_in = v.tail_in;
      used_in = omega (arith, used-after_pop, v.used_in);
    }

    items-pop : items bits ring ≡ item_at bits ring 0 ∷ items bits after_pop
    unfolding after_pop
    items-pop =
        ap (tabulate (item_at bits ring) 0) used-after_pop
        ∙ ap (◌∷◌ (item_at bits ring 0)) (
            tabulate-shift (item_at bits ring) 0 (used after_pop)
            ∙ tabulate-ext (λ k. item_at bits ring (suc k)) (item_at bits after_pop) 0
                (used after_pop)
                (λ k h.
                  ap (λ n. get_or ring.slots n 0)
                    (ap (λ n. n % 2 ^ bits) (omega arith)
                      ∙ sym (u64-add-mod bits (ring.head + 1) (0 + k) below))))

pop_empty : {ring : RingBuffer} → ring.head ≡ ring.tail → pop ring ≡ (none, ring)
unfolding pop
pop_empty {ring} same = let empty : (ring.head == ring.tail) ≡ true = ground arith in rw empty refl

-- What holds after a call, of the ring before it.
record Kept (bits : ℕ) (reply : Reply) (after : RingBuffer) (spec : Reply × List ℕ) : Type 0 where
  queue : IsQueue bits after
  replied : reply ≡ spec.0
  holds : items bits after ≡ spec.1

push-Kept :
    {bits : ℕ} {ring : RingBuffer} (item : ℕ)
    → IsQueue bits ring
    → Kept bits
        (step ring (pushes item)).0
        (step ring (pushes item)).1
        (spec_step (2 ^ bits) (items bits ring) (pushes item))
unfolding step spec_step
push-Kept {bits} {ring} item v = elim (dec_lt (used ring) (2 ^ bits)) [
  | yes room ↦
      let free : ltb (length (items bits ring)) (2 ^ bits) ≡ true =
        ground (arith, length-items v) in
      rw (push_lem v item room, free)
        (record {
          queue = push-IsQueue v item room;
          replied = refl;
          holds = items-push v item room;
        })
  | no full ↦
      let refused : push ring item ≡ (false, ring) = push_full v item full in
      let none_free : ltb (length (items bits ring)) (2 ^ bits) ≡ false =
        ground (arith, length-items v) in
      rw (refused, none_free) (record { queue = v; replied = refl; holds = refl })
]

pop-Kept :
    {bits : ℕ} {ring : RingBuffer}
    → IsQueue bits ring
    → Kept bits (step ring pops).0 (step ring pops).1 (spec_step (2 ^ bits) (items bits ring) pops)
unfolding step spec_step
pop-Kept {bits} {ring} v = elim (ℕ_discrete ring.head ring.tail) [
  | yes same ↦
      let nothing : items bits ring ≡ [] =
        ap (tabulate (item_at bits ring) 0) {y = 0} (omega (arith, v.head_in)) in
      rw (pop_empty {ring = ring} same, nothing)
        (record { queue = v; replied = refl; holds = nothing })
  | no some_left ↦
      rw (pop_lem v some_left, items-pop v some_left)
        (record { queue = pop-IsQueue v some_left; replied = refl; holds = refl })
]

step-Kept :
    {bits : ℕ} {ring : RingBuffer} (op : Op)
    → IsQueue bits ring
    → Kept bits (step ring op).0 (step ring op).1 (spec_step (2 ^ bits) (items bits ring) op)
step-Kept (pushes item) v = push-Kept item v
step-Kept pops v = pop-Kept v

as_queue :
    {bits : ℕ} (ops : List Op) {ring : RingBuffer}
    → IsQueue bits ring
    → run ring ops ≡ spec_run (2 ^ bits) (items bits ring) ops
unfolding run spec_run
as_queue [] v = refl
as_queue {bits} (op ∷ ops) v =
    let k = step-Kept op v in
    ap₂ ◌∷◌ k.replied (as_queue ops k.queue ∙ ap (λ xs. spec_run (2 ^ bits) xs ops) k.holds)

-- A ring whose capacity is a power of two below 2^64 replies to any pushes and pops as a queue of its
-- items does: a push is accepted exactly where there is room and puts the item last, and a pop takes
-- the oldest item, or none where the queue is empty.
pub ring_run_refines :
    (bits : ℕ) {ring : RingBuffer} (ops : List Op)
    → IsQueue bits ring
    → run ring ops ≡ spec_run ring.capacity (items bits ring) ops
ring_run_refines bits {ring} ops v =
    as_queue ops v ∙ ap (λ capacity. spec_run capacity (items bits ring) ops) (sym v.capacity_is)
