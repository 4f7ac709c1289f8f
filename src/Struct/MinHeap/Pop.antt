-- ===== src/Struct/MinHeap/Pop.antt =====
-- MinHeap_popItem keeps the heap order and the entries, and returns the item of a least entry.
use Prim.Native.Nat.{◌<◌}
use vexspoke.Base.{
  ℕ, zero, suc, ◌+◌, ◌-◌, ◌/◌, ◌≤◌, ◌≡◌, ◌≢◌, ◌∙◌, refl, sym, ap, ◌⊎◌, inl, inr, List, Bool, true,
  false, not, ◌==◌, if◌then◌else◌, length, length-set, set as set_elem, Bool-cases, arith,
}
use vexspoke.Struct.MinHeap.{Entry, MinHeap, entry_at, sift_down, pop_item}
use vexspoke.Struct.MinHeap.Order.{Before, at, IsHeap, at_set, at_other, Hole}
use vexspoke.Struct.MinHeap.Down.{fill_down-IsHeap}
use vexspoke.Struct.MinHeap.Contents.{
  bit, tally, tally_at, tally_set, tally-fill_down, length-fill_down,
}
use vexspoke.Struct.MinHeap.Valid.{IsValid}

module _ {P : Type 0} (blank : Entry P) (le lt : P → P → Bool)
    (total : (a b : P) → (le a b ≡ true) ⊎ (le b a ≡ true))
    (trans : (a b c : P) → le a b ≡ true → le b c ≡ true → le a c ≡ true)
    (strict : (a b : P) → lt a b ≡ not (le b a)) where
  root-least :
      (fuel n i : ℕ) (xs : List (Entry P))
      → IsHeap blank le lt total trans strict n xs
      → 1 ≤ i
      → i ≤ n
      → i ≤ fuel
      → Before blank le lt total trans strict
          (at blank le lt total trans strict xs 1)
          (at blank le lt total trans strict xs i)
  root-least zero n i xs heap one h g = absurd (omega (arith, one, g))
  root-least (suc fuel) n i xs heap one h g = elim (Bool-cases (i == 1)) [
    | inl t ↦
        let q : i ≡ 1 = ground (arith, t) in
        rw q
          (elim (total (at blank le lt total trans strict xs 1).priority
            (at blank le lt total trans strict xs 1).priority) [ inl t ↦ t | inr t ↦ t ])
    | inr f ↦
        let two : 2 ≤ i = ground (arith, f, one) in
        trans (at blank le lt total trans strict xs 1).priority
          (at blank le lt total trans strict xs (i / 2)).priority
          (at blank le lt total trans strict xs i).priority
          (root-least fuel n (i / 2) xs heap (omega (arith, two)) (omega (arith, h))
            (omega (arith, g, two)))
          (heap i two h)
  ]

  moved-Hole :
      (n : ℕ) (e : Entry P) (xs : List (Entry P))
      → n + 1 < length xs
      → 1 ≤ n
      → IsHeap blank le lt total trans strict (n + 1) xs
      → Hole blank le lt total trans strict n 1 (set_elem xs 1 e)
  moved-Hole n e xs low one heap = record {
    inside = omega (arith, low, length-set xs 1 e);
    positive = omega arith;
    low = one;
    others = λ i two h ne ne'.
        let away : 1 ≢ i = λ q. ne (sym q) in
        let away' : 1 ≢ i / 2 = λ q. ne' (sym q) in
        rw
          (
            at_other blank le lt total trans strict xs 1 i e away,
            at_other blank le lt total trans strict xs 1 (i / 2) e away',
          )
          (heap i two (omega (arith, h)));
    across = λ i two h q. absurd (omega (arith, two));
  }

  -- What MinHeap_popItem leaves where there is an entry: the item is that of a root that is before all
  -- the others, and each test accepts one entry less exactly if it accepts the root.
  pub record Popped (heap after : MinHeap P) (item : ℕ) : Type 0 where
    pub valid : IsValid blank le lt total trans strict after
    pub one_less : heap.size ≡ after.size + 1
    pub root : item ≡ Entry.item (entry_at blank le lt heap.entries 1)
    pub least :
        (i : ℕ)
        → 1 ≤ i
        → i ≤ heap.size
        → Before blank le lt total trans strict
            (entry_at blank le lt heap.entries 1)
            (entry_at blank le lt heap.entries i)
    pub taken :
        (f : Entry P → Bool)
        → tally blank le lt f heap.size heap.entries
          ≡ tally blank le lt f after.size after.entries
            + bit (f (entry_at blank le lt heap.entries 1))

  -- The entries after a pop, of a heap of one entry and more.
  pub rest_of : ℕ → List (Entry P) → List (Entry P)
  rest_of n xs =
      let moved = set_elem xs 1 (entry_at blank le lt xs (n + 1)) in
      if n == 0 then moved else sift_down blank le lt n 1 moved

  record Remainder (n : ℕ) (xs ys : List (Entry P)) : Type 0 where
    same_length : length ys ≡ length xs
    in_order : IsHeap blank le lt total trans strict n ys
    kept :
        (f : Entry P → Bool)
        → tally blank le lt f n ys + bit (f (at blank le lt total trans strict xs 1))
          ≡ tally blank le lt f n xs + bit (f (at blank le lt total trans strict xs (n + 1)))

  rest_of-Remainder :
      (n : ℕ) (xs : List (Entry P))
      → n + 1 < length xs
      → IsHeap blank le lt total trans strict (n + 1) xs
      → Remainder n xs (rest_of n xs)
  unfolding rest_of
  rest_of-Remainder zero xs low heap =
      let e : 0 + 1 ≡ 1 = omega arith in
      record {
        same_length = length-set xs 1 _;
        in_order = λ i two h. absurd (omega (arith, two, h));
        kept = λ f. rw e refl;
      }
  rest_of-Remainder (suc m) xs low heap =
      let n = suc m in
      let e = entry_at blank le lt xs (n + 1) in
      let moved = set_elem xs 1 e in
      let b : (n == 0) ≡ false = ground arith in
      let hole = moved-Hole n e xs low (omega arith) heap in
      rw (rest_of, b)
        (record {
          same_length =
              length-fill_down blank le lt (λ _. true) n n 1
                (at blank le lt total trans strict moved 1) moved
              ∙ length-set xs 1 e;
          in_order =
              fill_down-IsHeap blank le lt total trans strict n n 1
                (at blank le lt total trans strict moved 1) moved (omega arith) hole
                (λ two. absurd (omega (arith, two)));
          kept = λ f.
              let here = at_set blank le lt total trans strict xs 1 e (omega (arith, low)) in
              let same = ap (λ (y : Entry P). bit (f y)) here in
              let put =
                tally_set blank le lt f n 1 e xs (omega arith) (omega arith) (omega (arith, low)) in
              let sunk =
                tally-fill_down blank le lt f n n 1 (at blank le lt total trans strict moved 1)
                  moved (omega arith) (omega arith) hole.inside in
              omega (arith, same, put, sunk);
        })

  pop_rest :
      (heap : MinHeap P)
      → 0 < heap.size
      → pop_item blank le lt heap ≡ (
        Entry.item (entry_at blank le lt heap.entries 1),
        record heap { size = heap.size - 1; entries = rest_of (heap.size - 1) heap.entries },
      )
  unfolding pop_item rest_of
  pop_rest heap some_entry =
      let b : (heap.size == 0) ≡ false = ground arith in
      let e : heap.size - 1 + 1 ≡ heap.size = omega arith in rw (pop_item, rest_of, b, e) refl

  -- MinHeap_popItem on a valid heap: an empty one gives 0 and stays as it was; else the item of a least
  -- entry is returned, that entry is taken out, and the heap stays valid.
  pub pop_item_outcome :
      (heap : MinHeap P)
      → IsValid blank le lt total trans strict heap
      → let result = pop_item blank le lt heap in
        ((heap.size ≡ 0) × (result ≡ (0, heap))) ⊎ ((0 < heap.size) × Popped heap result.1 result.0)
  unfolding pop_item
  pop_item_outcome heap valid = elim (Bool-cases (heap.size == 0)) [
    | inl t ↦ inl (ground (arith, t), emptied t)
    | inr f ↦
        let some_entry : 0 < heap.size = ground (arith, f) in
        let n = heap.size - 1 in
        let e : n + 1 ≡ heap.size = omega (arith, some_entry) in
        let rest =
          rest_of-Remainder n heap.entries (omega (arith, e, valid.fits, valid.room))
            (rw e valid.ordered) in
        inr (
          some_entry,
          rw (pop_rest heap some_entry) (record {
            valid = record {
              fits = omega (arith, valid.fits);
              room = omega (arith, valid.room, rest.same_length);
              ordered = rest.in_order;
            };
            one_less = sym e;
            root = refl;
            least =
                λ i one h. root-least i heap.size i heap.entries valid.ordered one h (omega arith);
            taken = λ f.
                let split : tally blank le lt f (n + 1) heap.entries
                    ≡ tally blank le lt f n heap.entries
                      + bit (f (at blank le lt total trans strict heap.entries (n + 1))) =
                  tally_at blank le lt f n heap.entries in
                let kept = rest.kept f in
                let whole = ap (λ (k : ℕ). tally blank le lt f k heap.entries) e in
                omega (arith, split, kept, whole);
          }),
        )
  ]
    where
      emptied : (heap.size == 0) ≡ true → pop_item blank le lt heap ≡ (0, heap)
      emptied t = rw (pop_item, t) refl
