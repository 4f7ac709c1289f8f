-- ===== src/Struct/MinHeap/Push.antt =====
-- MinHeap_push keeps the heap order and the entries.
use Prim.Native.Nat.{◌<◌}
use vexspoke.Base.{
  ℕ, ◌+◌, ◌/◌, ◌≤◌, ◌≡◌, ◌≢◌, refl, sym, ap, ◌⊎◌, inl, inr, List, Bool, true, false, not, leb,
  length, length-set, set as set_elem, Bool-cases, arith,
}
use vexspoke.Struct.MinHeap.{Entry, MinHeap, sift_up, push}
use vexspoke.Struct.MinHeap.Order.{at, IsHeap, at_set, at_other, Hole}
use vexspoke.Struct.MinHeap.Up.{fill_up-IsHeap}
use vexspoke.Struct.MinHeap.Contents.{
  bit, tally, tally_outside, tally_at, tally-fill_up, length-fill_up,
}
use vexspoke.Struct.MinHeap.Valid.{IsValid}
use vexspoke.Struct.Exhaustion.{report}

module _ {P : Type 0} (blank : Entry P) (le lt : P → P → Bool)
    (total : (a b : P) → (le a b ≡ true) ⊎ (le b a ≡ true))
    (trans : (a b c : P) → le a b ≡ true → le b c ≡ true → le a c ≡ true)
    (strict : (a b : P) → lt a b ≡ not (le b a)) where
  abbrev pub new_entry : ℕ → P → Entry P
  new_entry item priority = record { item = item; priority = priority }

  placed-Hole :
      (n : ℕ) (e : Entry P) (xs : List (Entry P))
      → n + 1 < length xs
      → IsHeap blank le lt total trans strict n xs
      → Hole blank le lt total trans strict (n + 1) (n + 1) (set_elem xs (n + 1) e)
  placed-Hole n e xs low heap = record {
    inside = omega (arith, low, length-set xs (n + 1) e);
    positive = omega arith;
    low = omega arith;
    others = λ i two h ne ne'.
        let away : n + 1 ≢ i = λ q. ne (sym q) in
        let away' : n + 1 ≢ i / 2 = λ q. ne' (sym q) in
        rw
          (
            at_other blank le lt total trans strict xs (n + 1) i e away,
            at_other blank le lt total trans strict xs (n + 1) (i / 2) e away',
          )
          (heap i two (omega (arith, h, ne)));
    across = λ i two h q. absurd (omega (arith, two, h, q));
  }

  -- What MinHeap_push leaves where it has room.
  pub record Pushed (item : ℕ) (priority : P) (heap after : MinHeap P) : Type 0 where
    pub valid : IsValid blank le lt total trans strict after
    pub one_more : after.size ≡ heap.size + 1
    pub capacity_same : after.capacity ≡ heap.capacity
    pub exhaustion_same : after.exhaustion ≡ heap.exhaustion
    pub added :
        (f : Entry P → Bool)
        → tally blank le lt f after.size after.entries
          ≡ tally blank le lt f heap.size heap.entries
            + bit (f (record { item = item; priority = priority }))

  pushed :
      (item : ℕ) (priority : P) (heap : MinHeap P)
      → IsValid blank le lt total trans strict heap
      → heap.size < heap.capacity
      → Pushed item priority heap (record heap {
        size = heap.size + 1;
        entries =
            sift_up blank le lt
              (heap.size + 1)
              (set_elem heap.entries (heap.size + 1) (record { item = item; priority = priority }));
      })
  pushed item priority heap valid free =
      let n = heap.size in
      let e = new_entry item priority in
      let xs = set_elem heap.entries (n + 1) e in
      let low : n + 1 < length heap.entries = omega (arith, valid.room, free) in
      let hole = placed-Hole n e heap.entries low valid.ordered in
      record {
        valid = record {
          fits = omega (arith, free);
          room = omega (
            arith,
            valid.room,
            length-fill_up blank le lt (λ _. true) (n + 1) (n + 1)
                (at blank le lt total trans strict xs (n + 1)) xs,
            length-set heap.entries (n + 1) e,
          );
          ordered =
              fill_up-IsHeap blank le lt total trans strict (n + 1) (n + 1) (n + 1)
                (at blank le lt total trans strict xs (n + 1)) xs (omega arith) hole
                (λ i h q. absurd (omega (arith, h, q)));
        };
        one_more = refl;
        capacity_same = refl;
        exhaustion_same = refl;
        added = λ f.
            let here = at_set blank le lt total trans strict heap.entries (n + 1) e low in
            let same = ap (λ (y : Entry P). bit (f y)) here in
            let moved =
              tally-fill_up blank le lt f (n + 1) (n + 1) (n + 1)
                (at blank le lt total trans strict xs (n + 1)) xs (omega arith) (omega arith)
                hole.inside in
            let before = tally_at blank le lt f n xs in
            let out = tally_outside blank le lt f n (n + 1) e heap.entries (omega arith) in
            omega (arith, same, moved, before, out);
      }

  -- MinHeap_push on a valid heap: without room it is refused, and the heap is as it was but for its
  -- account of refusals, which counts one more; else the heap stays valid, each test accepts one entry
  -- more exactly if it accepts the new one, and the capacity and the account are as they were.
  pub push_outcome :
      (item : ℕ) (priority : P) (heap : MinHeap P)
      → IsValid blank le lt total trans strict heap
      → let result = push blank le lt item priority heap in
        ((heap.capacity ≤ heap.size)
          × (result.1 ≡ false)
          × IsValid blank le lt total trans strict result.0
          × (result.0 ≡ record heap { exhaustion = (report heap.exhaustion).0 }))
        ⊎ ((heap.size < heap.capacity) × (result.1 ≡ true) × Pushed item priority heap result.0)
  unfolding push
  push_outcome item priority heap valid = elim (Bool-cases (leb heap.capacity heap.size)) [
    | inl t ↦ inl (
        rw (push, t)
          (
            ground (arith, t),
            refl,
            record { fits = valid.fits; room = valid.room; ordered = valid.ordered },
            refl,
          ))
    | inr f ↦
        let free : heap.size < heap.capacity = ground (arith, f) in
        inr (rw (push, f) (free, refl, pushed item priority heap valid free))
  ]
