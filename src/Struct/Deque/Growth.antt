-- ===== src/Struct/Deque/Growth.antt =====
-- Growing a full circular buffer keeps its words, in their order, and starts them at slot 0.
use mathlib.Core.List.{append-nil}
use native.Mathlib.Decide.{dec_lt}
use native.Mathlib.Nat.{zero-add, mod-eq_of_lt}
use vexspoke.Base.{
  ℕ, ◌+◌, ◌-◌, ◌*◌, ◌%◌, ◌^◌, ◌≤◌, ◌<◌, ◌≡◌, ◌∙◌, sym, refl, ap, none, some, List, ◌++◌, arith, ltb,
  true, false, ◌==◌, Bool-cases, inl, inr, get_or, get_or-append_left, get_or-append_right,
  get_or-take, get_or-drop, length, length-append, length-take, length-drop, length-tabulate,
  tabulate, tabulate-ext, take, drop, u32, u64,
}
use vexspoke.Struct.Arena.{Arena, buffer}
use vexspoke.Struct.Collection.{Collection, report_exhaustion, read_slot_at}
use vexspoke.Struct.Deque.{ensure_capacity, unrolled, unrolled_count}
use vexspoke.Struct.Deque.Cells.{IsRing, word_at, contents, mod_cases}

-- From slot 0 on there is one run.
roll_zero : (n h : ℕ) (xs : List ℕ) → h ≡ 0 → take n xs ≡ take (n - h) (drop h xs) ++ take h xs
roll_zero n h xs e = let whole : n - 0 ≡ n = omega arith in rw (e, whole, append-nil)

module _ {c : Collection} (v : IsRing c) (full : c.active_count ≡ c.capacity) where
  -- The two copies, or the one where the head is at slot 0, follow the logical order.
  abbrev rolled : List ℕ
  rolled = take (c.capacity - c.head) (drop c.head c.data_buffer) ++ take c.head c.data_buffer

  unrolled_lem : (unrolled c ≡ rolled) × (unrolled_count c ≡ c.capacity)
  unfolding unrolled unrolled_count
  unrolled_lem =
      let nonzero : (c.active_count == 0) ≡ false = ground arith in
      elim (Bool-cases (c.head == 0)) [
        | inl start ↦
            rw (nonzero, start)
              (
                ap (λ n. take n c.data_buffer) full
                    ∙ roll_zero c.capacity c.head c.data_buffer (ground arith),
                full,
              )
        | inr turned ↦ rw (nonzero, turned) (refl, refl)
      ]

  length-rolled : length rolled ≡ c.capacity
  length-rolled = simp (length-append, length-take, length-drop) (omega arith)

  get_or-rolled :
      (k : ℕ)
      → k < c.capacity
      → get_or rolled k 0 ≡ get_or c.data_buffer ((c.head + k) % c.capacity) 0
  get_or-rolled k h =
      let first = take (c.capacity - c.head) (drop c.head c.data_buffer) in
      let second = take c.head c.data_buffer in
      let size : length first ≡ c.capacity - c.head =
        simp (length-take, length-drop) (omega arith) in
      elim (dec_lt k (c.capacity - c.head)) [
        | yes p ↦
            let at : (c.head + k) % c.capacity ≡ c.head + k = mod-eq_of_lt (omega arith) in
            rw (
              at,
              get_or-append_left first second k 0 (omega arith),
              get_or-take (c.capacity - c.head) (drop c.head c.data_buffer) k 0 p,
              get_or-drop c.head c.data_buffer k 0,
            )
        | no p ↦
            let at : (c.head + k) % c.capacity ≡ k - (c.capacity - c.head) =
              omega (arith, mod_cases (c.head + k) c.capacity) in
            rw (
              at,
              get_or-append_right first second k 0 (omega arith),
              size,
              get_or-take c.head c.data_buffer (k - (c.capacity - c.head)) 0 (omega arith),
            )
      ]

  module _ (room : c.capacity ≤ 2 ^ 30) (arena : Arena) (block : ℕ → ℕ)
      (granted : arena.alloc (buffer c.element_class (u64 (c.capacity * 2 * c.stride)))
        ≡ some block) where
    abbrev pub grown : Collection
    grown = record c {
      data_buffer = rolled ++ drop c.capacity (tabulate block 0 (c.capacity * 2));
      capacity = c.capacity * 2;
      head = 0;
    }

    pub ensure_capacity_grows : ensure_capacity arena c ≡ (true, grown)
    unfolding ensure_capacity
    ensure_capacity_grows =
        let doubled : u32 (c.capacity * 2) ≡ c.capacity * 2 = omega arith in
        let no_room : ltb c.active_count c.capacity ≡ false = ground arith in
        rw (no_room, doubled, granted, unrolled_lem.0, unrolled_lem.1, doubled)

    pub grown-IsRing : IsRing grown
    grown-IsRing =
        let sized : length (rolled ++ drop c.capacity (tabulate block 0 (c.capacity * 2)))
            ≡ c.capacity * 2 =
          rw (length-append, length-rolled, length-drop, length-tabulate) (omega arith) in
        ground arith

    pub contents-grown : contents grown ≡ contents c
    contents-grown = tabulate-ext (word_at grown) (word_at c) 0 c.active_count λ k h.
        let plain : 0 + (0 + k) ≡ k = omega arith in
        let within : (0 + (0 + k)) % (c.capacity * 2) ≡ k = rw plain (mod-eq_of_lt (omega arith)) in
        let rest = drop c.capacity (tabulate block 0 (c.capacity * 2)) in
        ap (λ slot. read_slot_at slot c.stride)
          (ap (λ i. get_or (rolled ++ rest) i 0) within
            ∙ get_or-append_left rolled rest k 0 (rw length-rolled (omega arith))
            ∙ get_or-rolled k (omega arith)
            ∙ ap (λ i. get_or c.data_buffer ((c.head + i) % c.capacity) 0) (sym (zero-add k)))

  pub ensure_capacity_refused :
      (arena : Arena)
      → c.capacity ≤ 2 ^ 30
      → arena.alloc (buffer c.element_class (u64 (c.capacity * 2 * c.stride))) ≡ none
      → ensure_capacity arena c ≡ (false, report_exhaustion c)
  unfolding ensure_capacity
  ensure_capacity_refused arena room refused =
      let doubled : u32 (c.capacity * 2) ≡ c.capacity * 2 = omega arith in
      let no_room : ltb c.active_count c.capacity ≡ false = ground arith in
      rw (no_room, doubled, refused)

pub ensure_capacity_roomy :
    (arena : Arena) (c : Collection)
    → c.active_count < c.capacity
    → ensure_capacity arena c ≡ (true, c)
unfolding ensure_capacity
ensure_capacity_roomy arena c h =
    let room : ltb c.active_count c.capacity ≡ true = ground arith in rw room
