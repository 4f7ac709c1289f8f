-- ===== src/Struct/Deque/Cells.antt =====
-- The words of a circular buffer, by their logical index, and what each operation does to them
-- where the buffer need not grow.
use vexspoke.Base.{
  ℕ, suc, ◌+◌, ◌-◌, ◌%◌, ◌^◌, ◌≤◌, ◌<◌, ◌≡◌, ◌≢◌, ◌∙◌, sym, refl, ap, List, [], ◌∷◌, ◌++◌, arith,
  leb, true, false, ◌==◌, get_or, get_or-set_self, get_or-set_ne, get_or-tabulate, get_or_past,
  length, length-set, length-tabulate, tabulate, tabulate-ext, tabulate-shift, tabulate-suc, u32,
  u64, ◌⊎◌, Bool-cases, inl, inr, set as set_elem,
}
use mathlib.Core.Path.{ap₂}
use native.Mathlib.Nat.{zero-add, add-zero, mod-eq_of_lt, mod-eq-sub-mod}
use native.Mathlib.Decide.{dec_lt}
use vexspoke.Struct.Collection.{Collection, word_mod, read_slot_at, write_slot_at}
use vexspoke.Struct.Collection.Bounds.{IsValid, read_slot_of_lt, write_slot_of_lt}
use vexspoke.Struct.Collection.Slots.{read_slot_at-write_slot_at}
use vexspoke.Struct.Deque.{
  put_first, put_last, remove_first, remove_last, peek_first, peek_last, get, slot_before,
  slot_after, slot_last,
}

pub record IsRing (c : Collection) : Type 0 where
  pub valid : IsValid c
  pub head_in : c.head < c.capacity
  pub half : c.capacity ≤ 2 ^ 31

-- The word at a physical slot, and at a logical index.
abbrev pub at_slot : Collection → ℕ → ℕ
at_slot c k = read_slot_at (get_or c.data_buffer k 0) c.stride

abbrev pub word_at : Collection → ℕ → ℕ
word_at c i = at_slot c ((c.head + i) % c.capacity)

abbrev pub contents : Collection → List ℕ
contents c = tabulate (word_at c) 0 c.active_count

-- Going round at most once.
pub mod_cases :
    (n cap : ℕ) → n < cap + cap → ((n < cap) × (n % cap ≡ n)) ⊎ ((cap ≤ n) × (n % cap ≡ n - cap))
mod_cases n cap h = elim (dec_lt n cap) [
  | yes p ↦ inl (p, mod-eq_of_lt p)
  | no p ↦ inr (
    omega arith,
    mod-eq-sub-mod {n = n} {m = cap} (omega arith)
        ∙ mod-eq_of_lt {n = n - cap} {m = cap} (omega arith),
  )
]

-- Two logical indices below the capacity lie in different slots.
pub slots_differ : {cap h i j : ℕ} → h < cap → i < cap → j < i → (h + i) % cap ≢ (h + j) % cap
slots_differ {cap} {h} {i} {j} p q r = omega (arith, mod_cases (h + i) cap, mod_cases (h + j) cap)

module _ {c : Collection} (v : IsRing c) where
  -- A written slot reads as the value; the others are as before.
  abbrev written : ℕ → ℕ → Collection
  written p x = record c {
    data_buffer = set_elem c.data_buffer p (write_slot_at (get_or c.data_buffer p 0) c.stride x);
  }

  written_self :
      (p k x : ℕ) → p < c.capacity → k ≡ p → at_slot (written p x) k ≡ x % word_mod c.stride
  written_self p k x h e =
      rw
        (
          e,
          get_or-set_self c.data_buffer p (write_slot_at (get_or c.data_buffer p 0) c.stride x) 0
              (omega arith),
        )
        (read_slot_at-write_slot_at _ _ _)

  written_ne : (p k x : ℕ) → k ≢ p → at_slot (written p x) k ≡ at_slot c k
  written_ne p k x h = rw (
      get_or-set_ne c.data_buffer {i = p} {j = k}
        (write_slot_at (get_or c.data_buffer p 0) c.stride x) 0 (λ e. h (sym e)))

  slot_after_lem : slot_after c ≡ (c.head + c.active_count) % c.capacity
  slot_after_lem = ap (λ n. n % c.capacity) (omega arith)

  slot_after-lt : slot_after c < c.capacity
  slot_after-lt = omega arith

  slot_before_lem : slot_before c ≡ (c.head + c.capacity - 1) % c.capacity
  slot_before_lem = ap (λ n. n % c.capacity) (omega arith)

  slot_before-lt : slot_before c < c.capacity
  slot_before-lt = omega arith

  module _ (x : ℕ) (room : c.active_count < c.capacity) where
    abbrev last_written : Collection
    last_written = record c {
      data_buffer =
          set_elem c.data_buffer (slot_after c)
            (write_slot_at (get_or c.data_buffer (slot_after c) 0) c.stride x);
      active_count = suc c.active_count;
    }

    put_last_lem : put_last c x ≡ last_written
    unfolding put_last
    put_last_lem =
        let count : u32 (c.active_count + 1) ≡ suc c.active_count = omega arith in
        rw (write_slot_of_lt v.valid (slot_after c) slot_after-lt x, count)

    pub put_last-IsRing : IsRing (put_last c x)
    put_last-IsRing = rw put_last_lem (
        ground (
          arith,
          length-set c.data_buffer (slot_after c)
              (write_slot_at (get_or c.data_buffer (slot_after c) 0) c.stride x),
        ))

    pub contents-put_last : contents (put_last c x) ≡ contents c ++ (x % word_mod c.stride ∷ [])
    contents-put_last = rw put_last_lem (
        tabulate-suc (word_at last_written) 0 c.active_count
        ∙ ap₂ (λ words word. words ++ (word ∷ []))
            (tabulate-ext (word_at last_written) (word_at c) 0 c.active_count (λ k h.
              written_ne (slot_after c) ((c.head + (0 + k)) % c.capacity) x (λ e.
                slots_differ v.head_in room h
                  (sym slot_after_lem ∙ sym e ∙ ap (λ n. (c.head + n) % c.capacity) (zero-add _)))))
            (written_self (slot_after c) ((c.head + (0 + c.active_count)) % c.capacity) x
              slot_after-lt
              (ap (λ n. (c.head + n) % c.capacity) (zero-add _) ∙ sym slot_after_lem)))

    abbrev first_written : Collection
    first_written = record c {
      data_buffer =
          set_elem c.data_buffer (slot_before c)
            (write_slot_at (get_or c.data_buffer (slot_before c) 0) c.stride x);
      head = slot_before c;
      active_count = suc c.active_count;
    }

    put_first_lem : put_first c x ≡ first_written
    unfolding put_first
    put_first_lem =
        let count : u32 (c.active_count + 1) ≡ suc c.active_count = omega arith in
        let at : u32 (slot_before c) ≡ slot_before c = omega (arith, slot_before-lt) in
        rw (count, at)

    pub put_first-IsRing : IsRing (put_first c x)
    put_first-IsRing = rw put_first_lem (
        ground (
          arith,
          slot_before-lt,
          length-set c.data_buffer (slot_before c)
              (write_slot_at (get_or c.data_buffer (slot_before c) 0) c.stride x),
        ))

    -- Behind the new head lie the old indices.
    behind_head :
        (k : ℕ) → k < c.capacity → (slot_before c + suc k) % c.capacity ≡ (c.head + k) % c.capacity
    behind_head k h = omega (
      arith,
      slot_before_lem,
      mod_cases (c.head + c.capacity - 1) c.capacity,
      mod_cases (slot_before c + suc k) c.capacity,
      mod_cases (c.head + k) c.capacity,
    )

    before_head : (k : ℕ) → k < c.active_count → (c.head + k) % c.capacity ≢ slot_before c
    before_head k h = omega (
      arith,
      slot_before_lem,
      mod_cases (c.head + c.capacity - 1) c.capacity,
      mod_cases (c.head + k) c.capacity,
    )

    shifted : (k : ℕ) → k < c.active_count → word_at first_written (suc (0 + k)) ≡ word_at c (0 + k)
    shifted k h = rw zero-add (
        ap (at_slot first_written) (behind_head k (omega arith))
        ∙ written_ne (slot_before c) ((c.head + k) % c.capacity) x (before_head k h))

    pub contents-put_first : contents (put_first c x) ≡ (x % word_mod c.stride) ∷ contents c
    contents-put_first = rw put_first_lem (
        ap₂ ◌∷◌
          (written_self (slot_before c) ((slot_before c + 0) % c.capacity) x slot_before-lt
            (rw add-zero (mod-eq_of_lt slot_before-lt)))
          (tabulate-shift (word_at first_written) 0 c.active_count
            ∙ tabulate-ext (λ k. word_at first_written (suc k)) (word_at c) 0 c.active_count
                (λ k h. shifted k h)))

  module _ (some_left : c.active_count ≢ 0) where
    abbrev rest : Collection
    rest = record c { head = (c.head + 1) % c.capacity; active_count = c.active_count - 1 }

    remove_first_lem : remove_first c ≡ (word_at c 0, rest)
    unfolding remove_first
    remove_first_lem =
        let nonzero : (c.active_count == 0) ≡ false = ground arith in
        let next : u32 (c.head + 1) ≡ c.head + 1 = omega arith in
        let at : (c.head + 0) % c.capacity ≡ c.head =
          omega (arith, mod_cases (c.head + 0) c.capacity) in
        rw (nonzero, next, read_slot_of_lt v.valid c.head v.head_in, at)

    next-lt : (c.head + 1) % c.capacity < c.capacity
    next-lt = omega arith

    pub remove_first-IsRing : IsRing (remove_first c).1
    remove_first-IsRing = rw remove_first_lem (ground (arith, next-lt))

    one_more : c.active_count ≡ suc (c.active_count - 1)
    one_more = omega arith

    next_slot :
        (k : ℕ)
        → k < c.active_count - 1
        → (c.head + suc k) % c.capacity ≡ ((c.head + 1) % c.capacity + k) % c.capacity
    next_slot k h = omega (
      arith,
      mod_cases (c.head + suc k) c.capacity,
      mod_cases (c.head + 1) c.capacity,
      mod_cases ((c.head + 1) % c.capacity + k) c.capacity,
    )

    pub contents-remove_first : contents c ≡ (remove_first c).0 ∷ contents (remove_first c).1
    contents-remove_first = rw remove_first_lem (
        ap (λ n. tabulate (word_at c) 0 n) one_more
        ∙ ap (◌∷◌ (word_at c 0)) (
            tabulate-shift (word_at c) 0 (c.active_count - 1)
            ∙ tabulate-ext (λ k. word_at c (suc k)) (word_at rest) 0 (c.active_count - 1)
                (λ k h. rw zero-add (ap (at_slot c) (next_slot k h)))))

    abbrev front : Collection
    front = record c { active_count = c.active_count - 1 }

    slot_last_lem : slot_last c ≡ (c.head + (c.active_count - 1)) % c.capacity
    slot_last_lem = ap (λ n. n % c.capacity) (omega arith)

    slot_last-lt : slot_last c < c.capacity
    slot_last-lt = omega arith

    remove_last_lem : remove_last c ≡ (word_at c (c.active_count - 1), front)
    unfolding remove_last
    remove_last_lem =
        let nonzero : (c.active_count == 0) ≡ false = ground arith in
        rw (nonzero, read_slot_of_lt v.valid (slot_last c) slot_last-lt, slot_last_lem)

    pub remove_last-IsRing : IsRing (remove_last c).1
    remove_last-IsRing = rw remove_last_lem (ground arith)

    pub contents-remove_last : contents c ≡ contents (remove_last c).1 ++ ((remove_last c).0 ∷ [])
    contents-remove_last = rw remove_last_lem (
        ap (λ n. tabulate (word_at c) 0 n) one_more
        ∙ tabulate-suc (word_at c) 0 (c.active_count - 1)
        ∙ ap (λ k. tabulate (word_at c) 0 (c.active_count - 1) ++ (word_at c k ∷ [])) (zero-add _))

    pub peeks_lem : (peek_first c ≡ (remove_first c).0) × (peek_last c ≡ (remove_last c).0)
    unfolding peek_first peek_last remove_first remove_last
    peeks_lem = ground arith

  pub remove_empty :
      c.active_count ≡ 0 → (remove_first c ≡ (0, c)) × (remove_last c ≡ (0, c)) × (contents c ≡ [])
  unfolding remove_first remove_last
  remove_empty e =
      let nothing : (c.active_count == 0) ≡ true = ground arith in
      (rw nothing, rw nothing, ap (λ n. tabulate (word_at c) 0 n) e)

  pub length-contents : length (contents c) ≡ c.active_count
  length-contents = length-tabulate (word_at c) 0 c.active_count

  pub get-contents : (i : ℕ) → get c i ≡ get_or (contents c) i 0
  unfolding get
  get-contents i = elim (Bool-cases (leb c.active_count i)) [
    | inl past ↦ rw past (sym (get_or_past (contents c) i 0 (rw length-contents (ground arith))))
    | inr below ↦
        let in_range : i < c.active_count = ground arith in
        let whole : u64 (c.head + i) ≡ c.head + i = omega arith in
        rw (below, whole, read_slot_of_lt v.valid ((c.head + i) % c.capacity) (omega arith))
          (sym (
            get_or-tabulate (word_at c) 0 c.active_count i 0 in_range
            ∙ ap (word_at c) (zero-add _)))
  ]

-- No operation touches the stride, and each counts one up or down.
module _ {c : Collection} (v : IsRing c) (x : ℕ) (room : c.active_count < c.capacity) where
  pub put_first_fields :
      ((put_first c x).stride ≡ c.stride) × ((put_first c x).active_count ≡ c.active_count + 1)
  put_first_fields = rw (put_first_lem v x room) (refl, omega arith)

  pub put_last_fields :
      ((put_last c x).stride ≡ c.stride) × ((put_last c x).active_count ≡ c.active_count + 1)
  put_last_fields = rw (put_last_lem v x room) (refl, omega arith)

pub remove_fields :
    (c : Collection)
    → ((remove_first c).1.stride ≡ c.stride)
      × ((remove_first c).1.active_count ≤ c.active_count)
      × ((remove_last c).1.stride ≡ c.stride)
      × ((remove_last c).1.active_count ≤ c.active_count)
unfolding remove_first remove_last
remove_fields c = ground arith
