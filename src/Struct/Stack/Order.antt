-- ===== src/Struct/Stack/Order.antt =====
-- Last in, first out.
use vexspoke.Base.{
  ℕ, suc, ◌-◌, ◌*◌, ◌%◌, ◌^◌, ◌≤◌, ◌<◌, ◌≡◌, ◌≢◌, ◌⊎◌, ◌∙◌, inl, inr, refl, ap, none, some, [], ◌∷◌,
  ◌++◌, arith, leb, ltb, true, false, Bool-cases, Option-cases, get_or, u64, ◌==◌,
}
use mathlib.Core.Path.{ap₂}
use native.Mathlib.Decide.{dec_lt}
use vexspoke.Struct.Arena.{Arena, buffer}
use vexspoke.Struct.Collection.{Collection, word_mod, read_slot_at, report_exhaustion}
use vexspoke.Struct.Collection.Bounds.{IsValid, read_slot_of_lt}
use vexspoke.Struct.Collection.Slots.{words, words-suc}
use vexspoke.Struct.ArrayList.{regrow}
use vexspoke.Struct.ArrayList.Contents.{
  contents, contents-append, append-IsValid, regrow_granted, regrow-IsValid, contents-regrow,
  regrow_fields,
}
use vexspoke.Struct.Stack.{
  TryValue, ok, overflow, no_memory, push_word, after_growth, push_try, pop, peek,
}

-- A push that succeeded: what is on the stack, and that it stays valid.
pub record Pushed (c : Collection) (value : ℕ) (after : TryValue × Collection) : Type 0 where
  pub replied : after.0 ≡ ok value
  pub valid : IsValid after.1
  pub on_top : contents after.1 ≡ contents c ++ (value % word_mod c.stride ∷ [])

push_word-Pushed :
    {c : Collection} (value : ℕ)
    → IsValid c
    → c.active_count < c.capacity
    → Pushed c value (push_word c value)
unfolding push_word
push_word-Pushed value v room = record {
  replied = refl;
  valid = append-IsValid v value room;
  on_top = contents-append v value room;
}

-- The three branches of Stack_pushTry.
push_try_roomy :
    (arena : Arena) (c : Collection) (value : ℕ)
    → leb c.capacity c.active_count ≡ false
    → push_try arena c value ≡ push_word c value
unfolding push_try
push_try_roomy arena c value below = rw below

push_try_grown :
    (arena : Arena) {c : Collection} (value : ℕ)
    → IsValid c
    → leb c.capacity c.active_count ≡ true
    → c.capacity < 2 ^ 31
    → push_try arena c value ≡ after_growth (regrow arena c (c.capacity * 2)) value
unfolding push_try
push_try_grown arena {c} value v full small =
    let nonzero : (c.capacity == 0) ≡ false = ground arith in
    let doubled : u64 (c.capacity * 2) ≡ c.capacity * 2 = omega arith in
    let fits : ltb (2 ^ 32 - 1) (c.capacity * 2) ≡ false = ground arith in
    rw (full, nonzero, doubled, fits)

push_try_overflow :
    (arena : Arena) {c : Collection} (value : ℕ)
    → IsValid c
    → leb c.capacity c.active_count ≡ true
    → 2 ^ 31 ≤ c.capacity
    → push_try arena c value ≡ (overflow, c)
unfolding push_try
push_try_overflow arena {c} value v full large =
    let nonzero : (c.capacity == 0) ≡ false = ground arith in
    let past : ltb (2 ^ 32 - 1) (u64 (c.capacity * 2)) ≡ true = ground arith in
    rw (full, nonzero, past)

regrow-none :
    (arena : Arena) (c : Collection) (cap : ℕ)
    → arena.alloc (buffer c.element_class (u64 (cap * c.stride))) ≡ none
    → regrow arena c cap ≡ (false, report_exhaustion c)
unfolding regrow
regrow-none arena c cap refused = rw (regrow, refused)

module _ (arena : Arena) {c : Collection} (value : ℕ) (v : IsValid c)
    (fits : c.active_count * c.stride < 2 ^ 32) (full : leb c.capacity c.active_count ≡ true)
    (small : c.capacity < 2 ^ 31) where
  grown-Pushed :
      (block : ℕ → ℕ)
      → arena.alloc (buffer c.element_class (u64 (c.capacity * 2 * c.stride))) ≡ some block
      → Pushed c value (push_try arena c value)
  unfolding after_growth
  grown-Pushed block granted =
      let at_end : c.active_count ≡ c.capacity = ground arith in
      let c' : Collection = (regrow arena c (c.capacity * 2)).1 in
      let fields = regrow_fields v at_end small fits arena block granted in
      let p =
        push_word-Pushed {c = c'} value (regrow-IsValid v at_end small fits arena block granted)
          (omega arith) in
      rw
        (
          push_try_grown arena value v full small,
          regrow_granted v at_end small fits arena block granted,
        )
        (record {
          replied = p.replied;
          valid = p.valid;
          on_top =
              p.on_top
              ∙ ap₂ (λ words stride. words ++ (value % word_mod stride ∷ []))
                  (contents-regrow v at_end small fits arena block granted) fields.2;
        })

  refused-push :
      arena.alloc (buffer c.element_class (u64 (c.capacity * 2 * c.stride))) ≡ none
      → push_try arena c value ≡ (no_memory, report_exhaustion c)
  unfolding after_growth
  refused-push refused =
      rw (push_try_grown arena value v full small, regrow-none arena c (c.capacity * 2) refused)

-- For a valid stack whose live bytes number below 2^32, Stack_pushTry either puts the value, cut
-- to the width of the element class, on top and keeps the stack valid; or reports that memory was
-- refused, and changes only the exhaustion account; or reports an overflow, only at a full stack
-- of 2^31 slots or more, and changes nothing.
pub push_try_outcome :
    (arena : Arena) {c : Collection} (value : ℕ)
    → IsValid c
    → c.active_count * c.stride < 2 ^ 32
    → Pushed c value (push_try arena c value)
      ⊎ ((push_try arena c value ≡ (no_memory, report_exhaustion c))
          ⊎ ((push_try arena c value ≡ (overflow, c))
              × (2 ^ 31 ≤ c.capacity)
              × (c.active_count ≡ c.capacity)))
push_try_outcome arena {c} value v fits = elim (Bool-cases (leb c.capacity c.active_count)) [
  | inr below ↦
      inl (rw (push_try_roomy arena c value below) (push_word-Pushed value v (ground arith)))
  | inl full ↦ elim (dec_lt c.capacity (2 ^ 31)) [
    | yes small ↦
        elim (Option-cases
          (arena.alloc (buffer c.element_class (u64 (c.capacity * 2 * c.stride))))) [
            | inl refused ↦ inr (inl (refused-push arena value v fits full small refused))
            | inr (block, granted) ↦ inl (grown-Pushed arena value v fits full small block granted)
          ]
    | no large ↦
        inr (inr (push_try_overflow arena value v full (omega arith), omega arith, ground arith))
  ]
]

module _ {c : Collection} (v : IsValid c) (some_left : c.active_count ≢ 0) where
  abbrev top : ℕ
  top = read_slot_at (get_or c.data_buffer (c.active_count - 1) 0) c.stride

  abbrev popped : Collection
  popped = record c { active_count = c.active_count - 1 }

  popped-IsValid : IsValid popped
  popped-IsValid = omega arith

  pop_lem : pop c ≡ (top, popped)
  unfolding pop
  pop_lem =
      let nonzero : (c.active_count == 0) ≡ false = ground arith in
      rw (nonzero, read_slot_of_lt popped-IsValid (c.active_count - 1) (omega arith))

  peek_lem : peek c ≡ top
  unfolding peek
  peek_lem =
      let nonzero : (c.active_count == 0) ≡ false = ground arith in
      rw (nonzero, read_slot_of_lt v (c.active_count - 1) (omega arith))

  contents-popped : contents c ≡ contents popped ++ (top ∷ [])
  contents-popped =
      let one_more : c.active_count ≡ suc (c.active_count - 1) = omega arith in
      ap (λ k. words c.stride k c.data_buffer) one_more
      ∙ words-suc c.stride (c.active_count - 1) c.data_buffer (omega arith)

-- Popping a stack that is not empty takes its last word off and returns it; peeking returns that word.
pop_last :
    {c : Collection}
    → IsValid c
    → c.active_count ≢ 0
    → (contents c ≡ contents (pop c).1 ++ ((pop c).0 ∷ []))
      × (peek c ≡ (pop c).0)
      × IsValid (pop c).1
pop_last v some_left =
    rw (pop_lem v some_left, peek_lem v some_left)
      (contents-popped v some_left, refl, popped-IsValid v some_left)
