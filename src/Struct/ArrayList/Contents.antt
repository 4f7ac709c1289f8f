-- ===== src/Struct/ArrayList/Contents.antt =====
-- What a list holds, as a sequence of words, and what each operation does to it.
use vexspoke.Base.{
  ℕ, zero, suc, ◌+◌, ◌-◌, ◌*◌, ◌%◌, ◌^◌, ◌≤◌, ◌<◌, ◌≡◌, ap, none, some, List, [], ◌∷◌, ◌++◌, arith,
  ◌==◌, leb, ltb, true, false, if◌then◌else◌, get_or, get_or_past, set_past, set as set_elem, take,
  drop, take-append-drop, length-drop, erase_at_past, length, length-set, length-append,
  length-take, length-tabulate, tabulate, Bool-cases, inl, inr, u32, u64, erase_at,
}
use native.Mathlib.Nat.{add-zero}
use vexspoke.Struct.Arena.{Arena, buffer, Request}
use vexspoke.Struct.Collection.{
  Collection, word_mod, read_slot_at, write_slot_at, report_exhaustion,
}
use vexspoke.Struct.Collection.Bounds.{IsValid, read_slot_of_lt, write_slot_of_lt}
use vexspoke.Struct.Collection.Bytes.{copy_bytes-mul}
use vexspoke.Struct.Collection.Slots.{
  words, get_or-words, words-set, words-set_end, words-take_append, read_slot_at-write_slot_at,
  length-words,
}
use vexspoke.Struct.ArrayList.{
  append, add, get, set, remove, buffer_grow, regrow, double_until, move_slots,
}

-- The words that the list holds, in order.
abbrev pub contents : Collection → List ℕ
contents c = words c.stride c.active_count c.data_buffer

module _ {c : Collection} (v : IsValid c) where
  pub length-contents : length (contents c) ≡ c.active_count
  length-contents = length-words c.stride c.active_count c.data_buffer (omega arith)

  pub get-contents : (i : ℕ) → get c i ≡ get_or (contents c) i 0
  unfolding get
  get-contents i = ground (
    arith,
    length-contents,
    get_or_past (contents c) i 0,
    read_slot_of_lt v i,
    get_or-words c.stride c.active_count i c.data_buffer,
  )

  pub contents-set :
      (i x : ℕ) → contents (set c i x) ≡ set_elem (contents c) i (x % word_mod c.stride)
  unfolding set
  contents-set i x = elim (Bool-cases (leb c.active_count i)) [
    | inl past ↦
        rw past (ground (arith, length-contents, set_past (contents c) i (x % word_mod c.stride)))
    | inr below ↦ rw (
      below,
      write_slot_of_lt v i (ground arith) x,
      words-set c.stride c.active_count i (write_slot_at (get_or c.data_buffer i 0) c.stride x)
          c.data_buffer (omega arith) (ground arith),
      read_slot_at-write_slot_at,
    )
  ]

  pub contents-append :
      (x : ℕ)
      → c.active_count < c.capacity
      → contents (append c x) ≡ contents c ++ (x % word_mod c.stride ∷ [])
  unfolding append
  contents-append x h =
      let next : u32 (c.active_count + 1) ≡ suc c.active_count = omega arith in
      rw (
        write_slot_of_lt,
        next,
        words-set_end c.stride c.active_count
            (write_slot_at (get_or c.data_buffer c.active_count 0) c.stride x) c.data_buffer
            (omega arith),
        read_slot_at-write_slot_at,
      )

  pub append-IsValid : (x : ℕ) → c.active_count < c.capacity → IsValid (append c x)
  unfolding append
  append-IsValid x h = rw write_slot_of_lt (
      ground (
        arith,
        length-set c.data_buffer c.active_count
            (write_slot_at (get_or c.data_buffer c.active_count 0) c.stride x),
      ))

-- With room for twice the slots, one doubling makes room for one more.
double_until_once :
    (fuel cap needed : ℕ)
    → 0 < cap
    → cap < 2 ^ 32
    → needed ≤ cap * 2
    → double_until (suc (suc fuel)) cap needed ≡ some (if ltb cap needed then cap * 2 else cap)
unfolding double_until
double_until_once fuel cap needed p s h = ground arith

-- A full list that may still be doubled.
module _ {c : Collection} (v : IsValid c) (full : c.active_count ≡ c.capacity)
    (half : c.capacity ≤ 2 ^ 31) (arena : Arena) where
  abbrev pub request : Request
  request = buffer c.element_class (u64 (c.capacity * 2 * c.stride))

  buffer_grow_doubles :
      buffer_grow arena c (u32 (c.active_count + 1)) ≡ regrow arena c (c.capacity * 2)
  unfolding buffer_grow
  buffer_grow_doubles =
      let nonzero : (c.capacity == 0) ≡ false = ground arith in
      let over : ltb c.capacity (u32 (c.active_count + 1)) ≡ true = ground arith in
      rw (
        buffer_grow,
        nonzero,
        double_until_once 63 c.capacity (u32 (c.active_count + 1)) v.positive (omega arith)
            (omega arith),
        over,
      )

  pub add_granted :
      (block : ℕ → ℕ) (x : ℕ)
      → arena.alloc request ≡ some block
      → add arena c x ≡ append (regrow arena c (c.capacity * 2)).1 x
  unfolding add regrow
  add_granted block x granted = rw (buffer_grow_doubles, regrow, granted) (ground arith)

  pub add_refused : (x : ℕ) → arena.alloc request ≡ none → add arena c x ≡ report_exhaustion c
  unfolding add regrow
  add_refused x e = rw (buffer_grow_doubles, regrow, e) (ground arith)

module _ {c : Collection} (v : IsValid c) (full : c.active_count ≡ c.capacity)
    (half : c.capacity < 2 ^ 31) (fits : c.active_count * c.stride < 2 ^ 32) (arena : Arena)
    (block : ℕ → ℕ)
    (granted : arena.alloc (buffer c.element_class (u64 (c.capacity * 2 * c.stride)))
      ≡ some block) where
  data_buffer-regrow :
      (regrow arena c (c.capacity * 2)).1.data_buffer
      ≡ take c.active_count c.data_buffer ++ drop c.active_count (tabulate block 0 (c.capacity * 2))
  unfolding regrow
  data_buffer-regrow =
      let whole : u32 (c.active_count * c.stride) ≡ c.active_count * c.stride = omega arith in
      rw (regrow, granted, whole)
        (copy_bytes-mul c.stride v.wide c.active_count c.data_buffer
          (tabulate block 0 (c.capacity * 2)) (omega arith)
          (omega (arith, length-tabulate block 0 (c.capacity * 2))))

  pub regrow_fields :
      let c' = (regrow arena c (c.capacity * 2)).1 in
      (c'.active_count ≡ c.active_count) × (c'.capacity ≡ c.capacity * 2) × (c'.stride ≡ c.stride)
  unfolding regrow
  regrow_fields = rw (regrow, granted) (omega arith)

  pub regrow_granted : regrow arena c (c.capacity * 2) ≡ (true, (regrow arena c (c.capacity * 2)).1)
  unfolding regrow
  regrow_granted = rw (regrow, granted)

  pub regrow-IsValid : IsValid (regrow arena c (c.capacity * 2)).1
  regrow-IsValid =
      let n = c.active_count in
      let fresh = tabulate block 0 (c.capacity * 2) in
      let sized : length (take n c.data_buffer ++ drop n fresh) ≡ c.capacity * 2 =
        simp (length-append, length-take, length-drop, length-tabulate) (omega arith) in
      ground (arith, regrow_fields, data_buffer-regrow)

  pub contents-regrow : contents (regrow arena c (c.capacity * 2)).1 ≡ contents c
  contents-regrow =
      rw (regrow_fields.0, regrow_fields.2, data_buffer-regrow)
        (words-take_append c.stride c.active_count c.data_buffer _ (omega arith))

-- Closing the gap at `i` by a move of the slots behind it removes one word.
remove_words :
    (stride n i : ℕ) (xs : List ℕ)
    → n ≤ length xs
    → i < n
    → words stride (n - 1) (move_slots i (i + 1) (n - i - 1) xs) ≡ erase_at (words stride n xs) i
remove_words stride zero i xs h p = absurd (omega arith)
remove_words stride (suc n) i [] h p = absurd (omega arith)
remove_words stride (suc n) zero (x ∷ xs) h p =
    let e : suc n - 1 ≡ n = omega arith in
    let e' : suc n - 0 - 1 ≡ n = omega arith in
    rw (e, e', words-take_append stride n xs (drop (0 + n) (x ∷ xs)) (omega arith))
remove_words stride (suc n) (suc i) (x ∷ xs) h p =
    let e : suc n - 1 ≡ suc (n - 1) = omega arith in
    let e' : suc n - suc i - 1 ≡ n - i - 1 = omega arith in
    let e'' : suc i + 1 ≡ suc (i + 1) = omega arith in
    let k : suc i + (n - i - 1) ≡ suc (i + (n - i - 1)) = omega arith in
    rw (e, e', e'', k)
      (ap (◌∷◌ (read_slot_at x stride)) (remove_words stride n i xs (omega arith) (omega arith)))

module _ {c : Collection} (v : IsValid c) where
  remove-tail_move :
      (i : ℕ)
      → i < c.active_count
      → words c.stride (c.active_count - 1) (
          if ltb 0 (c.active_count - i - 1)
          then move_slots i (i + 1) (c.active_count - i - 1) c.data_buffer
          else c.data_buffer)
        ≡ erase_at (contents c) i
  remove-tail_move i h = elim (Bool-cases (ltb 0 (c.active_count - i - 1))) [
    | inl more ↦ rw more (remove_words c.stride c.active_count i c.data_buffer (omega arith) h)
    | inr last ↦
        let zero_left : c.active_count - i - 1 ≡ 0 = ground arith in
        let whole : move_slots i (i + 1) 0 c.data_buffer ≡ c.data_buffer =
          rw (add-zero, take-append-drop i c.data_buffer) in
        rw last (
          rw (zero_left, whole) at
            (remove_words c.stride c.active_count i c.data_buffer (omega arith) h))
  ]

  pub contents-remove : (i : ℕ) → contents (remove c i) ≡ erase_at (contents c) i
  unfolding remove
  contents-remove i = elim (Bool-cases (leb c.active_count i)) [
    | inl past ↦ rw past (ground (arith, length-contents v, erase_at_past (contents c) i))
    | inr below ↦ rw below (remove-tail_move i (ground arith))
  ]

  length-move_slots :
      (i n : ℕ) (xs : List ℕ) → i + n < length xs → length (move_slots i (i + 1) n xs) ≡ length xs
  length-move_slots i n xs h = simp (length-append, length-take, length-drop) (omega arith)

  pub remove-IsValid : (i : ℕ) → IsValid (remove c i)
  unfolding remove
  remove-IsValid i = ground (arith, length-move_slots i (c.active_count - i - 1) c.data_buffer)
