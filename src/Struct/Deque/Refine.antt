-- ===== src/Struct/Deque/Refine.antt =====
-- A deque is a sequence of words with two ends, whatever operations are called on it.
use mathlib.Core.Path.{ap₂}
use vexspoke.Base.{
  ℕ, ◌+◌, ◌*◌, ◌%◌, ◌^◌, ◌≤◌, ◌<◌, ◌≡◌, ◌∙◌, sym, refl, ap, List, [], ◌∷◌, ◌++◌, arith, true,
  get_or, u64,
}
use native.Mathlib.Decide.{dec_lt, ℕ_discrete}
use vexspoke.Struct.Arena.{Arena, buffer}
use vexspoke.Struct.ArrayList.Refine.{Grants}
use vexspoke.Struct.Collection.{Collection, word_mod}
use vexspoke.Struct.Deque.{ensure_capacity, add_first, add_last, remove_first, remove_last, get}
use vexspoke.Struct.Deque.Cells.{
  IsRing, contents, put_last-IsRing, contents-put_last, remove_first-IsRing, contents-remove_first,
  put_last_fields, remove_fields, remove_empty,
}
use vexspoke.Struct.Deque.Growth.{
  ensure_capacity_grows, ensure_capacity_roomy, grown, grown-IsRing, contents-grown,
}

pub data Op : Type 0 where
  push_front : ℕ → Op
  push_back : ℕ → Op
  pop_front : Op
  pop_back : Op
  get_at : ℕ → Op

step : Arena → Collection → Op → ℕ × Collection
step arena c (push_front x) = (0, add_first arena c x)
step arena c (push_back x) = (0, add_last arena c x)
step arena c pop_front = remove_first c
step arena c pop_back = remove_last c
step arena c (get_at i) = (get c i, c)

pub run : Arena → Collection → List Op → List ℕ
unfolding step
run arena c [] = []
run arena c (op ∷ ops) = let (reply, c') = step arena c op in reply ∷ run arena c' ops

-- The last word of a sequence and the words before it; of no words, 0.
pub unsnoc : List ℕ → ℕ × List ℕ
unsnoc [] = (0, [])
unsnoc (x ∷ []) = (x, [])
unsnoc (x ∷ y ∷ ys) = let (last, front) = unsnoc (y ∷ ys) in (last, x ∷ front)

unfoldable pub uncons : List ℕ → ℕ × List ℕ
uncons [] = (0, [])
uncons (x ∷ xs) = (x, xs)

-- The same calls on a sequence of words below `m`.
spec_step : ℕ → List ℕ → Op → ℕ × List ℕ
unfolding unsnoc uncons
spec_step m xs (push_front x) = (0, (x % m) ∷ xs)
spec_step m xs (push_back x) = (0, xs ++ (x % m ∷ []))
spec_step m xs pop_front = uncons xs
spec_step m xs pop_back = unsnoc xs
spec_step m xs (get_at i) = (get_or xs i 0, xs)

unfoldable pub spec_run : ℕ → List ℕ → List Op → List ℕ
unfolding spec_step
spec_run m xs [] = []
spec_run m xs (op ∷ ops) = let (reply, xs') = spec_step m xs op in reply ∷ spec_run m xs' ops

-- What holds after a call, of the deque before it.
pub record Kept (before : Collection) (reply : ℕ) (after : Collection) (spec : ℕ × List ℕ)
    : Type 0 where
  pub ring : IsRing after
  pub same_stride : after.stride ≡ before.stride
  pub count_le : after.active_count ≤ before.active_count + 1
  pub replied : reply ≡ spec.0
  pub holds : contents after ≡ spec.1

record Ready (before : Collection) (after : Collection) : Type 0 where
  ring : IsRing after
  room : after.active_count < after.capacity
  same_stride : after.stride ≡ before.stride
  same_count : after.active_count ≡ before.active_count
  holds : contents after ≡ contents before

-- After ensureCapacity there is room, and nothing else has changed.
ensure_capacity-Ready :
    (arena : Arena) {c : Collection}
    → Grants arena
    → IsRing c
    → c.active_count ≤ 2 ^ 30
    → (c' : Collection) × (ensure_capacity arena c ≡ (true, c')) × Ready c c'
ensure_capacity-Ready arena {c} grants v few = elim (dec_lt c.active_count c.capacity) [
  | yes room ↦ (
    c,
    ensure_capacity_roomy arena c room,
    record { ring = v; room = room; same_stride = refl; same_count = refl; holds = refl },
  )
  | no full ↦
      let at_end : c.active_count ≡ c.capacity = omega arith in
      let small : c.capacity ≤ 2 ^ 30 = omega arith in
      let (block, granted) = grants (buffer c.element_class (u64 (c.capacity * 2 * c.stride))) in
      (
        grown v at_end small arena block granted,
        ensure_capacity_grows v at_end small arena block granted,
        record {
          ring = grown-IsRing v at_end small arena block granted;
          room = omega arith;
          same_stride = refl;
          same_count = refl;
          holds = contents-grown v at_end small arena block granted;
        },
      )
]

pub add_last-Kept :
    (arena : Arena) {c : Collection} (x : ℕ)
    → Grants arena
    → IsRing c
    → c.active_count ≤ 2 ^ 30
    → Kept c 0 (add_last arena c x) (0, contents c ++ (x % word_mod c.stride ∷ []))
unfolding add_last
add_last-Kept arena {c} x grants v few =
    let (c', e, r) = ensure_capacity-Ready arena grants v few in
    rw e (record {
      ring = put_last-IsRing r.ring x r.room;
      same_stride = (put_last_fields r.ring x r.room).0 ∙ r.same_stride;
      count_le = omega (arith, put_last_fields r.ring x r.room, r.same_count);
      replied = refl;
      holds =
          contents-put_last r.ring x r.room
          ∙ ap₂ (λ stride words. words ++ (x % word_mod stride ∷ [])) r.same_stride r.holds;
    })

pub remove_first-Kept :
    {c : Collection} → IsRing c → Kept c (remove_first c).0 (remove_first c).1 (uncons (contents c))
unfolding uncons
remove_first-Kept {c} v = elim (ℕ_discrete c.active_count 0) [
  | yes none_left ↦
      let e = remove_empty v none_left in
      record {
        ring = rw e.0 v;
        same_stride = (remove_fields c).0;
        count_le = omega (arith, remove_fields c);
        replied = rw (e.0, e.2);
        holds = rw (e.0, e.2);
      }
  | no some_left ↦
      let split : uncons (contents c) ≡ ((remove_first c).0, contents (remove_first c).1) =
        ap uncons (contents-remove_first v some_left) in
      record {
        ring = remove_first-IsRing v some_left;
        same_stride = (remove_fields c).0;
        count_le = omega (arith, remove_fields c);
        replied = sym (ap (λ r. r.0) split);
        holds = sym (ap (λ r. r.1) split);
      }
]
