-- ===== src/Struct/MinHeap/Tests.antt =====
-- A heap of two entries over numbers as priorities.
use Prim.Native.Nat.{◌<◌}
use vexspoke.Base.{ℕ, ◌≤◌, ◌≡◌, refl, ◌⊎◌, [], ◌∷◌, true, false, not, ltb, leb, arith}
use vexspoke.Struct.Exhaustion.{report}
use vexspoke.Struct.MinHeap.{Entry, MinHeap, push, pop_item, fill_up, fill_down, best_child}
use vexspoke.Struct.MinHeap.Valid.{IsValid}
use vexspoke.Struct.MinHeap.Push.{Pushed, push_outcome}
use vexspoke.Struct.MinHeap.Pop.{Popped, pop_item_outcome}

abbrev blank : Entry ℕ
blank = record { item = 0; priority = 0 }

abbrev two_entries : MinHeap ℕ
two_entries = record {
  size = 2;
  capacity = 3;
  entries =
      blank ∷ record { item = 7; priority = 1 } ∷ record { item = 8; priority = 5 } ∷ blank ∷ [];
  exhaustion = record { count = 0; reported = false };
}

leb_total : (a b : ℕ) → (leb a b ≡ true) ⊎ (leb b a ≡ true)
leb_total a b = ground arith

leb_trans : (a b c : ℕ) → leb a b ≡ true → leb b c ≡ true → leb a c ≡ true
leb_trans a b c h k = ground (arith, h, k)

ltb_strict : (a b : ℕ) → ltb a b ≡ not (leb b a)
ltb_strict a b = ground arith

two_entries-IsValid : IsValid blank leb ltb leb_total leb_trans ltb_strict two_entries
two_entries-IsValid = record {
  fits = omega arith;
  room = omega arith;
  ordered = λ i two h. let q : i ≡ 2 = omega (arith, two, h) in rw q refl;
}

pushed_least : (pop_item blank leb ltb (push blank leb ltb 9 0 two_entries).0).0 ≡ 9
unfolding pop_item push fill_up fill_down best_child
pushed_least = refl

push_outcome_example :
    ((3 ≤ 2)
      × ((push blank leb ltb 9 0 two_entries).1 ≡ false)
      × IsValid blank leb ltb leb_total leb_trans ltb_strict (push blank leb ltb 9 0 two_entries).0
      × ((push blank leb ltb 9 0 two_entries).0
          ≡ record two_entries { exhaustion = (report two_entries.exhaustion).0 }))
    ⊎ ((2 < 3)
        × ((push blank leb ltb 9 0 two_entries).1 ≡ true)
        × Pushed blank leb ltb leb_total leb_trans ltb_strict 9 0 two_entries
            (push blank leb ltb 9 0 two_entries).0)
push_outcome_example =
    push_outcome blank leb ltb leb_total leb_trans ltb_strict 9 0 two_entries two_entries-IsValid

pop_item_outcome_example :
    ((◌≡◌ {A = ℕ} 2 0) × (pop_item blank leb ltb two_entries ≡ (0, two_entries)))
    ⊎ ((0 < 2)
        × Popped blank leb ltb leb_total leb_trans ltb_strict two_entries
            (pop_item blank leb ltb two_entries).1
            (pop_item blank leb ltb two_entries).0)
pop_item_outcome_example =
    pop_item_outcome blank leb ltb leb_total leb_trans ltb_strict two_entries two_entries-IsValid
