-- ===== src/Struct/Set/Adding.antt =====
-- Set_add, and what Set_contains answers after it.
use Prim.Native.Nat.{◌<◌, bit_and}
use vexspoke.Base.{
  ℕ, zero, suc, ◌+◌, ◌-◌, ◌/◌, ◌^◌, ◌≤◌, ◌≡◌, ◌≢◌, ◌∙◌, refl, ap, ◌⊎◌, inl, inr, Option, none, some,
  List, Bool, true, false, leb, arith, length, get_or, u32, Bool-cases,
}
use vexspoke.Struct.Map.{
  Memory, Entry, Slot, empty, compute_hash, matches_entry, next_slot, first_of, put_loop, find_loop,
}
use vexspoke.Struct.Map.Mask.{masked_lt}
use vexspoke.Struct.Map.Probe.{Slot-cases, put_loop-some, put_loop-Placed}
use vexspoke.Struct.Map.Lookup.{found, distance}
use vexspoke.Struct.Set.{Set, add_loop, add_here, add, find, contains}

abbrev Result : Type 0
Result = Bool × List Slot

none_ne : (r : Result) → ◌≡◌ {A = Option Result} none (some r) → ⊥
none_ne r q = cc

flags :
    (b b' : Bool) (xs ys : List Slot)
    → ◌≡◌ {A = Option Result} (some (b, xs)) (some (b', ys))
    → b ≡ b'
flags b b' xs ys q = let p : ◌≡◌ {A = Result} (b, xs) (b', ys) = cc in ap (λ (r : Result). r.0) p

lists :
    (b b' : Bool) (xs ys : List Slot)
    → ◌≡◌ {A = Option Result} (some (b, xs)) (some (b', ys))
    → xs ≡ ys
lists b b' xs ys q = let p : ◌≡◌ {A = Result} (b, xs) (b', ys) = cc in ap (λ (r : Result). r.1) p

true_ne : true ≢ false
true_ne e = cc

module _ (memory : Memory) (element_class hash element k : ℕ) where
  -- Where the loop of Map_put, with the value 0, ends, that of Set_add does: with a new entry in the
  -- same slots, or with the slots as they were and the element found in them.
  like_put :
      (fuel rounds : ℕ) (slots : List Slot) (first : Option ℕ) (idx : ℕ) (b : Bool)
      (slots' : List Slot)
      → fuel ≤ rounds
      → put_loop memory element_class hash element (2 ^ k) fuel slots 0 first idx ≡ some (b, slots')
      → (add_loop memory element_class hash element (2 ^ k) fuel slots first idx
          ≡ some (true, slots'))
        ⊎ ((add_loop memory element_class hash element (2 ^ k) fuel slots first idx
              ≡ some (false, slots))
            × ((r : ℕ × Entry) × (find_loop memory element_class hash element
                    (2 ^ k)
                    rounds
                    slots
                    idx
                  ≡ some r)))
  unfolding put_loop add_loop find_loop
  like_put zero rounds slots first idx b slots' h done = absurd (none_ne _ done)
  like_put (suc fuel) zero slots first idx b slots' h done = absurd (omega (arith, h))
  like_put (suc fuel) (suc rounds) slots first idx b slots' h done =
      elim (Slot-cases (get_or slots idx empty)) [
        | inl e ↦
            let written = rw (put_loop, e) at done in
            inl (
              rw (add_loop, e)
                (ap (λ (xs : List Slot). some (true, xs)) (lists true b _ slots' written)))
        | inr (inl e) ↦
            let rest =
              like_put fuel rounds slots
                (some (first_of memory element_class hash element (2 ^ k) first idx))
                (next_slot (2 ^ k) idx) b slots' (omega (arith, h)) (rw (put_loop, e) at done) in
            elim rest [
              | inl t ↦ inl (rw (add_loop, e) t)
              | inr (t, (r, there)) ↦ inr (rw (add_loop, e) t, (r, rw (find_loop, e) there))
            ]
        | inr (inr (entry, e)) ↦
            elim (Bool-cases (matches_entry memory element_class hash element entry)) [
              | inl m ↦ inr (rw (add_loop, e, m) refl, ((idx, entry), rw (find_loop, e, m) refl))
              | inr passed ↦
                  let rest =
                    like_put fuel rounds slots first (next_slot (2 ^ k) idx) b slots'
                      (omega (arith, h)) (rw (put_loop, e, passed) at done) in
                  elim rest [
                    | inl t ↦ inl (rw (add_loop, e, passed) t)
                    | inr (t, (r, there)) ↦
                        inr (rw (add_loop, e, passed) t, (r, rw (find_loop, e, passed) there))
                  ]
            ]
      ]

module _ (memory : Memory) (granted : ℕ → Bool) where
  not_full :
      (fuel : ℕ) (set : Set) (element : ℕ)
      → set.active_count < set.capacity - set.capacity / 4
      → add memory granted fuel set element ≡ add_here memory fuel set element
  unfolding add
  not_full fuel set element h =
      let f : leb (set.capacity - set.capacity / 4) set.active_count ≡ false = ground (arith, h) in
      rw (add, f) refl

  -- On a table whose capacity is a power of two, with fewer entries than make it grow and with an
  -- empty slot, Set_add returns within as many rounds as there are slots, and afterwards
  -- Set_contains is true of the element.
  pub contains-add_element :
      (k : ℕ) (set : Set) (element last : ℕ)
      → set.capacity ≡ 2 ^ k
      → length set.slots ≡ 2 ^ k
      → set.active_count < set.capacity - set.capacity / 4
      → last < 2 ^ k
      → get_or set.slots last empty ≡ empty
      → (r : Bool × Set) × (add memory granted (2 ^ k) set element ≡ some r)
        × (contains memory r.1 element ≡ true)
  unfolding add_here contains
  contains-add_element k set element last by sized h inside free =
      let hash = compute_hash memory set.element_class element in
      let start = bit_and hash (2 ^ k - 1) in
      let (d, lt, far) = distance memory granted (2 ^ k) start last (masked_lt k hash) inside in
      let (r, done) =
        put_loop-some memory set.element_class hash element k (2 ^ k) d set.slots 0 none start last
          lt (masked_lt k hash) inside free far in
      elim (like_put memory set.element_class hash element k (2 ^ k) (2 ^ k) set.slots none start
        r.0 r.1 (omega arith) done) [
          | inl t ↦
              let p =
                put_loop-Placed memory set.element_class hash element k (2 ^ k) set.slots 0 none
                  start r.0 r.1 (masked_lt k hash) tt done in
              let reached =
                found memory granted set.element_class hash element k set.slots r.1 0 start p
                  sized in
              let set' : Set = record set {
                slots = r.1;
                active_count = u32 (set.active_count + 1);
              } in
              let there : find memory set' element ≡ some (p.place, p.entry) = rw by reached in
              (
                (true, set'),
                not_full (2 ^ k) set element h ∙ rw (add_here, by, t) refl,
                rw (contains, there) refl,
              )
          | inr (t, (r', reached)) ↦
              let there : find memory set element ≡ some r' = rw by reached in
              (
                (false, set),
                not_full (2 ^ k) set element h ∙ rw (add_here, by, t) refl,
                rw (contains, there) refl,
              )
        ]
