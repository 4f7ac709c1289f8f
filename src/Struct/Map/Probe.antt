-- ===== src/Struct/Map/Probe.antt =====
-- What Map_put, Map_get and Map_remove do to a table whose capacity is a power of two.
use Prim.Native.Nat.{◌<◌}
use native.Mathlib.Decide.{ℕ_discrete}
use vexspoke.Base.{
  ℕ, zero, suc, ◌+◌, ◌-◌, ◌^◌, ◌≡◌, ◌≢◌, ◌∙◌, refl, sym, ap, ◌⊎◌, inl, inr, Option, none, some,
  List, Bool, true, false, ◌==◌, arith, length, get_or, set as set_elem, get_or-set_self,
  get_or-set_ne, Bool-cases,
}
use vexspoke.Struct.Map.{
  Memory, Entry, Slot, empty, deleted, occupied, matches_entry, next_slot, put_loop, find_loop,
  first_of, keys_equal,
}
use vexspoke.Struct.Map.Mask.{next_slot_lt, next_slot_wraps, masked_lt}

pub Slot-cases : (s : Slot) → (s ≡ empty) ⊎ ((s ≡ deleted) ⊎ ((e : Entry) × (s ≡ occupied e)))
Slot-cases empty = inl refl
Slot-cases deleted = inr (inl refl)
Slot-cases (occupied e) = inr (inr (e, refl))

module _ (memory : Memory) (key_class hash key k : ℕ) where
  -- A slot that a probe for the key goes past.
  abbrev pub Passed : Slot → Type 0
  Passed empty = ⊥
  Passed deleted = Unit
  Passed (occupied e) = matches_entry memory key_class hash key e ≡ false

  next_lt : (idx : ℕ) → next_slot (2 ^ k) idx < 2 ^ k
  next_lt idx = masked_lt k (idx + 1)

  pub put_loop_stuck :
      (fuel : ℕ) (slots : List Slot) (value : ℕ) (first : Option ℕ) (idx : ℕ)
      → idx < 2 ^ k
      → ((i : ℕ) → i < 2 ^ k → Passed (get_or slots i empty))
      → put_loop memory key_class hash key (2 ^ k) fuel slots value first idx ≡ none
  unfolding put_loop
  put_loop_stuck zero slots value first idx h all = refl
  put_loop_stuck (suc fuel) slots value first idx h all =
      let here = all idx h in
      elim (Slot-cases (get_or slots idx empty)) [
        | inl e ↦ absurd (rw e at here)
        | inr (inl e) ↦ rw (put_loop, e) (put_loop_stuck fuel slots value _ _ (next_lt idx) all)
        | inr (inr (entry, e)) ↦
            let passed = rw e at here in
            rw (put_loop, e, passed) (put_loop_stuck fuel slots value first _ (next_lt idx) all)
      ]

  -- With an empty slot at a distance, the loop of Map_put ends within so many rounds.
  pub put_loop-some :
      (fuel d : ℕ) (slots : List Slot) (value : ℕ) (first : Option ℕ) (idx last : ℕ)
      → d < fuel
      → idx < 2 ^ k
      → last < 2 ^ k
      → get_or slots last empty ≡ empty
      → (idx + d ≡ last) ⊎ (idx + d ≡ last + 2 ^ k)
      → (r : Bool × List Slot) × (put_loop memory key_class hash key
            (2 ^ k)
            fuel
            slots
            value
            first
            idx
          ≡ some r)
  unfolding put_loop
  put_loop-some zero d slots value first idx last lt h h' free far = absurd (omega (arith, lt))
  put_loop-some (suc fuel) d slots value first idx last lt h h' free far =
      elim (Slot-cases (get_or slots idx empty)) [
        | inl e ↦
            let entry : Entry = record { key = key; value = value; hash = hash } in
            let at = first_of memory key_class hash key (2 ^ k) first idx in
            ((true, set_elem slots at (occupied entry)), rw (put_loop, e) refl)
        | inr (inl e) ↦
            let (d', lt', far') = nearer (λ q. taken_ne (sym (sym e ∙ rw q free))) in
            let (r, done) =
              put_loop-some fuel d' slots value
                (some (first_of memory key_class hash key (2 ^ k) first idx))
                (next_slot (2 ^ k) idx) last lt' (next_lt idx) h' free far' in
            (r, rw (put_loop, e) done)
        | inr (inr (entry, e)) ↦ elim (Bool-cases (matches_entry memory key_class hash key entry)) [
          | inl m ↦
              let slots' = set_elem slots idx (occupied (record entry { value = value })) in
              ((false, slots'), rw (put_loop, e, m) refl)
          | inr passed ↦
              let (d', lt', far') = nearer (λ q. occupied_ne entry (sym (sym e ∙ rw q free))) in
              let (r, done) =
                put_loop-some fuel d' slots value first (next_slot (2 ^ k) idx) last lt'
                  (next_lt idx) h' free far' in
              (r, rw (put_loop, e, passed) done)
        ]
      ]
    where
      taken_ne : empty ≡ deleted → ⊥
      taken_ne q = cc

      occupied_ne : (e : Entry) → empty ≡ occupied e → ⊥
      occupied_ne e q = cc

      nearer :
          (idx ≡ last → ⊥)
          → (d' : ℕ) × (d' < fuel)
            × ((next_slot (2 ^ k) idx + d' ≡ last) ⊎ (next_slot (2 ^ k) idx + d' ≡ last + 2 ^ k))
      nearer other = elim (ℕ_discrete (idx + 1) (2 ^ k)) [
        | yes wraps ↦ elim far [
          | inl q ↦ absurd (other (omega (arith, q, wraps, h, h')))
          | inr q ↦ (
            d - 1,
            omega (arith, lt, q, h),
            inl (rw (next_slot_wraps k idx wraps) (omega (arith, q, wraps))),
          )
        ]
        | no more ↦
            let step = next_slot_lt k idx (omega (arith, h, more)) in
            elim far [
              | inl q ↦ elim (ℕ_discrete d 0) [
                | yes zero_d ↦ absurd (other (omega (arith, q, zero_d)))
                | no some_d ↦
                    (d - 1, omega (arith, lt, some_d), inl (rw step (omega (arith, q, some_d))))
              ]
              | inr q ↦ (d - 1, omega (arith, lt, q, h), inr (rw step (omega (arith, q, h))))
            ]
      ]

  -- A probe that goes past so many slots to a place.
  abbrev pub Route : List Slot → ℕ → ℕ → ℕ → Type 0
  Route slots zero idx place = idx ≡ place
  Route slots (suc n) idx place =
      Passed (get_or slots idx empty) × Route slots n (next_slot (2 ^ k) idx) place

  pub find-Route :
      (n rounds : ℕ) (slots : List Slot) (idx place : ℕ) (entry : Entry)
      → Route slots n idx place
      → n < rounds
      → place < length slots
      → matches_entry memory key_class hash key entry ≡ true
      → find_loop memory key_class hash key
          (2 ^ k)
          rounds
          (set_elem slots place (occupied entry))
          idx
        ≡ some (place, entry)
  unfolding find_loop
  find-Route n zero slots idx place entry r lt inside m = absurd (omega (arith, lt))
  find-Route zero (suc rounds) slots idx place entry r lt inside m =
      rw (r, find_loop, get_or-set_self slots place (occupied entry) empty inside, m)
        (ap (λ p. some (p, entry)) r)
  find-Route (suc n) (suc rounds) slots idx place entry (passed, r) lt inside m =
      elim (ℕ_discrete idx place) [
        | yes e ↦
            rw (e, find_loop, get_or-set_self slots place (occupied entry) empty inside, m)
              (ap (λ p. some (p, entry)) e)
        | no other ↦
            let apart : place ≢ idx = λ q. other (sym q) in
            let same = get_or-set_ne slots (occupied entry) empty apart in
            let rest = find-Route n rounds slots _ place entry r (omega (arith, lt)) inside m in
            elim (Slot-cases (get_or slots idx empty)) [
              | inl e ↦ absurd (rw e at passed)
              | inr (inl e) ↦ rw (find_loop, same, e) rest
              | inr (inr (old, e)) ↦ let p = rw e at passed in rw (find_loop, same, e, p) rest
            ]
      ]

  -- Where Map_put leaves its entry.
  pub record Placed (slots slots' : List Slot) (value fuel idx : ℕ) (first : Option ℕ)
      : Type 0 where
    pub place : ℕ
    pub entry : Entry
    pub written : slots' ≡ set_elem slots place (occupied entry)
    pub is_value : entry.value ≡ value
    pub matching : matches_entry memory key_class hash key entry ≡ true
    pub inside : place < 2 ^ k
    pub steps : ℕ
    pub few : steps < fuel
    pub route : (first ≡ some place) ⊎ Route slots steps idx place

  abbrev pub IsIn : Option ℕ → Type 0
  IsIn none = Unit
  IsIn (some d) = d < 2 ^ k

  first_lt :
      (first : Option ℕ) (idx : ℕ)
      → IsIn first
      → idx < 2 ^ k
      → first_of memory key_class hash key (2 ^ k) first idx < 2 ^ k
  first_lt none idx h h' = h'
  first_lt (some d) idx h h' = h

  self_equal : (n : ℕ) → (n == n) ≡ true
  self_equal n = ground arith

  new_matches :
      (value : ℕ)
      → matches_entry memory key_class hash key (record { key = key; value = value; hash = hash })
        ≡ true
  unfolding keys_equal
  new_matches value = rw (self_equal hash, keys_equal, self_equal key) refl

  none_ne : (r : Bool × List Slot) → ◌≡◌ {A = Option (Bool × List Slot)} none (some r) → ⊥
  none_ne r q = cc

  same_slots :
      (b b' : Bool) (xs ys : List Slot)
      → ◌≡◌ {A = Option (Bool × List Slot)} (some (b, xs)) (some (b', ys))
      → ys ≡ xs
  same_slots b b' xs ys q =
      let p : ◌≡◌ {A = Bool × List Slot} (b, xs) (b', ys) = cc in
      sym (ap (λ (r : Bool × List Slot). r.1) p)

  pub put_loop-Placed :
      (fuel : ℕ) (slots : List Slot) (value : ℕ) (first : Option ℕ) (idx : ℕ) (b : Bool)
      (slots' : List Slot)
      → idx < 2 ^ k
      → IsIn first
      → put_loop memory key_class hash key (2 ^ k) fuel slots value first idx ≡ some (b, slots')
      → Placed slots slots' value fuel idx first
  unfolding put_loop
  put_loop-Placed zero slots value first idx b slots' h hf done = absurd (none_ne _ done)
  put_loop-Placed (suc fuel) slots value first idx b slots' h hf done =
      elim (Slot-cases (get_or slots idx empty)) [
        | inl e ↦ at_empty first hf (rw (put_loop, e) at done)
        | inr (inl e) ↦
            let inside = first_lt first idx hf h in
            behind_deleted first e (
              put_loop-Placed fuel slots value _ _ b slots' (next_lt idx) inside
                (rw (put_loop, e) at done))
        | inr (inr (entry, e)) ↦ elim (Bool-cases (matches_entry memory key_class hash key entry)) [
          | inl m ↦ record {
            place = idx;
            entry = record entry { value = value };
            written = same_slots false b _ slots' (rw (put_loop, e, m) at done);
            is_value = refl;
            matching = m;
            inside = h;
            steps = 0;
            few = omega arith;
            route = inr refl;
          }
          | inr passed ↦
              let rest =
                put_loop-Placed fuel slots value first _ b slots' (next_lt idx) hf
                  (rw (put_loop, e, passed) at done) in
              record {
                place = rest.place;
                entry = rest.entry;
                written = rest.written;
                is_value = rest.is_value;
                matching = rest.matching;
                inside = rest.inside;
                steps = suc rest.steps;
                few = omega (arith, rest.few);
                route = elim rest.route [ inl q ↦ inl q | inr r ↦ inr (rw e passed, r) ];
              }
        ]
      ]
    where
      new_entry : Entry
      new_entry = record { key = key; value = value; hash = hash }

      at_empty :
          (first : Option ℕ)
          → IsIn first
          → ◌≡◌ {A = Option (Bool × List Slot)}
              (some (
                true,
                set_elem slots
                    (first_of memory key_class hash key (2 ^ k) first idx)
                    (occupied new_entry),
              ))
              (some (b, slots'))
          → Placed slots slots' value (suc fuel) idx first
      at_empty none hf done = record {
        place = idx;
        entry = new_entry;
        written = same_slots true b _ slots' done;
        is_value = refl;
        matching = new_matches value;
        inside = h;
        steps = 0;
        few = omega arith;
        route = inr refl;
      }
      at_empty (some d) hf done = record {
        place = d;
        entry = new_entry;
        written = same_slots true b _ slots' done;
        is_value = refl;
        matching = new_matches value;
        inside = hf;
        steps = 0;
        few = omega arith;
        route = inl refl;
      }

      at_first :
          (first : Option ℕ) (place : ℕ)
          → ◌≡◌ {A = Option ℕ}
              (some (first_of memory key_class hash key (2 ^ k) first idx))
              (some place)
          → (first ≡ some place) ⊎ Route slots 0 idx place
      at_first none place q = inr cc
      at_first (some d) place q = inl q

      behind_deleted :
          (first : Option ℕ)
          → get_or slots idx empty ≡ deleted
          → Placed slots slots' value fuel
              (next_slot (2 ^ k) idx)
              (some (first_of memory key_class hash key (2 ^ k) first idx))
          → Placed slots slots' value (suc fuel) idx first
      behind_deleted first e rest = elim rest.route [
        | inr r ↦ record {
          place = rest.place;
          entry = rest.entry;
          written = rest.written;
          is_value = rest.is_value;
          matching = rest.matching;
          inside = rest.inside;
          steps = suc rest.steps;
          few = omega (arith, rest.few);
          route = inr (rw e tt, r);
        }
        | inl q ↦ record {
          place = rest.place;
          entry = rest.entry;
          written = rest.written;
          is_value = rest.is_value;
          matching = rest.matching;
          inside = rest.inside;
          steps = 0;
          few = omega arith;
          route = at_first first rest.place q;
        }
      ]
