-- ===== src/Struct/Map/Lookup.antt =====
-- Map_put, and what Map_get and Map_containsKey answer after it.
use Prim.Native.Nat.{◌<◌, bit_and}
use vexspoke.Base.{
  ℕ, ◌+◌, ◌-◌, ◌/◌, ◌^◌, ◌≡◌, ◌∙◌, refl, ◌⊎◌, inl, inr, Option, none, some, List, Bool, true, false,
  leb, arith, if◌then◌else◌, length, get_or, u32, Bool-cases,
}
use vexspoke.Struct.Map.{
  Memory, Slot, empty, Map, find_loop, compute_hash, find, get, contains_key, put_here, put,
}
use vexspoke.Struct.Map.Mask.{masked_lt}
use vexspoke.Struct.Map.Probe.{
  Passed, Placed, find-Route, put_loop_stuck, put_loop-some, put_loop-Placed,
}

module _ (memory : Memory) (granted : ℕ → Bool) where
  not_full :
      (fuel : ℕ) (map : Map) (key value : ℕ)
      → map.active_count < map.capacity - map.capacity / 4
      → put memory granted fuel map key value ≡ put_here memory fuel map key value
  unfolding put
  not_full fuel map key value h =
      let f : leb (map.capacity - map.capacity / 4) map.active_count ≡ false = ground (arith, h) in
      rw (put, f) refl

  -- On a table whose capacity is a power of two, with fewer entries than make it grow, Map_put
  -- returns nothing, whatever the fuel, where no slot is empty and none holds the key: its loop does
  -- not end.
  pub put_stuck :
      (k fuel : ℕ) (map : Map) (key value : ℕ)
      → map.capacity ≡ 2 ^ k
      → map.active_count < map.capacity - map.capacity / 4
      → ((i : ℕ)
          → i < 2 ^ k
          → Passed memory map.key_class
              (compute_hash memory map.key_class key)
              key
              k
              (get_or map.slots i empty))
      → put memory granted fuel map key value ≡ none
  unfolding put_here
  put_stuck k fuel map key value sized_by h all =
      let hash = compute_hash memory map.key_class key in
      let stuck =
        put_loop_stuck memory map.key_class hash key k fuel map.slots value none
          (bit_and hash (2 ^ k - 1)) (masked_lt k hash) all in
      not_full fuel map key value h ∙ rw (put_here, sized_by, stuck) refl

  pub distance :
      (n idx last : ℕ)
      → idx < n
      → last < n
      → (d : ℕ) × (d < n) × ((idx + d ≡ last) ⊎ (idx + d ≡ last + n))
  distance n idx last h h' = elim (Bool-cases (leb idx last)) [
    | inl t ↦ (last - idx, omega (arith, h'), inl (ground (arith, t)))
    | inr f ↦ (last + n - idx, ground (arith, f, h), inr (ground (arith, f, h)))
  ]

  pub found :
      (key_class hash key k : ℕ) (slots slots' : List Slot) (value idx : ℕ)
      (p : Placed memory key_class hash key k slots slots' value (2 ^ k) idx none)
      → length slots ≡ 2 ^ k
      → find_loop memory key_class hash key (2 ^ k) (2 ^ k) slots' idx ≡ some (p.place, p.entry)
  found key_class hash key k slots slots' value idx p sized = elim p.route [
    | inl q ↦ absurd (none_ne p.place q)
    | inr r ↦
        let inside : p.place < length slots = omega (arith, sized, p.inside) in
        rw p.written (
          find-Route memory key_class hash key k p.steps (2 ^ k) slots idx p.place p.entry r p.few
            inside p.matching)
  ]
    where
      none_ne : (i : ℕ) → ◌≡◌ {A = Option ℕ} none (some i) → ⊥
      none_ne i q = cc

  -- On a table whose capacity is a power of two, with fewer entries than make it grow and with an
  -- empty slot, Map_put returns within as many rounds as there are slots, and afterwards Map_get
  -- gives the value and Map_containsKey is true.
  pub get-put :
      (k : ℕ) (map : Map) (key value last : ℕ)
      → map.capacity ≡ 2 ^ k
      → length map.slots ≡ 2 ^ k
      → map.active_count < map.capacity - map.capacity / 4
      → last < 2 ^ k
      → get_or map.slots last empty ≡ empty
      → (map' : Map) × (put memory granted (2 ^ k) map key value ≡ some map')
        × (get memory map' key ≡ value)
        × (contains_key memory map' key ≡ true)
  unfolding put_here get contains_key
  get-put k map key value last sized_by sized h inside free =
      let hash = compute_hash memory map.key_class key in
      let start = bit_and hash (2 ^ k - 1) in
      let (d, lt, far) = distance (2 ^ k) start last (masked_lt k hash) inside in
      let (r, done) =
        put_loop-some memory map.key_class hash key k (2 ^ k) d map.slots value none start last lt
          (masked_lt k hash) inside free far in
      let p =
        put_loop-Placed memory map.key_class hash key k (2 ^ k) map.slots value none start r.0 r.1
          (masked_lt k hash) tt done in
      let map' : Map = record map {
        slots = r.1;
        active_count = if r.0 then u32 (map.active_count + 1) else map.active_count;
      } in
      let reached = found map.key_class hash key k map.slots r.1 value start p sized in
      let at_key : find memory map' key ≡ some (p.place, p.entry) = rw sized_by reached in
      (
        map',
        not_full (2 ^ k) map key value h ∙ rw (put_here, sized_by, done) refl,
        rw (get, at_key) p.is_value,
        rw (contains_key, at_key) refl,
      )
