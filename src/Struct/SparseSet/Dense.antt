-- ===== src/Struct/SparseSet/Dense.antt =====
-- The invariant of a sparse set: `dense` and `sparse` are inverse to one another on the live
-- entries. Every operation keeps it.
use vexspoke.Base.{
  ℕ, zero, suc, ◌-◌, ◌^◌, ◌≤◌, ◌<◌, ◌≡◌, ◌≢◌, ◌∙◌, sym, none, some, true, false, ◌==◌, leb, arith,
  if◌then◌else◌, get_or, get_or-set, length, length-set, length-tabulate, length-replicate,
  set as set_elem, Bool-cases, Option-cases, inl, inr, ◌⊎◌, replicate,
}
use native.Mathlib.Decide.{ℕ_discrete}
use vexspoke.Struct.SparseSet.{
  SparseSet, create, index_of, push_entry, add, fill_hole, remove_entry, remove,
}

pub record IsSparse (s : SparseSet) : Type 0 where
  pub room : s.count ≤ s.capacity
  pub dense_sized : length s.dense ≡ s.capacity
  pub sparse_sized : length s.sparse ≡ s.max_entities
  -- the id at a live entry is in range, and `sparse` leads back to the entry
  pub forward :
      (i : ℕ)
      → i < s.count
      → (get_or s.dense i 0 < s.max_entities) × (index_of s (get_or s.dense i 0) ≡ some i)
  -- what `sparse` leads to is a live entry that holds the id
  pub backward : (id i : ℕ) → index_of s id ≡ some i → (i < s.count) × (get_or s.dense i 0 ≡ id)

-- An id that `sparse` knows is in range.
pub index_of-lt :
    {s : SparseSet} (id i : ℕ) → IsSparse s → index_of s id ≡ some i → id < s.max_entities
index_of-lt {s} id i v e = let b = v.backward id i e in ground (arith, b, v.forward i)

push_entry-IsSparse :
    {s : SparseSet} (id : ℕ)
    → IsSparse s
    → id < s.max_entities
    → index_of s id ≡ none
    → s.count < s.capacity
    → IsSparse (push_entry s id).1
unfolding push_entry
push_entry-IsSparse {s} id v h absent room =
    let dense_at = λ (i : ℕ). get_or-set s.dense s.count i id 0 (omega (arith, v.dense_sized)) in
    let sparse_at =
      λ (j : ℕ). get_or-set s.sparse id j (some s.count) none (omega (arith, v.sparse_sized)) in
    record {
      room = omega arith;
      dense_sized = length-set s.dense s.count id ∙ v.dense_sized;
      sparse_sized = length-set s.sparse id (some s.count) ∙ v.sparse_sized;
      forward = λ i hi.
          ground (arith, dense_at i, sparse_at id, sparse_at (get_or s.dense i 0), v.forward i);
      backward = λ j i e. ground (arith, dense_at i, sparse_at j, v.backward j i);
    }

module _ {s : SparseSet} (v : IsSparse s) (id i : ℕ) (at : index_of s id ≡ some i) where
  -- The id at the last entry.
  abbrev last : ℕ
  last = get_or s.dense (s.count - 1) 0

  here : (i < s.count) × (get_or s.dense i 0 ≡ id) × (id < s.max_entities)
  here = let b = v.backward id i at in (b.0, b.1, index_of-lt id i v at)

  last_here : (last < s.max_entities) × (index_of s last ≡ some (s.count - 1))
  last_here = v.forward (s.count - 1) (omega (arith, here.0))

  -- Where the id is at the last entry, nothing moves.
  drop_last : SparseSet
  drop_last = record s { sparse = set_elem s.sparse id none; count = s.count - 1 }

  drop_last-IsSparse : i ≡ s.count - 1 → IsSparse drop_last
  unfolding drop_last
  drop_last-IsSparse e =
      let sparse_at =
        λ (j : ℕ). get_or-set s.sparse id j none none (omega (arith, v.sparse_sized, here.2)) in
      record {
        room = omega (arith, v.room);
        dense_sized = v.dense_sized;
        sparse_sized = length-set s.sparse id none ∙ v.sparse_sized;
        forward = λ k hk. ground (arith, sparse_at (get_or s.dense k 0), v.forward k, here);
        backward = λ j k q. ground (arith, sparse_at j, v.backward j k, here);
      }

  -- Elsewhere the last entry takes the place of the id's.
  move_last : SparseSet
  unfolding fill_hole
  move_last = record (fill_hole s i (s.count - 1)) {
    sparse = set_elem (fill_hole s i (s.count - 1)).sparse id none;
    count = s.count - 1;
  }

  sparse-move_last :
      (j : ℕ)
      → index_of move_last j
        ≡ (if id == j then none else if last == j then some i else index_of s j)
  unfolding move_last
  sparse-move_last j = ground (
    arith,
    get_or-set (set_elem s.sparse last (some i)) id j none none
        (omega (arith, length-set s.sparse last (some i), v.sparse_sized, here.2)),
    get_or-set s.sparse last j (some i) none (omega (arith, v.sparse_sized, last_here.0)),
  )

  move_last-IsSparse : i ≢ s.count - 1 → IsSparse move_last
  unfolding move_last
  move_last-IsSparse ne =
      let dense_at =
        λ (k : ℕ). get_or-set s.dense i k last 0 (omega (arith, v.dense_sized, v.room, here.0)) in
      record {
        room = omega (arith, v.room);
        dense_sized = length-set s.dense i last ∙ v.dense_sized;
        sparse_sized =
            length-set (set_elem s.sparse last (some i)) id none
            ∙ length-set s.sparse last (some i)
            ∙ v.sparse_sized;
        forward = λ k hk. elim (ℕ_discrete i k) [
          | yes e ↦
              let d : get_or (set_elem s.dense i last) k 0 ≡ last = ground (arith, dense_at k) in
              rw d (last_here.0, sparse-move_last last ∙ ground (arith, last_here))
          | no ne' ↦
              let d : get_or (set_elem s.dense i last) k 0 ≡ get_or s.dense k 0 =
                ground (arith, dense_at k) in
              let f = v.forward k (omega arith) in
              rw d (f.0, sparse-move_last (get_or s.dense k 0) ∙ ground (arith, f, last_here))
        ];
        backward = λ j k q.
            let r = sym (sparse-move_last j) ∙ q in
            ground (arith, r, dense_at k, v.backward j k, here, last_here);
      }

  remove_entry-cases :
      ((i ≡ s.count - 1) × (remove_entry s id i ≡ drop_last))
      ⊎ ((i ≢ s.count - 1) × (remove_entry s id i ≡ move_last))
  unfolding remove_entry drop_last move_last
  remove_entry-cases = elim (ℕ_discrete i (s.count - 1)) [
    | yes e ↦ let t : (i == s.count - 1) ≡ true = ground arith in inl (e, rw t)
    | no ne ↦ let t : (i == s.count - 1) ≡ false = ground arith in inr (ne, rw t)
  ]

  pub remove_entry-IsSparse : IsSparse (remove_entry s id i)
  remove_entry-IsSparse = elim remove_entry-cases [
    | inl (e, same) ↦ rw same (drop_last-IsSparse e)
    | inr (ne, same) ↦ rw same (move_last-IsSparse ne)
  ]

  -- Only the removed id and the id of the last entry change their place.
  pub index_of-remove_entry :
      (j : ℕ)
      → index_of (remove_entry s id i) j
        ≡ (if id == j then none else if last == j then some i else index_of s j)
  unfolding drop_last
  index_of-remove_entry j = elim remove_entry-cases [
    | inl (e, same) ↦ rw same (
        ground
          (arith, get_or-set s.sparse id j none none (omega (arith, v.sparse_sized, here.2)), here))
    | inr (ne, same) ↦ rw same (sparse-move_last j)
  ]

-- A new sparse set of sizes below 2^31 is valid and empty.
pub create-IsSparse :
    (dense_block data_block : ℕ → ℕ) {capacity max_entities : ℕ} (stride : ℕ)
    → capacity < 2 ^ 31
    → max_entities < 2 ^ 31
    → IsSparse (create dense_block data_block capacity max_entities stride)
unfolding create
create-IsSparse dense_block data_block {capacity} {max_entities} stride h h' = record {
  room = omega arith;
  dense_sized = length-tabulate dense_block 0 capacity ∙ ground arith;
  sparse_sized = length-replicate max_entities none ∙ ground arith;
  forward = λ i h. elim h [ ];
  backward = λ id i e. absurd (none_at max_entities id i e);
}
  where
    none_at : (n id i : ℕ) → get_or (replicate n none) id none ≢ some i
    none_at zero id i = λ e. cc
    none_at (suc n) zero i = λ e. cc
    none_at (suc n) (suc id) i = none_at n id i

-- Adding an id keeps the invariant, whether the id is new, known, out of range or refused.
pub add-IsSparse : {s : SparseSet} (id : ℕ) → IsSparse s → IsSparse (add s id).1
unfolding add
add-IsSparse {s} id v = elim (Bool-cases (leb s.max_entities id)) [
  | inl past ↦ rw past v
  | inr below ↦ elim (Option-cases (index_of s id)) [
    | inr (i, known) ↦ rw (below, known) v
    | inl fresh ↦ elim (Bool-cases (leb s.capacity s.count)) [
      | inl full ↦
          rw (below, fresh, full)
            (record {
              room = v.room;
              dense_sized = v.dense_sized;
              sparse_sized = v.sparse_sized;
              forward = v.forward;
              backward = v.backward;
            })
      | inr room ↦
          rw (below, fresh, room) (push_entry-IsSparse id v (ground arith) fresh (ground arith))
    ]
  ]
]

-- Removing an id keeps the invariant, whether the set holds the id or not.
pub remove-IsSparse : {s : SparseSet} (id : ℕ) → IsSparse s → IsSparse (remove s id)
unfolding remove
remove-IsSparse {s} id v = elim (Bool-cases (leb s.max_entities id)) [
  | inl past ↦ rw past v
  | inr below ↦ elim (Option-cases (index_of s id)) [
    | inl absent ↦ rw (below, absent) v
    | inr (i, known) ↦ rw (below, known) (remove_entry-IsSparse v id i known)
  ]
]
