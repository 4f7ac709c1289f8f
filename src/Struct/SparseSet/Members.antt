-- ===== src/Struct/SparseSet/Members.antt =====
-- Which ids a sparse set holds, and with which components.
use native.Mathlib.Decide.{ℕ_discrete}
use vexspoke.Base.{
  ℕ, ◌-◌, ◌≡◌, ◌∙◌, sym, ap, Option, none, some, Bool, true, false, not, ◌&&◌, ◌||◌, ◌==◌, ltb, leb,
  arith, get_or, get_or-set, Bool-cases, Option-cases, inl, inr, leb-false→lt,
}
use vexspoke.Struct.SparseSet.{SparseSet, index_of, push_entry, add, remove_entry, remove, contains}
use vexspoke.Struct.SparseSet.Dense.{
  IsSparse, index_of-lt, index_of-remove_entry, remove_entry-IsSparse,
}

-- Whether `add` can put an id into the set, or finds it there.
abbrev pub admits : SparseSet → ℕ → Bool
admits s id = ltb id s.max_entities && (contains s id || ltb s.count s.capacity)

-- A valid set holds what `sparse` leads to.
abbrev known : Option ℕ → Bool
known none = false
known (some i) = true

contains_lem : {s : SparseSet} (j : ℕ) → IsSparse s → contains s j ≡ known (index_of s j)
unfolding contains
contains_lem {s} j v = elim (Option-cases (index_of s j)) [
  | inl e ↦ rw e (ground arith)
  | inr (i, e) ↦ let h = index_of-lt j i v e in rw e (ground arith)
]

-- After `add` a valid set holds what it held, and the id too where it is in range and either known or
-- met with room.
pub contains-add :
    {s : SparseSet} (id j : ℕ)
    → IsSparse s
    → contains (add s id).1 j ≡ (admits s id && id == j || contains s j)
unfolding add contains push_entry
contains-add {s} id j v = elim (Bool-cases (leb s.max_entities id)) [
  | inl past ↦ rw past (ground arith)
  | inr below ↦
      let h = leb-false→lt s.max_entities id below in
      elim (Option-cases (index_of s id)) [
        | inl fresh ↦ elim (Bool-cases (leb s.capacity s.count)) [
          | inl full ↦ rw (below, fresh, full) (ground arith)
          | inr room ↦
              rw (below, fresh, room)
                (ground (
                  arith,
                  get_or-set s.sparse id j (some s.count) none (omega (arith, v.sparse_sized, h)),
                ))
        ]
        | inr (i, found) ↦ rw (below, found) (ground (arith, found))
      ]
]

-- After `remove` a valid set holds what it held but the id.
pub contains-remove :
    {s : SparseSet} (id j : ℕ)
    → IsSparse s
    → contains (remove s id) j ≡ (not (id == j) && contains s j)
unfolding remove contains
contains-remove {s} id j v = elim (Bool-cases (leb s.max_entities id)) [
  | inl past ↦ rw past (ground arith)
  | inr below ↦ elim (Option-cases (index_of s id)) [
    | inl absent ↦ rw (below, absent) (contains-remove_absent j v absent)
    | inr (i, found) ↦ rw (below, found) (contains-remove_entry j v found)
  ]
]
  where
    contains-remove_absent :
        (j : ℕ) → IsSparse s → index_of s id ≡ none → contains s j ≡ (not (id == j) && contains s j)
    contains-remove_absent j v e = elim (ℕ_discrete id j) [
      | yes same ↦ rw (contains_lem j v, sym (ap (index_of s) same), e) (ground arith)
      | no other ↦ ground arith
    ]

    contains-remove_entry :
        {i : ℕ} (j : ℕ)
        → IsSparse s
        → index_of s id ≡ some i
        → contains (remove_entry s id i) j ≡ (not (id == j) && contains s j)
    contains-remove_entry {i} j v e =
        rw
          (
            contains_lem j v,
            contains_lem j (remove_entry-IsSparse v id i e),
            index_of-remove_entry v id i e j,
          )
          (elim (ℕ_discrete id j) [
            | yes same ↦ ground arith
            | no other ↦ elim (ℕ_discrete (get_or s.dense (s.count - 1) 0) j) [
              | yes moved ↦
                  let b = v.backward id i e in
                  let f = v.forward (s.count - 1) (omega (arith, b)) in
                  let known_j : index_of s j ≡ some (s.count - 1) =
                    sym (ap (index_of s) moved) ∙ f.1 in
                  rw known_j (ground arith)
              | no kept ↦ ground arith
            ]
          ])
