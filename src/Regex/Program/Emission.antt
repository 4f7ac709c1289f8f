-- ===== src/Regex/Program/Emission.antt =====
-- emitNode appends Thompson's code of the tree that a node stands for.
use vexspoke.Base.{
  ℕ, zero, suc, ◌+◌, ◌*◌, ◌≡◌, ◌∙◌, refl, sym, ap, List, [], ◌∷◌, ◌++◌, Bool, arith, length,
  length-append, append_assoc, u32, Option, none, some, ◌>>=◌, Option-cases, inl, inr,
}
use vexspoke.Regex.Program.{
  split, jump, save, Inst, inst, Program, count, grown, emit, update_at, put_a, put_b, patch,
  Emitter, emit_star, emit_quest, emit_plus, emit_group,
}
use vexspoke.Regex.Program.Tree.{Ast}
use vexspoke.Regex.Program.Code.{size, code, length-code}

pub update-here :
    (front : List Inst) (i : Inst) (back : List Inst) (f : Inst → Inst)
    → update_at (front ++ i ∷ back) (length front) f ≡ front ++ f i ∷ back
update-here [] i back f = refl
update-here (x ∷ front) i back f = ap (◌∷◌ x) (update-here front i back f)

pub patch-before :
    (front : List Inst) (i : Inst) (back : List Inst) (f : Inst → Inst)
    → update_at ((front ++ i ∷ []) ++ back) (length front) f ≡ (front ++ f i ∷ []) ++ back
patch-before front i back f =
    ap (λ is. update_at is (length front) f) (append_assoc front (i ∷ []) back)
    ∙ update-here front i back f
    ∙ sym (append_assoc front (f i ∷ []) back)

-- The same, with the new instruction known.
pub patch_back :
    (front : List Inst) (i i' : Inst) (more back : List Inst) (f : Inst → Inst)
    → f i ≡ i'
    → update_at (((front ++ i ∷ []) ++ more) ++ back) (length front) f
      ≡ ((front ++ i' ∷ []) ++ more) ++ back
patch_back front i i' more back f e = rw (append_assoc (front ++ i ∷ []) more back) (
    patch-before front i (more ++ back) f
    ∙ ap (λ (x : Inst). (front ++ x ∷ []) ++ (more ++ back)) e
    ∙ sym (append_assoc (front ++ i' ∷ []) more back))

pub length_block :
    (front : List Inst) (i : Inst) (back : List Inst)
    → length ((front ++ i ∷ []) ++ back) ≡ suc (length front + length back)
length_block front i back =
    omega (arith, length-append (front ++ i ∷ []) back, length-append front (i ∷ []))

pub length-snoc : (front : List Inst) (i : Inst) → length (front ++ i ∷ []) ≡ suc (length front)
length-snoc front i = omega (arith, length-append front (i ∷ []))

pub split_eq : {a a' b b' : ℕ} → a ≡ a' → b ≡ b' → inst split 0 a b ≡ inst split 0 a' b'
split_eq e f = cc

module _ (granted : ℕ → Bool) where
  -- The capacity after so many instructions more.
  abbrev pub grow_n : ℕ → ℕ → ℕ → Option ℕ
  grow_n capacity used zero = some capacity
  grow_n capacity used (suc n) = grown granted capacity used >>= λ c. grow_n c (suc used) n

  grow_n-add :
      (capacity used m n : ℕ)
      → grow_n capacity used (m + n) ≡ (grow_n capacity used m >>= λ c. grow_n c (used + m) n)
  grow_n-add capacity used zero n =
      ap (grow_n capacity used) (omega arith) ∙ ap (λ u. grow_n capacity u n) (omega arith)
  grow_n-add capacity used (suc m) n =
      let e : suc m + n ≡ suc (m + n) = omega arith in
      rw e (elim (Option-cases (grown granted capacity used)) [
        | inl refused ↦ rw refused refl
        | inr (c, got) ↦ rw got (
            grow_n-add c (suc used) m n
            ∙ ap (λ u. grow_n c (suc used) m >>= λ c'. grow_n c' u n) (omega arith))
      ])

  -- A program with so many instructions more.
  abbrev pub extend : List Inst → ℕ → List Inst → Option Program
  extend front capacity more = grow_n capacity (length front) (length more) >>= λ c.
      some (record { insts = front ++ more; capacity = c })

  -- Contents do not matter to what the arena says.
  pub step :
      (front front' : List Inst) (capacity : ℕ) (more more' : List Inst) (f g : Emitter)
      → length front ≡ length front'
      → length more ≡ length more'
      → ((c : ℕ)
          → f (record { insts = front ++ more; capacity = c })
            ≡ g (record { insts = front' ++ more'; capacity = c }))
      → (extend front capacity more >>= f) ≡ (extend front' capacity more' >>= g)
  step front front' capacity more more' f g e e' same =
      rw (e, e')
        (elim (Option-cases (grow_n capacity (length front') (length more'))) [
          | inl refused ↦ rw refused refl
          | inr (c, got) ↦ rw got (same c)
        ])

  pub extend-append :
      (front : List Inst) (capacity : ℕ) (xs ys : List Inst)
      → extend front capacity (xs ++ ys)
        ≡ (extend front capacity xs >>= λ q. extend q.insts q.capacity ys)
  extend-append front capacity xs ys =
      rw (length-append xs ys, grow_n-add capacity (length front) (length xs) (length ys))
        (elim (Option-cases (grow_n capacity (length front) (length xs))) [
          | inl refused ↦ rw refused refl
          | inr (c, got) ↦ rw (got, length-append front xs, append_assoc front xs ys) refl
        ])

  pub emit-extend : (p : Program) (i : Inst) → emit granted p i ≡ extend p.insts p.capacity (i ∷ [])
  unfolding emit
  emit-extend p i = elim (Option-cases (grown granted p.capacity (count p))) [
    | inl refused ↦ rw refused refl
    | inr (c, got) ↦ rw got refl
  ]

  -- The emitter appends the code of the tree, to any program, as far as the arena grants it.
  unfoldable pub Emits : Emitter → Ast → Type 0
  Emits body x = (p : Program) → body p ≡ extend p.insts p.capacity (code (count p) x)

  pub bind_some : (m : Option Program) → (m >>= some) ≡ m
  bind_some none = refl
  bind_some (some q) = refl

  -- The last instruction of a piece of code, with the patches that follow it.
  pub last_step :
      (front front' : List Inst) (capacity : ℕ) (i i' : Inst) (f : Emitter)
      → length front ≡ length front'
      → ((c : ℕ)
          → f (record { insts = front ++ i ∷ []; capacity = c })
            ≡ some (record { insts = front' ++ i' ∷ []; capacity = c }))
      → (extend front capacity (i ∷ []) >>= f) ≡ extend front' capacity (i' ∷ [])
  last_step front front' capacity i i' f e same =
      step front front' capacity (i ∷ []) (i' ∷ []) f some e refl same ∙ bind_some _

  module _ (body : Emitter) (x : Ast) (emits : Emits body x) where
    -- The emitter at a program whose count is known.
    pub at_count :
        (insts : List Inst) (capacity pc : ℕ)
        → length insts ≡ pc
        → body (record { insts = insts; capacity = capacity }) ≡ extend insts capacity (code pc x)
    unfolding Emits
    at_count insts capacity pc e = emits _ ∙ ap (λ n. extend insts capacity (code n x)) e

    -- The emitter after a split that is sent to it.
    pub after_split :
        (front : List Inst) (capacity : ℕ)
        → body (
            patch
              (length front)
              (put_a (length front + 1))
              (record { insts = front ++ inst split 0 0 0 ∷ []; capacity = capacity }))
          ≡ extend
              (front ++ inst split 0 (length front + 1) 0 ∷ [])
              capacity
              (code (suc (length front)) x)
    after_split front capacity =
        rw (update-here front (inst split 0 0 0) [] (put_a (length front + 1)))
          (at_count _ capacity (suc (length front)) (length-snoc front _))

    pub Emits-star : Emits (emit_star granted body) (Ast.star x)
    unfolding Emits emit_star
    Emits-star p =
        let k = count p in
        let s = inst split 0 (suc k) (suc (suc (k + size x))) in
        let s1 = inst split 0 (k + 1) 0 in
        let j = inst jump 0 k 0 in
        let body_code = code (suc k) x in
        rw emit-extend (
          step p.insts p.insts p.capacity (inst split 0 0 0 ∷ []) (s ∷ []) _
            (λ q. extend q.insts q.capacity (body_code ++ j ∷ [])) refl refl
            (λ c.
              rw (after_split p.insts c, extend-append (p.insts ++ s ∷ []) c body_code (j ∷ []))
                (step (p.insts ++ s1 ∷ []) (p.insts ++ s ∷ []) c body_code body_code _
                  (λ q. extend q.insts q.capacity (j ∷ []))
                  (length-snoc p.insts s1 ∙ sym (length-snoc p.insts s)) refl
                  (λ c2. rw emit-extend (
                    last_step _ _ c2 (inst jump 0 0 0) j _
                      (length_block p.insts s1 body_code ∙ sym (length_block p.insts s body_code))
                      (λ c3.
                        let opened = (p.insts ++ s1 ∷ []) ++ body_code in
                        let n = length (opened ++ inst jump 0 0 0 ∷ []) in
                        let e : n ≡ suc (suc (k + size x)) = omega (
                          arith,
                          length-snoc opened (inst jump 0 0 0),
                          length_block p.insts s1 body_code,
                          length-code (suc k) x,
                        ) in
                        ap (λ is. some (record { insts = is; capacity = c3 }))
                          (ap (λ is. update_at is k (put_b n))
                              (update-here opened (inst jump 0 0 0) [] (put_a k))
                            ∙ patch_back p.insts s1 s body_code (j ∷ []) (put_b n)
                                (split_eq (omega arith) e)))))))
          ∙ sym (extend-append p.insts p.capacity (s ∷ []) (body_code ++ j ∷ [])))

    pub Emits-quest : Emits (emit_quest granted body) (Ast.quest x)
    unfolding Emits emit_quest
    Emits-quest p =
        let k = count p in
        let s = inst split 0 (suc k) (suc (k + size x)) in
        let s1 = inst split 0 (k + 1) 0 in
        let body_code = code (suc k) x in
        rw emit-extend (
          step p.insts p.insts p.capacity (inst split 0 0 0 ∷ []) (s ∷ []) _
            (λ q. extend q.insts q.capacity body_code) refl refl
            (λ c. rw (after_split p.insts c) (
              step (p.insts ++ s1 ∷ []) (p.insts ++ s ∷ []) c body_code body_code _ some
                (length-snoc p.insts s1 ∙ sym (length-snoc p.insts s)) refl
                (λ c2.
                  ap (λ is. some (record { insts = is; capacity = c2 }))
                    (patch-before p.insts s1 body_code
                        (put_b (length ((p.insts ++ s1 ∷ []) ++ body_code)))
                      ∙ ap (λ (i : Inst). (p.insts ++ i ∷ []) ++ body_code)
                          (split_eq (omega arith) (
                            length_block p.insts s1 body_code
                            ∙ omega (arith, length-code (suc k) x)))))
              ∙ bind_some _))
          ∙ sym (extend-append p.insts p.capacity (s ∷ []) body_code))

    pub Emits-plus : Emits (emit_plus granted body) (Ast.plus x)
    unfolding Emits emit_plus
    Emits-plus p =
        let k = count p in
        let body_code = code k x in
        let s = inst split 0 k (suc (k + size x)) in
        rw (at_count p.insts p.capacity k refl) (
          step p.insts p.insts p.capacity body_code body_code _
            (λ q. extend q.insts q.capacity (s ∷ [])) refl refl
            (λ c.
              let opened = p.insts ++ body_code in
              rw emit-extend (
                last_step opened opened c (inst split 0 0 0) s _ refl (λ c2.
                  ap (λ is. some (record { insts = is; capacity = c2 }))
                    (ap
                        (λ is.
                          update_at is (length opened)
                            (put_b (length (opened ++ inst split 0 0 0 ∷ []))))
                        (update-here opened (inst split 0 0 0) [] (put_a k))
                      ∙ update-here opened (inst split 0 k 0) []
                          (put_b (length (opened ++ inst split 0 0 0 ∷ [])))
                      ∙ ap (λ (i : Inst). opened ++ i ∷ [])
                          (split_eq refl (
                            length-snoc opened (inst split 0 0 0)
                            ∙ omega (arith, length-append p.insts body_code, length-code k x)))))))
          ∙ sym (extend-append p.insts p.capacity body_code (s ∷ [])))

    pub Emits-group : (g : ℕ) → Emits (emit_group granted g body) (Ast.group g x)
    unfolding Emits emit_group
    Emits-group zero p = at_count p.insts p.capacity (count p) refl
    Emits-group (suc g) p =
        let k = count p in
        let s = inst save 0 (u32 (suc g * 2)) 0 in
        let s' = inst save 0 (u32 (suc g * 2 + 1)) 0 in
        let body_code = code (suc k) x in
        rw emit-extend (
          step p.insts p.insts p.capacity (s ∷ []) (s ∷ []) _
            (λ q. extend q.insts q.capacity (body_code ++ s' ∷ [])) refl refl
            (λ c.
              rw
                (
                  at_count (p.insts ++ s ∷ []) c (suc k) (length-snoc p.insts s),
                  extend-append (p.insts ++ s ∷ []) c body_code (s' ∷ []),
                )
                (step (p.insts ++ s ∷ []) (p.insts ++ s ∷ []) c body_code body_code _ _ refl refl
                  (λ c2. emit-extend _ s')))
          ∙ sym (extend-append p.insts p.capacity (s ∷ []) (body_code ++ s' ∷ [])))
