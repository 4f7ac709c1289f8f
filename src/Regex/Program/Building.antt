-- ===== src/Regex/Program/Building.antt =====
-- The code of every kind of node, and of a whole program.
use vexspoke.Base.{
  ℕ, zero, suc, ◌+◌, ◌-◌, ◌*◌, ◌≤◌, ◌<◌, ◌≡◌, ◌∙◌, refl, sym, ap, List, [], ◌∷◌, ◌++◌, Bool, true,
  false, ◌==◌, ltb, leb, arith, if◌then◌else◌, length, length-append, append-nil, get_elem?, u32,
  Option, none, some, ◌>>=◌, >>=_assoc, Option-cases, Bool-cases, inl, inr,
}
use vexspoke.Regex.NodeList.{Kind, Node, rep_inf}
use vexspoke.Regex.Program.{
  char, any, class, split, jump, save, bol, eol, match, Inst, inst, Program, count, grown, emit,
  update_at, put_a, put_b, patch, Emitter, emit_star, emit_quest, emit_alt, emit_times, emit_repeat,
  emit_kind, emit_node, build, empty_program,
}
use vexspoke.Regex.Program.Tree.{Ast, times, repeated, read_kind, read_tree}
use vexspoke.Regex.Program.Code.{program_code, size, code, length-code}
use vexspoke.Regex.Program.Emission.{
  grow_n, extend, step, extend-append, emit-extend, bind_some, Emits, at_count, after_split,
  Emits-star, Emits-quest, Emits-plus, Emits-group, split_eq, length-snoc, length_block,
  patch-before, patch_back,
}

module _ (granted : ℕ → Bool) where
  Emits-then :
      (first second : Emitter) (x y : Ast)
      → Emits granted first x
      → Emits granted second y
      → Emits granted (λ p. first p >>= second) (Ast.concat x y)
  unfolding Emits
  Emits-then first second x y one two p =
      let k = count p in
      rw (one p) (
        step granted p.insts p.insts p.capacity (code k x) (code k x) second _ refl refl (λ c.
          at_count granted second y two _ c (k + size x)
            (omega (arith, length-append p.insts (code k x), length-code k x)))
        ∙ sym (extend-append granted p.insts p.capacity (code k x) (code (k + size x) y)))

  Emits-empty : Emits granted some Ast.empty
  unfolding Emits
  Emits-empty p =
      ap (λ is. some (record { insts = is; capacity = p.capacity })) (sym (append-nil p.insts))

  Emits-times :
      (n : ℕ) (body rest : Emitter) (x last : Ast)
      → Emits granted body x
      → Emits granted rest last
      → Emits granted (λ p. emit_times granted n body p >>= rest) (times n x last)
  unfolding emit_times Emits
  Emits-times zero body rest x last one two p = two p
  Emits-times (suc n) body rest x last one two p =
      >>=_assoc (body p) (emit_times granted n body) rest
      ∙ Emits-then body (λ q. emit_times granted n body q >>= rest) x (times n x last) one
          (Emits-times n body rest x last one two) p

  Emits-copies :
      (n : ℕ) (body : Emitter) (x : Ast)
      → Emits granted body x
      → Emits granted (emit_times granted n body) (times n x Ast.empty)
  unfolding Emits
  Emits-copies n body x one p =
      sym (bind_some granted (emit_times granted n body p))
      ∙ Emits-times n body some x Ast.empty one Emits-empty p

  Emits-repeat :
      (low high : ℕ) (body : Emitter) (x : Ast)
      → Emits granted body x
      → Emits granted (emit_repeat granted low high body) (repeated low high x)
  unfolding emit_repeat Emits
  Emits-repeat low high body x one p = elim (Bool-cases (high == rep_inf)) [
    | inl t ↦ rw t (
        Emits-times low body (emit_star granted body) x (Ast.star x) one
          (Emits-star granted body x one) p)
    | inr f ↦ rw f (
        Emits-times low body (emit_times granted (high - low) (emit_quest granted body)) x
          (times (high - low) (Ast.quest x) Ast.empty) one
          (Emits-copies (high - low) (emit_quest granted body) (Ast.quest x)
            (Emits-quest granted body x one))
          p)
  ]

  Emits-alt :
      (left right : Emitter) (x y : Ast)
      → Emits granted left x
      → Emits granted right y
      → Emits granted (emit_alt granted left right) (Ast.alt x y)
  unfolding Emits emit_alt
  Emits-alt left right x y one two p =
      let k = count p in
      let r = suc (suc (k + size x)) in
      let s = inst split 0 (suc k) r in
      let s1 = inst split 0 (k + 1) 0 in
      let j0 = inst jump 0 0 0 in
      let j = inst jump 0 (r + size y) 0 in
      let xs = code (suc k) x in
      let ys = code r y in
      let half = (p.insts ++ s1 ∷ []) ++ xs in
      let whole = (p.insts ++ s ∷ []) ++ xs in
      let same : length half ≡ length whole =
        length_block p.insts s1 xs ∙ sym (length_block p.insts s xs) in
      let at_r : length (whole ++ j0 ∷ []) ≡ r =
        omega (arith, length-snoc whole j0, length_block p.insts s xs, length-code (suc k) x) in
      let fin : Emitter = λ p4. some (patch (length half) (put_a (count p4)) p4) in
      let n = length (half ++ j0 ∷ []) in
      let patched : update_at (half ++ j0 ∷ []) k (put_b n) ≡ whole ++ j0 ∷ [] =
        patch_back p.insts s1 s xs (j0 ∷ []) (put_b n) (
          split_eq (omega arith)
            (omega (arith, length-snoc half j0, length-snoc whole j0, same, at_r))) in
      rw (emit-extend granted) (
        step granted p.insts p.insts p.capacity (inst split 0 0 0 ∷ []) (s ∷ []) _
          (λ q. extend granted q.insts q.capacity (xs ++ j ∷ ys)) refl refl
          (λ c.
            rw
              (
                after_split granted left x one p.insts c,
                extend-append granted (p.insts ++ s ∷ []) c xs (j ∷ ys),
              )
              (step granted (p.insts ++ s1 ∷ []) (p.insts ++ s ∷ []) c xs xs _
                (λ q. extend granted q.insts q.capacity (j ∷ ys))
                (length-snoc p.insts s1 ∙ sym (length-snoc p.insts s)) refl
                (λ c2.
                  rw (emit-extend granted, extend-append granted whole c2 (j ∷ []) ys)
                    (step granted half whole c2 (j0 ∷ []) (j ∷ []) _
                      (λ q. extend granted q.insts q.capacity ys) same refl
                      (λ c3.
                        ap (λ is. right (record { insts = is; capacity = c3 }) >>= fin) patched
                        ∙ rw (at_count granted right y two (whole ++ j0 ∷ []) c3 r at_r) (
                            step granted (whole ++ j0 ∷ []) (whole ++ j ∷ []) c3 ys ys fin some
                              (length-snoc whole j0 ∙ sym (length-snoc whole j)) refl
                              (λ c4.
                                ap (λ is. some (record { insts = is; capacity = c4 }))
                                  (ap
                                      (λ n.
                                        update_at ((whole ++ j0 ∷ []) ++ ys) n
                                          (put_a (length ((whole ++ j0 ∷ []) ++ ys))))
                                      same
                                    ∙ patch-before whole j0 ys
                                        (put_a (length ((whole ++ j0 ∷ []) ++ ys)))
                                    ∙ ap (λ a. (whole ++ inst jump 0 a 0 ∷ []) ++ ys)
                                        (omega (
                                          arith,
                                          at_r,
                                          length-append (whole ++ j0 ∷ []) ys,
                                          length-code r y,
                                        )))))
                        ∙ bind_some granted _)))))
        ∙ sym (extend-append granted p.insts p.capacity (s ∷ []) (xs ++ j ∷ ys)))

  -- A child that reads as a tree is emitted as the tree's code.
  EmitsAll : (ℕ → Emitter) → (ℕ → Option Ast) → Type 0
  EmitsAll emitter reader = (i : ℕ) (x : Ast) → reader i ≡ some x → Emits granted (emitter i) x

  none_ne : (x : Ast) → ◌≡◌ {A = Option Ast} none (some x) → ⊥
  none_ne x e = cc

  known :
      (body : Emitter) (x y : Ast)
      → Emits granted body x
      → ◌≡◌ {A = Option Ast} (some x) (some y)
      → Emits granted body y
  known body x y emits e = let q : x ≡ y = cc in rw (sym q) emits

  of_one :
      (body : Emitter) (m : Option Ast) (f : Ast → Ast) (x : Ast)
      → ((y : Ast) → m ≡ some y → Emits granted body (f y))
      → (m >>= λ y. some (f y)) ≡ some x
      → Emits granted body x
  of_one body none f x emits e = absurd (none_ne x e)
  of_one body (some y) f x emits e = known body (f y) x (emits y refl) e

  of_two :
      (body : Emitter) (m m' : Option Ast) (f : Ast → Ast → Ast) (x : Ast)
      → ((y y' : Ast) → m ≡ some y → m' ≡ some y' → Emits granted body (f y y'))
      → (m >>= λ y. m' >>= λ y'. some (f y y')) ≡ some x
      → Emits granted body x
  of_two body none m' f x emits e = absurd (none_ne x e)
  of_two body (some y) m' f x emits e = of_one body m' (f y) x (λ y' e'. emits y y' refl e') e

  Emits-inst :
      (i : Inst) (x : Ast)
      → ((pc : ℕ) → code pc x ≡ i ∷ [])
      → Emits granted (λ p. emit granted p i) x
  unfolding Emits
  Emits-inst i x one p = rw (one (count p)) (emit-extend granted p i)

  emit_kind-Emits :
      (emitter : ℕ → Emitter) (reader : ℕ → Option Ast) (node : Node) (kind : Kind) (x : Ast)
      → EmitsAll emitter reader
      → read_kind reader node kind ≡ some x
      → Emits granted (emit_kind granted emitter node kind) x
  unfolding emit_kind read_kind EmitsAll
  emit_kind-Emits emitter reader node Kind.empty x all e = known _ Ast.empty x Emits-empty e
  emit_kind-Emits emitter reader node Kind.char x all e =
      known _ (Ast.char node.byte) x (Emits-inst (inst char node.byte 0 0) _ (λ pc. refl)) e
  emit_kind-Emits emitter reader node Kind.any x all e =
      known _ Ast.any x (Emits-inst (inst any 0 0 0) _ (λ pc. refl)) e
  emit_kind-Emits emitter reader node Kind.class x all e =
      known _ (Ast.class node.cls_index) x
        (Emits-inst (inst class 0 node.cls_index 0) _ (λ pc. refl)) e
  emit_kind-Emits emitter reader node Kind.bol x all e =
      known _ Ast.bol x (Emits-inst (inst bol 0 0 0) _ (λ pc. refl)) e
  emit_kind-Emits emitter reader node Kind.eol x all e =
      known _ Ast.eol x (Emits-inst (inst eol 0 0 0) _ (λ pc. refl)) e
  emit_kind-Emits emitter reader node Kind.concat x all e =
      of_two _ (reader node.a) (reader node.b) Ast.concat x
        (λ y y' h h'. Emits-then (emitter node.a) (emitter node.b) y y' (all _ y h) (all _ y' h')) e
  emit_kind-Emits emitter reader node Kind.alt x all e =
      of_two _ (reader node.a) (reader node.b) Ast.alt x
        (λ y y' h h'. Emits-alt (emitter node.a) (emitter node.b) y y' (all _ y h) (all _ y' h')) e
  emit_kind-Emits emitter reader node Kind.star x all e =
      of_one _ (reader node.a) Ast.star x (λ y h. Emits-star granted _ y (all _ y h)) e
  emit_kind-Emits emitter reader node Kind.plus x all e =
      of_one _ (reader node.a) Ast.plus x (λ y h. Emits-plus granted _ y (all _ y h)) e
  emit_kind-Emits emitter reader node Kind.quest x all e =
      of_one _ (reader node.a) Ast.quest x (λ y h. Emits-quest granted _ y (all _ y h)) e
  emit_kind-Emits emitter reader node Kind.repeat x all e =
      of_one _ (reader node.a) (repeated node.rep_min node.rep_max) x
        (λ y h. Emits-repeat node.rep_min node.rep_max _ y (all _ y h)) e
  emit_kind-Emits emitter reader node Kind.group x all e =
      of_one _ (reader node.a) (Ast.group node.group) x
        (λ y h. Emits-group granted _ y (all _ y h) node.group) e

  -- Where the node at an index reads as a tree, emitNode appends the tree's code, unless the program
  -- becomes too long or the arena refuses a block.
  pub emit_node-Emits :
      (fuel : ℕ) (nodes : List Node) (index : ℕ) (x : Ast)
      → read_tree fuel nodes index ≡ some x
      → Emits granted (emit_node granted fuel nodes index) x
  unfolding read_tree emit_node EmitsAll
  emit_node-Emits zero nodes index x e = cc
  emit_node-Emits (suc fuel) nodes index x e =
      at_node (get_elem? nodes index) x (λ i y h. emit_node-Emits fuel nodes i y h) e
    where
      at_node :
          (m : Option Node) (x : Ast)
          → ((i : ℕ) (y : Ast)
              → read_tree fuel nodes i ≡ some y
              → Emits granted (emit_node granted fuel nodes i) y)
          → (m >>= λ node. read_kind (read_tree fuel nodes) node node.kind) ≡ some x
          → Emits granted
              (λ p. m >>= λ node. emit_kind granted (emit_node granted fuel nodes) node node.kind p)
              x
      at_node none x all e = absurd (none_ne x e)
      at_node (some node) x all e = emit_kind-Emits _ _ node node.kind x all e

  emit_two :
      (p : Program) (i i' : Inst)
      → (emit granted p i >>= λ q. emit granted q i')
        ≡ extend granted p.insts p.capacity (i ∷ i' ∷ [])
  emit_two p i i' = rw (emit-extend granted p i) (
      step granted p.insts p.insts p.capacity (i ∷ []) (i ∷ []) (λ q. emit granted q i')
        (λ q. extend granted q.insts q.capacity (i' ∷ [])) refl refl (λ c. emit-extend granted _ i')
      ∙ sym (extend-append granted p.insts p.capacity (i ∷ []) (i' ∷ [])))

  -- RegexProgram_build, on a root that reads as a tree, gives what emitting the tree's code between
  -- the saves of the whole match and MATCH gives: that program, or nothing, by what the ceiling and
  -- the arena allow.
  pub build-code :
      (fuel : ℕ) (nodes : List Node) (root : ℕ) (x : Ast)
      → read_tree fuel nodes root ≡ some x
      → build granted fuel nodes root empty_program ≡ extend granted [] 0 (program_code x)
  unfolding build Emits
  build-code fuel nodes root x e =
      let s = inst save 0 0 0 in
      let s' = inst save 0 1 0 in
      let m = inst match 0 0 0 in
      rw (emit-extend granted) (
        step granted [] [] 0 (s ∷ []) (s ∷ []) _
          (λ q. extend granted q.insts q.capacity (code 1 x ++ s' ∷ m ∷ [])) refl refl
          (λ c.
            rw
              (
                at_count granted (emit_node granted fuel nodes root) x
                    (emit_node-Emits fuel nodes root x e) (s ∷ []) c 1 refl,
                extend-append granted (s ∷ []) c (code 1 x) (s' ∷ m ∷ []),
              )
              (step granted (s ∷ []) (s ∷ []) c (code 1 x) (code 1 x) _ _ refl refl
                (λ c2. emit_two _ s' m)))
        ∙ sym (extend-append granted [] 0 (s ∷ []) (code 1 x ++ s' ∷ m ∷ [])))

  one_more :
      ((bytes : ℕ) → granted bytes ≡ true)
      → (used capacity : ℕ) → used < 32768
      → (c : ℕ) × (grown granted capacity used ≡ some c)
  unfolding grown
  one_more always used capacity h =
      let f : leb 32768 used ≡ false = ground arith in
      let doubled = if capacity == 0 then 64 else u32 (capacity * 2) in
      elim (Bool-cases (used == capacity)) [
        | inl t ↦ (if ltb 32768 doubled then 32768 else doubled, rw (f, t, always) refl)
        | inr g ↦ (capacity, rw (f, g) refl)
      ]

  grow_n-some :
      ((bytes : ℕ) → granted bytes ≡ true)
      → (n used capacity : ℕ) → used + n ≤ 32768
      → (c : ℕ) × (grow_n granted capacity used n ≡ some c)
  grow_n-some always zero used capacity h = (capacity, refl)
  grow_n-some always (suc n) used capacity h =
      let (c, e) = one_more always used capacity (omega arith) in
      let (d, f) = grow_n-some always n (suc used) c (omega arith) in (d, rw e f)

  -- With an arena that refuses nothing, a tree whose program has at most 32768 instructions
  -- compiles to that program.
  pub build_fits :
      (fuel : ℕ) (nodes : List Node) (root : ℕ) (x : Ast)
      → read_tree fuel nodes root ≡ some x
      → ((bytes : ℕ) → granted bytes ≡ true)
      → size x + 3 ≤ 32768
      → (p : Program) × (build granted fuel nodes root empty_program ≡ some p)
        × (p.insts ≡ program_code x)
  build_fits fuel nodes root x e always h =
      let sized : length (program_code x) ≡ size x + 3 = omega (
        arith,
        length-append (code 1 x) (inst save 0 1 0 ∷ inst match 0 0 0 ∷ []),
        length-code 1 x,
      ) in
      let (c, got) = grow_n-some always (length (program_code x)) 0 0 (omega (arith, sized)) in
      (
        record { insts = program_code x; capacity = c },
        build-code fuel nodes root x e ∙ rw got refl,
        refl,
      )

  -- Whatever the arena refuses, a program that is built is the code of its tree.
  pub build-some :
      (fuel : ℕ) (nodes : List Node) (root : ℕ) (x : Ast) (p : Program)
      → read_tree fuel nodes root ≡ some x
      → build granted fuel nodes root empty_program ≡ some p
      → p.insts ≡ program_code x
  build-some fuel nodes root x p e built =
      elim (Option-cases (grow_n granted 0 0 (length (program_code x)))) [
        | inl refused ↦
            let q : ◌≡◌ {A = Option Program} (some p) none =
              sym built ∙ build-code fuel nodes root x e ∙ rw refused refl in
            absurd (some_ne p q)
        | inr (c, got) ↦
            let whole : Program = record { insts = program_code x; capacity = c } in
            let q : some p ≡ some whole =
              sym built ∙ build-code fuel nodes root x e ∙ rw got refl in
            same_insts p whole q
      ]
    where
      some_ne : (p : Program) → ◌≡◌ {A = Option Program} (some p) none → ⊥
      some_ne p q = cc

      same_insts : (p q : Program) → ◌≡◌ {A = Option Program} (some p) (some q) → p.insts ≡ q.insts
      same_insts p q e = let r : p ≡ q = cc in ap (λ (t : Program). t.insts) r
