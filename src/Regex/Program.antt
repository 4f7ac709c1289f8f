-- ===== src/Regex/Program.antt =====
-- src/regex/program.c: `RegexProgram`, the instructions that a pattern compiles to. `count` is the
-- length of the list of instructions; the rest of the block is not read. Where the C code returns
-- false, and leaves a program of which it says that it must be freed, the model returns `none`.
pub mod Tree
pub mod Code
pub mod Emission
pub mod Building
pub mod Samples
mod Tests
use vexspoke.Base.{
  ℕ, zero, suc, ◌+◌, ◌-◌, ◌*◌, List, [], ◌∷◌, ◌++◌, Bool, true, false, ◌==◌, ltb, leb,
  if◌then◌else◌, length, get_elem?, u32, Option, none, some, ◌>>=◌,
}
use vexspoke.Regex.NodeList.{Kind, Node, rep_inf}

-- RegexOp.
pub data Op : Type 0 where
  char any class split jump save bol eol match : Op

pub record Inst : Type 0 where
  pub op : Op
  pub byte : ℕ
  pub a : ℕ
  pub b : ℕ

abbrev pub inst : Op → ℕ → ℕ → ℕ → Inst
inst op byte a b = record { op = op; byte = byte; a = a; b = b }

pub record Program : Type 0 where
  pub insts : List Inst
  pub capacity : ℕ

-- RegexProgram_0.
abbrev pub empty_program : Program
empty_program = record { insts = []; capacity = 0 }

-- RegexProgram_count.
abbrev pub count : Program → ℕ
count p = length p.insts

-- RegexProgram_at.
abbrev pub inst_at : Program → ℕ → Option Inst
inst_at p index = get_elem? p.insts index

-- REGEX_MAX_PROGRAM.
abbrev pub max_program : ℕ
max_program = 32768

-- What emit does to the capacity, for one instruction more: the arena, `granted`, is asked for a
-- block where the old one is full.
pub grown : (ℕ → Bool) → ℕ → ℕ → Option ℕ
grown granted capacity used =
    let doubled = if capacity == 0 then 64 else u32 (capacity * 2) in
    let next = if ltb max_program doubled then max_program else doubled in
    if leb max_program used
    then none
    else if used == capacity
    then (if granted (next * 12) then some next else none)
    else some capacity

-- emit. The index of the instruction is the count before.
pub emit : (ℕ → Bool) → Program → Inst → Option Program
emit granted p i = grown granted p.capacity (count p) >>= λ capacity.
    some (record { insts = p.insts ++ i ∷ []; capacity = capacity })

-- A write to an operand of an instruction that was emitted before.
abbrev pub update_at : List Inst → ℕ → (Inst → Inst) → List Inst
update_at [] k f = []
update_at (i ∷ is) zero f = f i ∷ is
update_at (i ∷ is) (suc k) f = i ∷ update_at is k f

abbrev pub put_a : ℕ → Inst → Inst
put_a a i = record i { a = a }

abbrev pub put_b : ℕ → Inst → Inst
put_b b i = record i { b = b }

abbrev pub patch : ℕ → (Inst → Inst) → Program → Program
patch k f p = record p { insts = update_at p.insts k f }

-- What emits the code of a node.
abbrev pub Emitter : Type 0
Emitter = Program → Option Program

module _ (granted : ℕ → Bool) where
  -- The case REGEX_NODE_STAR of emitNode, and the end of REGEX_NODE_REPEAT without upper bound.
  pub emit_star : Emitter → Emitter
  emit_star body p = do
    p1 ← emit granted p (inst split 0 0 0)
    p2 ← body (patch (count p) (put_a (count p + 1)) p1)
    p3 ← emit granted p2 (inst jump 0 0 0)
    some (patch (count p) (put_b (count p3)) (patch (count p2) (put_a (count p)) p3))

  -- The case REGEX_NODE_QUEST, and each optional copy of REGEX_NODE_REPEAT.
  pub emit_quest : Emitter → Emitter
  emit_quest body p = do
    p1 ← emit granted p (inst split 0 0 0)
    p2 ← body (patch (count p) (put_a (count p + 1)) p1)
    some (patch (count p) (put_b (count p2)) p2)

  -- The case REGEX_NODE_PLUS.
  pub emit_plus : Emitter → Emitter
  emit_plus body p = do
    p1 ← body p
    p2 ← emit granted p1 (inst split 0 0 0)
    some (patch (count p1) (put_b (count p2)) (patch (count p1) (put_a (count p)) p2))

  -- The case REGEX_NODE_ALT.
  pub emit_alt : Emitter → Emitter → Emitter
  emit_alt left right p = do
    p1 ← emit granted p (inst split 0 0 0)
    p2 ← left (patch (count p) (put_a (count p + 1)) p1)
    p3 ← emit granted p2 (inst jump 0 0 0)
    p4 ← right (patch (count p) (put_b (count p3)) p3)
    some (patch (count p2) (put_a (count p4)) p4)

  -- The case REGEX_NODE_GROUP.
  pub emit_group : ℕ → Emitter → Emitter
  emit_group zero body p = body p
  emit_group (suc g) body p = do
    p1 ← emit granted p (inst save 0 (u32 (suc g * 2)) 0)
    p2 ← body p1
    emit granted p2 (inst save 0 (u32 (suc g * 2 + 1)) 0)

  -- So many runs of an emitter, one after the other.
  pub emit_times : ℕ → Emitter → Emitter
  emit_times zero body p = some p
  emit_times (suc n) body p = body p >>= emit_times n body

  -- The case REGEX_NODE_REPEAT.
  pub emit_repeat : ℕ → ℕ → Emitter → Emitter
  emit_repeat low high body p =
      emit_times low body p
      >>= (if high == rep_inf then emit_star body else emit_times (high - low) (emit_quest body))

  -- The switch of emitNode, where `child` emits the node at an index.
  pub emit_kind : (ℕ → Emitter) → Node → Kind → Emitter
  emit_kind child node Kind.empty p = some p
  emit_kind child node Kind.char p = emit granted p (inst char node.byte 0 0)
  emit_kind child node Kind.any p = emit granted p (inst any 0 0 0)
  emit_kind child node Kind.class p = emit granted p (inst class 0 node.cls_index 0)
  emit_kind child node Kind.bol p = emit granted p (inst bol 0 0 0)
  emit_kind child node Kind.eol p = emit granted p (inst eol 0 0 0)
  emit_kind child node Kind.concat p = child node.a p >>= child node.b
  emit_kind child node Kind.alt p = emit_alt (child node.a) (child node.b) p
  emit_kind child node Kind.star p = emit_star (child node.a) p
  emit_kind child node Kind.plus p = emit_plus (child node.a) p
  emit_kind child node Kind.quest p = emit_quest (child node.a) p
  emit_kind child node Kind.repeat p = emit_repeat node.rep_min node.rep_max (child node.a) p
  emit_kind child node Kind.group p = emit_group node.group (child node.a) p

  -- emitNode, to the depth that the fuel allows.
  pub emit_node : ℕ → List Node → ℕ → Emitter
  emit_node zero nodes index p = none
  emit_node (suc fuel) nodes index p =
      get_elem? nodes index >>= λ node. emit_kind (emit_node fuel nodes) node node.kind p

  -- RegexProgram_build.
  pub build : ℕ → List Node → ℕ → Emitter
  build fuel nodes root p = do
    p1 ← emit granted p (inst save 0 0 0)
    p2 ← emit_node fuel nodes root p1
    p3 ← emit granted p2 (inst save 0 1 0)
    emit granted p3 (inst match 0 0 0)
