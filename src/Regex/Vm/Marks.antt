-- ===== src/Regex/Vm/Marks.antt =====
-- The marks of a thread list, its threads, and the places that wait on the stack of addThread.
use Prim.Native.Nat.{◌<◌}
use vexspoke.Base.{
  ℕ, zero, suc, ◌≤◌, ◌≡◌, refl, ap, ◌⊎◌, inl, inr, List, [], ◌∷◌, ◌++◌, Bool, true, false, arith,
  length, get_elem?, get_or, set, replicate, Option, none, some,
}
use vexspoke.Regex.Program.{Op, char, any, class, split, jump, save, bol, eol, match}
use vexspoke.Regex.Vm.{Task, expand, restore, Row}

-- The marks that are not set.
abbrev pub unseen : List Bool → ℕ
unseen [] = 0
unseen (true ∷ bs) = unseen bs
unseen (false ∷ bs) = suc (unseen bs)

pub unseen-set : (bs : List Bool) (i : ℕ) → unseen (set bs i true) ≤ unseen bs
unseen-set [] i = omega arith
unseen-set (true ∷ bs) zero = omega arith
unseen-set (false ∷ bs) zero = omega arith
unseen-set (true ∷ bs) (suc i) = unseen-set bs i
unseen-set (false ∷ bs) (suc i) = omega (arith, unseen-set bs i)

pub unseen-set_new :
    (bs : List Bool) (i : ℕ)
    → get_or bs i false ≡ false
    → i < length bs
    → suc (unseen (set bs i true)) ≡ unseen bs
unseen-set_new [] i f h = absurd (omega (arith, h))
unseen-set_new (true ∷ bs) zero f h = let never : true ≡ false = f in cc
unseen-set_new (false ∷ bs) zero f h = refl
unseen-set_new (true ∷ bs) (suc i) f h = unseen-set_new bs i f (omega arith)
unseen-set_new (false ∷ bs) (suc i) f h = ap suc (unseen-set_new bs i f (omega arith))

pub unseen-replicate : (n : ℕ) → unseen (replicate n false) ≡ n
unseen-replicate zero = refl
unseen-replicate (suc n) = ap suc (unseen-replicate n)

abbrev pub IsMarked : List Bool → ℕ → Type 0
IsMarked bs i = get_or bs i false ≡ true

pub none_set : (n i : ℕ) → IsMarked (replicate n false) i → ⊥
none_set zero i s = let never : false ≡ true = s in cc
none_set (suc n) zero s = let never : false ≡ true = s in cc
none_set (suc n) (suc i) s = none_set n i s

pub set_more : (bs : List Bool) (i q : ℕ) → IsMarked bs q → IsMarked (set bs i true) q
set_more [] i q s = s
set_more (b ∷ bs) zero zero s = refl
set_more (b ∷ bs) zero (suc q) s = s
set_more (b ∷ bs) (suc i) zero s = s
set_more (b ∷ bs) (suc i) (suc q) s = set_more bs i q s

pub set_here : (bs : List Bool) (i : ℕ) → i < length bs → IsMarked (set bs i true) i
set_here [] i h = absurd (omega (arith, h))
set_here (b ∷ bs) zero h = refl
set_here (b ∷ bs) (suc i) h = set_here bs i (omega arith)

pub set_cases : (bs : List Bool) (i q : ℕ) → IsMarked (set bs i true) q → (q ≡ i) ⊎ IsMarked bs q
set_cases [] i q s = inr s
set_cases (b ∷ bs) zero zero s = inl refl
set_cases (b ∷ bs) zero (suc q) s = inr s
set_cases (b ∷ bs) (suc i) zero s = inr s
set_cases (b ∷ bs) (suc i) (suc q) s = elim (set_cases bs i q s) [
  | inl e ↦ inl (ap suc e)
  | inr t ↦ inr t
]

pub get_elem?-lt :
    {A : Type 0} (xs : List A) (k : ℕ) (x : A) → get_elem? xs k ≡ some x → k < length xs
get_elem?-lt [] k x e = let never : ◌≡◌ {A = Option _} none (some x) = e in absurd (none_ne never)
  where
    none_ne : {A : Type 0} {x : A} → ◌≡◌ {A = Option A} none (some x) → ⊥
    none_ne e = cc
get_elem?-lt (y ∷ xs) zero x e = omega arith
get_elem?-lt (y ∷ xs) (suc k) x e = omega (arith, get_elem?-lt xs k x e)

-- The instructions that become threads.
abbrev pub stays : Op → Bool
stays char = true
stays any = true
stays class = true
stays match = true
stays split = false
stays jump = false
stays save = false
stays bol = false
stays eol = false

abbrev pub Waits : ℕ → List Task → Type 0
Waits pc [] = ⊥
Waits pc (expand q ∷ ts) = (pc ≡ q) ⊎ Waits pc ts
Waits pc (restore slot v ∷ ts) = Waits pc ts

abbrev pub InThreads : ℕ → List (ℕ × Row) → Type 0
InThreads pc [] = ⊥
InThreads pc ((q, row) ∷ ts) = (pc ≡ q) ⊎ InThreads pc ts

pub InThreads-snoc_old :
    (pc q : ℕ) (row : Row) (ts : List (ℕ × Row))
    → InThreads pc ts
    → InThreads pc (ts ++ (q, row) ∷ [])
InThreads-snoc_old pc q row [] never = elim never [ ]
InThreads-snoc_old pc q row (t ∷ ts) (inl e) = inl e
InThreads-snoc_old pc q row (t ∷ ts) (inr e) = inr (InThreads-snoc_old pc q row ts e)

pub InThreads-snoc : (q : ℕ) (row : Row) (ts : List (ℕ × Row)) → InThreads q (ts ++ (q, row) ∷ [])
InThreads-snoc q row [] = inl refl
InThreads-snoc q row (t ∷ ts) = inr (InThreads-snoc q row ts)
