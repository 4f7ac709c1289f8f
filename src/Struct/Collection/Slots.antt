-- ===== src/Struct/Collection/Slots.antt =====
-- What a slot holds after a bounded write, and the words that a buffer holds.
use vexspoke.Base.{
  ℕ, zero, suc, ◌%◌, ◌≤◌, ◌<◌, ◌≡◌, refl, ap, List, [], ◌∷◌, ◌++◌, map, arith, get_or, set, take,
  length,
}
use vexspoke.Struct.Collection.{word_mod, read_slot_at, write_slot_at}

-- Reading back a written slot gives the value, cut to the stride's integer type.
pub read_slot_at-write_slot_at :
    (slot stride value : ℕ)
    → read_slot_at (write_slot_at slot stride value) stride ≡ value % word_mod stride
unfolding read_slot_at write_slot_at
read_slot_at-write_slot_at slot stride value = ground arith

-- The words that the first `n` slots of a buffer read as.
abbrev pub words : ℕ → ℕ → List ℕ → List ℕ
words stride n xs = map (λ slot. read_slot_at slot stride) (take n xs)

pub get_or-words :
    (stride n i : ℕ) (xs : List ℕ)
    → n ≤ length xs
    → i < n
    → get_or (words stride n xs) i 0 ≡ read_slot_at (get_or xs i 0) stride
get_or-words stride zero i xs h p = absurd (omega arith)
get_or-words stride (suc n) i [] h p = absurd (omega arith)
get_or-words stride (suc n) zero (x ∷ xs) h p = refl
get_or-words stride (suc n) (suc i) (x ∷ xs) h p =
    get_or-words stride n i xs (omega arith) (omega arith)

pub length-words : (stride n : ℕ) (xs : List ℕ) → n ≤ length xs → length (words stride n xs) ≡ n
length-words stride zero xs h = refl
length-words stride (suc n) [] h = absurd (omega arith)
length-words stride (suc n) (x ∷ xs) h = ap suc (length-words stride n xs (omega arith))

-- A write below `n` changes one word; a write at `n` adds one behind them.
pub words-set :
    (stride n i v : ℕ) (xs : List ℕ)
    → n ≤ length xs
    → i < n
    → words stride n (set xs i v) ≡ set (words stride n xs) i (read_slot_at v stride)
words-set stride zero i v xs h p = absurd (omega arith)
words-set stride (suc n) i v [] h p = absurd (omega arith)
words-set stride (suc n) zero v (x ∷ xs) h p = refl
words-set stride (suc n) (suc i) v (x ∷ xs) h p =
    ap (◌∷◌ (read_slot_at x stride)) (words-set stride n i v xs (omega arith) (omega arith))

pub words-set_end :
    (stride n v : ℕ) (xs : List ℕ)
    → n < length xs
    → words stride (suc n) (set xs n v) ≡ words stride n xs ++ (read_slot_at v stride ∷ [])
words-set_end stride n v [] h = elim h [ ]
words-set_end stride zero v (x ∷ xs) h = refl
words-set_end stride (suc n) v (x ∷ xs) h =
    ap (◌∷◌ (read_slot_at x stride)) (words-set_end stride n v xs (omega arith))

-- Behind the first `n` slots a buffer may hold anything.
pub words-take_append :
    (stride n : ℕ) (xs ys : List ℕ)
    → n ≤ length xs
    → words stride n (take n xs ++ ys) ≡ words stride n xs
words-take_append stride zero xs ys h = refl
words-take_append stride (suc n) [] ys h = absurd (omega arith)
words-take_append stride (suc n) (x ∷ xs) ys h =
    ap (◌∷◌ (read_slot_at x stride)) (words-take_append stride n xs ys (omega arith))

-- The last of the first `n + 1` words.
pub words-suc :
    (stride n : ℕ) (xs : List ℕ)
    → n < length xs
    → words stride (suc n) xs ≡ words stride n xs ++ (read_slot_at (get_or xs n 0) stride ∷ [])
words-suc stride n [] h = elim h [ ]
words-suc stride zero (x ∷ xs) h = refl
words-suc stride (suc n) (x ∷ xs) h =
    ap (◌∷◌ (read_slot_at x stride)) (words-suc stride n xs (omega arith))
