-- ===== src/Atomic/Spin.antt =====
-- src/atomic/spin.c: `SpinLock`, one atomic word. An operation is modelled by its atomic accesses of
-- the word, so a run of several threads is a sequence of accesses, each by a thread with a 64-bit
-- id, what pthread_self returns; the load and the store of SpinLock_unlock are two. The order of other memory accesses and the pauses are not
-- modelled, nor are null locks.
pub mod Exclusion
mod Tests
use vexspoke.Base.{
  ℕ, suc, ◌+◌, ◌-◌, ◌*◌, ◌%◌, ◌^◌, List, [], ◌∷◌, Bool, true, false, not, ◌&&◌, ◌==◌, leb,
  if◌then◌else◌, Option, none, some,
}

-- A thread's word: the low 30 bits of its id above a bit that says that the lock is held.
pub ticket : ℕ → ℕ
ticket thread_id = thread_id % 2 ^ 30 * 2 + 1

-- SpinLock_tryLock: the exchange succeeds on a free word.
pub try_lock : ℕ → ℕ → Bool × ℕ
try_lock word thread_id = if word == 0 then (true, ticket thread_id) else (false, word)

-- SpinLock_lock, over the words that its attempts meet, the last of them included: how many of them
-- fail, a weak exchange being allowed to fail on a free word too, and the word that it leaves;
-- `none` is a call that still spins.
pub lock : List (ℕ × Bool) → ℕ → Option (ℕ × ℕ)
lock [] thread_id = none
lock ((word, spurious) ∷ attempts) thread_id =
    let rest = lock attempts thread_id in
    if word == 0 && not spurious
    then some (0, ticket thread_id)
    else elim rest [ none ↦ none | some (failed, after) ↦ some (suc failed, after) ]

-- SpinLock_tryLockTimeout, over the words that its attempts meet and the times that its reads of
-- the clock return; `timeout` is `none` where it is negative.
pub try_lock_timeout : List (ℕ × ℕ) → ℕ → Option ℕ → ℕ → Option Bool
try_lock_timeout [] start timeout thread_id = none
try_lock_timeout ((word, now) ∷ attempts) start timeout thread_id =
    let rest = try_lock_timeout attempts start timeout thread_id in
    elim ((try_lock word thread_id).0) [
      | true ↦ some true
      | false ↦ elim timeout [
        | none ↦ rest
        | some limit ↦ if leb limit (now - start) then some false else rest
      ]
    ]

-- The load of SpinLock_unlock and its two tests: whether the call goes on to its store.
pub unlock_load : ℕ → ℕ → Bool
unlock_load word thread_id = not (word == 0) && word == ticket thread_id

-- The store of SpinLock_unlock, whatever the word has become since the load.
pub unlock_store : ℕ → ℕ
unlock_store word = 0

-- SpinLock_isLocked.
pub is_locked : ℕ → Bool
is_locked word = not (word == 0)
