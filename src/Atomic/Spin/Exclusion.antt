-- ===== src/Atomic/Spin/Exclusion.antt =====
-- At most one thread holds the lock.
use vexspoke.Base.{
  ℕ, zero, suc, ◌+◌, ◌*◌, ◌%◌, ◌^◌, ◌≡◌, ◌≢◌, refl, List, [], ◌∷◌, Bool, true, false, ◌==◌, arith,
  if◌then◌else◌, ◌↔◌,
}
use vexspoke.Atomic.Spin.{ticket, try_lock, unlock_load, unlock_store, is_locked}

-- An access of the lock by a thread. A release is two of them: `loads` is its load, and `stores` the
-- store of one call whose load has passed the tests.
pub data Act : Type 0 where
  tries : ℕ → Act
  loads : ℕ → Act
  stores : Act

-- The lock's word, the calls of SpinLock_unlock that are between their load and their store, and
-- whether an attempt to lock has succeeded.
pub record State : Type 0 where
  pub word : ℕ
  pub in_flight : ℕ
  pub acquired : Bool

-- One access. A store that no call has before it does nothing.
unfoldable pub step : State → Act → State
step s (tries thread) =
    let attempt = try_lock s.word thread in
    record s { word = attempt.1; acquired = if attempt.0 then true else s.acquired }
step s (loads thread) =
    if unlock_load s.word thread then record s { in_flight = s.in_flight + 1 } else s
step s stores = elim s.in_flight [
  | zero ↦ s
  | suc n ↦ record s { word = unlock_store s.word; in_flight = n }
]

unfoldable pub run : State → List Act → State
run s [] = s
run s (act ∷ acts) = run (step s act) acts

-- The lock as a thread holds it, where no release is in flight.
abbrev pub held_by : ℕ → State
held_by holder = record { word = ticket holder; in_flight = 0; acquired = false }

-- No act of the run is the load of a release under the ticket of a thread.
unfoldable pub NoRelease : ℕ → List Act → Type 0
NoRelease holder [] = holder ≡ holder
NoRelease holder (tries thread ∷ acts) = NoRelease holder acts
NoRelease holder (loads thread ∷ acts) = (ticket thread ≢ ticket holder) × NoRelease holder acts
NoRelease holder (stores ∷ acts) = NoRelease holder acts

-- While a thread holds the lock, from a state where no call of SpinLock_unlock is between its load and
-- its store, and no thread of the same ticket begins a release: every attempt to lock fails, no call
-- passes the tests of SpinLock_unlock, and the lock stays that thread's.
pub run-held :
    (holder : ℕ) (acts : List Act)
    → NoRelease holder acts
    → run (held_by holder) acts ≡ held_by holder
unfolding run step NoRelease try_lock unlock_load ticket
run-held holder [] quiet = refl
run-held holder (tries thread ∷ acts) quiet =
    let e : ((holder % 2 ^ 30 * 2 + 1) == 0) ≡ false = ground arith in
    rw e (run-held holder acts quiet)
run-held holder (loads thread ∷ acts) quiet =
    let e : ((holder % 2 ^ 30 * 2 + 1) == 0) ≡ false = ground arith in
    let other = quiet.0 in
    let f : ((holder % 2 ^ 30 * 2 + 1) == (thread % 2 ^ 30 * 2 + 1)) ≡ false =
      ground (arith, other) in
    rw (e, f) (run-held holder acts quiet.1)
run-held holder (stores ∷ acts) quiet = run-held holder acts quiet

-- Two threads have one ticket exactly where their ids agree in the low 30 bits.
ticket_iff : (a b : ℕ) → (ticket a ≡ ticket b) ↔ (a % 2 ^ 30 ≡ b % 2 ^ 30)
unfolding ticket
ticket_iff a b = (λ e. omega (arith, e), λ e. omega (arith, e))

-- A lock that was free is held after SpinLock_tryLock, and is free again after the load and the store
-- of the SpinLock_unlock of the same thread.
pub unlock-try_lock :
    (thread : ℕ)
    → let attempt = try_lock 0 thread in
      (attempt.0 ≡ true)
      × (is_locked attempt.1 ≡ true)
      × (unlock_load attempt.1 thread ≡ true)
      × (is_locked (unlock_store attempt.1) ≡ false)
unfolding try_lock is_locked unlock_load unlock_store ticket
unlock-try_lock thread = (refl, ground arith, ground arith, refl)
