-- ===== src/FilesystemMutex/Patience.antt =====
-- What waiting for a lock comes to, and that it ends.
use opencode_alg.Base.{
  ℕ, zero, suc, ◌+◌, ◌*◌, ◌≤◌, ◌<◌, min, Bool, true, false, ◌≡◌, ◌⊎◌, ◌&&◌, not, refl, ltb, nat_eq,
  arith, Bool-cases, inl, inr, if_ind,
}
use opencode_alg.FilesystemMutex.Waiting.{
  LockError, is_lock_contention, Attempt, returned, thrown, Waited, success, failure, exhausted,
  Timer, gives_up, wait_loop, wait_for_lock, await_lock,
}

-- Time does not run backwards while the operation fails, and a pause lasts as long as it says.
pub record IsClock {S A : Type 0} (timer : Timer S) (operation : S → Attempt S A) : Type 0 where
  pub onwards :
      (s s' : S) (error : LockError) → operation s ≡ thrown error s' → timer.now s ≤ timer.now s'
  pub lasting : (ms : ℕ) (s : S) → timer.now s + ms ≤ timer.now (timer.pause ms s)

module _ {S A : Type 0} (timer : Timer S) (operation : S → Attempt S A) where
  -- The states in which the operation is run: the first one, and those after a failure that does not
  -- end the waiting and a pause.
  pub data Tried (only_before_first : Bool) (deadline : ℕ) (start : S) : S → Type 0 where
    first : Tried only_before_first deadline start start
    again :
        {s s' : S} {error : LockError} (step : ℕ)
        → Tried only_before_first deadline start s
        → operation s ≡ thrown error s'
        → is_lock_contention error ≡ true
        → timer.now s' < deadline
        → (only_before_first && not (nat_eq (timer.acquisitions s') (timer.acquisitions s))) ≡ false
        → Tried only_before_first deadline start (timer.pause step s')

  -- A result is that of the last run of the operation. A failure is no contention, comes when the
  -- time is up, or follows a lock that the run acquired and must not acquire again.
  abbrev pub IsOutcome :
      (only_before_first : Bool) → (deadline : ℕ) → (start : S) → Waited S A → Type 0
  IsOutcome only_before_first deadline start (success a s') =
      (s : S) × Tried only_before_first deadline start s × (operation s ≡ returned a s')
  IsOutcome only_before_first deadline start (failure error s') =
      (s : S) × Tried only_before_first deadline start s
      × (operation s ≡ thrown error s')
      × ((is_lock_contention error ≡ false)
          ⊎ (deadline ≤ timer.now s')
          ⊎ ((only_before_first && not (nat_eq (timer.acquisitions s') (timer.acquisitions s)))
              ≡ true))
  IsOutcome only_before_first deadline start (exhausted s) = ⊥

  attempt-cases :
      (s : S)
      → ((a : A) × (s' : S) × (operation s ≡ returned a s'))
        ⊎ ((error : LockError) × (s' : S) × (operation s ≡ thrown error s'))
  attempt-cases s = of (operation s) refl
    where
      of :
          (o : Attempt S A)
          → operation s ≡ o
          → ((a : A) × (s' : S) × (operation s ≡ returned a s'))
            ⊎ ((error : LockError) × (s' : S) × (operation s ≡ thrown error s'))
      of (returned a s') e = inl (a, s', e)
      of (thrown error s') e = inr (error, s', e)

  stays_on :
      (only_before_first : Bool) (deadline before : ℕ) (error : LockError) (s : S)
      → gives_up timer operation only_before_first deadline before error s ≡ false
      → (is_lock_contention error ≡ true)
        × (timer.now s < deadline)
        × ((only_before_first && not (nat_eq (timer.acquisitions s) before)) ≡ false)
  unfolding gives_up
  stays_on only deadline before error s h = ground arith

  stops :
      (only_before_first : Bool) (deadline before : ℕ) (error : LockError) (s : S)
      → gives_up timer operation only_before_first deadline before error s ≡ true
      → (is_lock_contention error ≡ false)
        ⊎ (deadline ≤ timer.now s)
        ⊎ ((only_before_first && not (nat_eq (timer.acquisitions s) before)) ≡ true)
  unfolding gives_up
  stops only deadline before error s h = ground arith

  one_round :
      (rounds : ℕ) (only_before_first : Bool) (deadline step : ℕ) (start s : S)
      → Tried only_before_first deadline start s
      → ((error : LockError) (s' : S)
          → operation s ≡ thrown error s'
          → gives_up timer operation only_before_first deadline (timer.acquisitions s) error s'
            ≡ false
          → IsOutcome only_before_first deadline start (
              wait_loop timer operation rounds only_before_first deadline
                (min (step * 2) 40)
                (timer.pause step s')))
      → IsOutcome only_before_first deadline start
          (wait_loop timer operation (suc rounds) only_before_first deadline step s)
  unfolding wait_loop
  one_round rounds only deadline step start s tried next = elim (attempt-cases s) [
    | inl (a, s', e) ↦ rw (e, wait_loop) (s, tried, e)
    | inr (error, s', e) ↦
        elim (Bool-cases (gives_up timer operation only deadline (timer.acquisitions s) error s')) [
          | inl stop ↦
              rw (e, stop, wait_loop)
                (s, tried, e, stops only deadline (timer.acquisitions s) error s' stop)
          | inr on ↦ rw (e, on, wait_loop) (next error s' e on)
        ]
  ]

  wait_loop-IsOutcome :
      (clock : IsClock timer operation) (rounds : ℕ) (only_before_first : Bool) (deadline step : ℕ)
      (start s : S)
      → 5 ≤ step
      → deadline ≤ timer.now s + 5 * rounds
      → Tried only_before_first deadline start s
      → IsOutcome only_before_first deadline start
          (wait_loop timer operation (suc rounds) only_before_first deadline step s)
  wait_loop-IsOutcome clock zero only deadline step start s long near tried =
      one_round zero only deadline step start s tried (λ error s' e on. absurd (
        omega (
          arith,
          (stays_on only deadline (timer.acquisitions s) error s' on).1,
          clock.onwards s s' error e,
        )))
  wait_loop-IsOutcome clock (suc n) only deadline step start s long near tried =
      one_round (suc n) only deadline step start s tried (λ error s' e on.
        let (contended, early, free) = stays_on only deadline (timer.acquisitions s) error s' on in
        wait_loop-IsOutcome clock n only deadline (min (step * 2) 40) start (timer.pause step s')
          (omega arith) (omega (arith, clock.onwards s s' error e, clock.lasting step s'))
          (again step tried e contended early free))

-- Where time does not run backwards and a pause lasts as long as it says, one run of the operation
-- for each 5 ms of the wait and one more are enough: the waiting ends, with the result of the last
-- run. Each run but the last failed with contention before the deadline, and, where only the time
-- before the first lock is waited, without acquiring a lock.
pub wait_for_lock-IsOutcome :
    {S A : Type 0} (timer : Timer S) (operation : S → Attempt S A) (rounds wait_ms : ℕ)
    (only_before_first : Bool) (s : S)
    → IsClock timer operation
    → wait_ms ≤ 5_000
    → wait_ms ≤ 5 * rounds
    → IsOutcome timer operation only_before_first
        (timer.now s + wait_ms)
        s
        (wait_for_lock timer operation (suc rounds) wait_ms only_before_first s)
unfolding wait_for_lock
wait_for_lock-IsOutcome timer operation rounds wait_ms only s clock small near =
    if_ind (IsOutcome timer operation only (timer.now s + wait_ms) s) (ltb 5_000 wait_ms)
      (λ large. absurd (ground arith))
      (λ _.
        wait_loop-IsOutcome timer operation clock rounds only (timer.now s + wait_ms) 5 s s
          (omega arith) (omega arith) first)

module _ {S A : Type 0} (timer : Timer S) (operation : S → Attempt S A) (deadline : ℕ)
    (start : S) where
  outcome_succeeds :
      ((t t' : S) (error : LockError)
        → operation t ≡ thrown error t'
        → (is_lock_contention error ≡ true) × (timer.now t' < deadline))
      → (r : Waited S A) → IsOutcome timer operation false deadline start r
      → (a : A) × (s' : S) × (r ≡ success a s')
  outcome_succeeds brief (success a s') outcome = (a, s', refl)
  outcome_succeeds brief (failure error s') (t, tried, e, stop) =
      let (contended, early) = brief t s' error e in absurd (ground arith)
  outcome_succeeds brief (exhausted s) outcome = absurd outcome

-- Where every failure of the operation is contention that ends before the wait is over, waiting for
-- the lock ends with a result of the operation.
pub await_lock_succeeds :
    {S A : Type 0} (timer : Timer S) (operation : S → Attempt S A) (rounds wait_ms : ℕ) (s : S)
    → IsClock timer operation
    → wait_ms ≤ 5_000
    → wait_ms ≤ 5 * rounds
    → ((t t' : S) (error : LockError)
        → operation t ≡ thrown error t'
        → (is_lock_contention error ≡ true) × (timer.now t' < timer.now s + wait_ms))
    → (a : A) × (s' : S) × (await_lock timer operation (suc rounds) wait_ms s ≡ success a s')
unfolding await_lock
await_lock_succeeds timer operation rounds wait_ms s clock small near brief =
    outcome_succeeds timer operation (timer.now s + wait_ms) s brief
      (wait_for_lock timer operation (suc rounds) wait_ms false s)
      (wait_for_lock-IsOutcome timer operation rounds wait_ms false s clock small near)
