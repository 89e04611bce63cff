-- ===== src/FilesystemMutex/Waiting.antt =====
-- `acquireFilesystemMutexAsync`, `awaitLock` and `awaitFirstLock`: an operation that reports contention
-- is run again after a timer. The operation and the timer are parameters, over states of any kind.
use opencode_alg.Base.{
  ℕ, zero, suc, ◌+◌, ◌*◌, min, Bool, true, false, ◌&&◌, ◌||◌, not, List, [], ◌∷◌, ltb, leb, nat_eq,
  if◌then◌else◌, any, take,
}

-- An error, with its cause chain: whether each is transient, the outermost first.
pub record LockError : Type 0 where
  pub transient : Bool
  pub causes : List Bool

abbrev pub is_transient : LockError → Bool
is_transient error = error.transient

-- `isLockContention` looks at the error and its causes, eight in all.
unfoldable pub is_lock_contention : LockError → Bool
is_lock_contention error = any (λ (t : Bool). t) (take 8 (error.transient ∷ error.causes))

-- What an operation does: it returns or throws, in the state it leaves.
pub data Attempt (S A : Type 0) : Type 0 where
  returned : A → S → Attempt S A
  thrown : LockError → S → Attempt S A

-- What waiting comes to. `exhausted` stands for a model that ran out of rounds.
pub data Waited (S A : Type 0) : Type 0 where
  success : A → S → Waited S A
  failure : LockError → S → Waited S A
  exhausted : S → Waited S A

-- The clock of a state, the locks acquired up to it, and a pause of some milliseconds.
pub record Timer (S : Type 0) : Type 0 where
  pub now : S → ℕ
  pub acquisitions : S → ℕ
  pub pause : ℕ → S → S

abbrev pub max_wait_ms : ℕ
max_wait_ms = 5_000

abbrev pub wait_step_ms : ℕ
wait_step_ms = 5

-- The error of `assertWait`, which no caller waits for.
abbrev pub wait_error : LockError
wait_error = record { transient = false; causes = [] }

module _ {S A : Type 0} (timer : Timer S) (operation : S → Attempt S A) where
  -- Whether a failure ends the waiting: it is no contention, the time is up, or the attempt must not
  -- be repeated since it acquired a lock.
  unfoldable pub gives_up :
      (only_before_first : Bool) → (deadline before : ℕ) → LockError → S → Bool
  unfolding is_lock_contention
  gives_up only_before_first deadline before error s =
      not (is_lock_contention error)
      || leb deadline (timer.now s)
      || only_before_first && not (nat_eq (timer.acquisitions s) before)

  -- The loop of `waitForLock`, on fuel; the pause is doubled up to 40 ms.
  unfoldable pub wait_loop :
      (fuel : ℕ) → (only_before_first : Bool) → (deadline step : ℕ) → S → Waited S A
  unfolding gives_up
  wait_loop zero only_before_first deadline step s = exhausted s
  wait_loop (suc fuel) only_before_first deadline step s = elim (operation s) [
    | returned a s' ↦ success a s'
    | thrown error s' ↦
        if gives_up only_before_first deadline (timer.acquisitions s) error s'
        then failure error s'
        else wait_loop fuel only_before_first deadline (min (step * 2) 40) (timer.pause step s')
  ]

  unfoldable pub wait_for_lock : (fuel wait_ms : ℕ) → (only_before_first : Bool) → S → Waited S A
  unfolding wait_loop
  wait_for_lock fuel wait_ms only_before_first s =
      if ltb max_wait_ms wait_ms
      then failure wait_error s
      else wait_loop fuel only_before_first (timer.now s + wait_ms) wait_step_ms s

  unfoldable pub await_lock : (fuel wait_ms : ℕ) → S → Waited S A
  unfolding wait_for_lock
  await_lock fuel wait_ms s = wait_for_lock fuel wait_ms false s

  unfoldable pub await_first_lock : (fuel wait_ms : ℕ) → S → Waited S A
  unfolding wait_for_lock
  await_first_lock fuel wait_ms s = wait_for_lock fuel wait_ms true s

  -- The loop of `acquireFilesystemMutexAsync`, where the operation is `acquireFilesystemMutex`.
  unfoldable pub acquire_loop : (fuel deadline : ℕ) → S → Waited S A
  acquire_loop zero deadline s = exhausted s
  acquire_loop (suc fuel) deadline s = elim (operation s) [
    | returned a s' ↦ success a s'
    | thrown error s' ↦
        if not (is_transient error) || leb deadline (timer.now s')
        then failure error s'
        else acquire_loop fuel deadline (timer.pause wait_step_ms s')
  ]

  unfoldable pub acquire_filesystem_mutex_async : (fuel wait_ms : ℕ) → S → Waited S A
  unfolding acquire_loop
  acquire_filesystem_mutex_async fuel wait_ms s =
      if ltb max_wait_ms wait_ms
      then failure wait_error s
      else acquire_loop fuel (timer.now s + wait_ms) s
