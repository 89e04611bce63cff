-- ===== src/Examples/Waits.antt =====
-- A lock that is free from the twelfth millisecond on, and one whose owner counts.
use opencode_alg.Base.{ℕ, suc, ◌+◌, ◌<◌, true, [], ◌≡◌, refl, ltb, if◌then◌else◌, arith}
use opencode_alg.FilesystemMutex.Waiting.{
  LockError, is_lock_contention, Attempt, returned, thrown, success, Timer, wait_for_lock,
  await_lock,
}
use opencode_alg.FilesystemMutex.Patience.{
  IsClock, IsOutcome, wait_for_lock-IsOutcome, await_lock_succeeds,
}

-- The state is the time.
abbrev plain_timer : Timer ℕ
plain_timer = record { now = λ t. t; acquisitions = λ t. 0; pause = λ ms t. t + ms }

abbrev contended : LockError
contended = record { transient = true; causes = [] }

-- Each try takes a millisecond.
unfoldable try_lock : ℕ → Attempt ℕ ℕ
try_lock t = if ltb t 12 then thrown contended (suc t) else returned t (suc t)

try_lock-thrown :
    (t t' : ℕ) (error : LockError)
    → try_lock t ≡ thrown error t'
    → (t' ≡ suc t) × (t < 12) × (error ≡ contended)
unfolding try_lock
try_lock-thrown t t' error h = ground arith

try_lock-IsClock : IsClock plain_timer try_lock
try_lock-IsClock = record {
  onwards = λ t t' error h. omega (arith, try_lock-thrown t t' error h);
  lasting = λ ms t. omega arith;
}

wait_for_lock-IsOutcome_example :
    IsOutcome plain_timer try_lock true 253 3 (wait_for_lock plain_timer try_lock 51 250 true 3)
wait_for_lock-IsOutcome_example =
    wait_for_lock-IsOutcome plain_timer try_lock 50 250 true 3 try_lock-IsClock (omega arith)
      (omega arith)

contention_brief :
    (t t' : ℕ) (error : LockError)
    → try_lock t ≡ thrown error t'
    → (is_lock_contention error ≡ true) × (t' < 253)
unfolding is_lock_contention
contention_brief t t' error h =
    let (later, early, same) = try_lock-thrown t t' error h in
    (rw same refl, omega (arith, later, early))

await_lock_succeeds_example :
    (a : ℕ) × (t : ℕ) × (await_lock plain_timer try_lock 51 250 3 ≡ success a t)
await_lock_succeeds_example =
    await_lock_succeeds plain_timer try_lock 50 250 3 try_lock-IsClock (omega arith) (omega arith)
      contention_brief

waited : await_lock plain_timer try_lock 51 250 3 ≡ success 20 21
unfolding await_lock try_lock
waited = refl
