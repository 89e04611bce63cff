-- ===== src/Executor/Verdict.antt =====
-- What the status says with which `executeRun` ends.
use opencode_alg.Base.{
  ℕ, zero, suc, ◌+◌, String, true, false, ◌≡◌, refl, ◌||◌, not, none, some, List, [], ◌∷◌, inl, inr,
  leb, length, take, drop, if_ind, Bool-cases, List-cases, ◌==◌, arith, subst,
}
use opencode_alg.Graph.{all_terminal, any_failed, ready_nodes}
use opencode_alg.Run.{NodeDef, RunState}
use opencode_alg.Run.Status.{RunStatus}
use opencode_alg.Executor.Services.{Services, World, Options}
use opencode_alg.Executor.Limits.{skip_until_settled, finish_global_limit}
use opencode_alg.Executor.Loop.{
  Execution, completed, refused, rejected, preflight, run_batch, run_batches, close_wave,
  after_batches, run_waves, finish, conclude, started, run_started, execute_run, wave_limit,
  concurrency,
}

-- A done run has only finished nodes and no failed one, a failed run has only finished nodes and a
-- failed one, and no other status than blocked is left.
abbrev pub StatusHolds : RunStatus → RunState → Type 0
StatusHolds RunStatus.done run = (all_terminal run ≡ true) × (any_failed run ≡ false)
StatusHolds RunStatus.failed run = (all_terminal run ≡ true) × (any_failed run ≡ true)
StatusHolds RunStatus.blocked run = Unit
StatusHolds RunStatus.planning run = ⊥
StatusHolds RunStatus.running run = ⊥

abbrev pub EndsHeld : Execution → Type 0
EndsHeld (completed run) = StatusHolds run.status run
EndsHeld (refused run) = StatusHolds run.status run
EndsHeld (rejected run) = Unit

-- Refusals are blocked runs.
abbrev RefusesBlocked : Execution → Type 0
RefusesBlocked (completed run) = Unit
RefusesBlocked (refused run) = run.status ≡ RunStatus.blocked
RefusesBlocked (rejected run) = Unit

module _ (services : Services) (world : World) (options : Options) where
  finish-StatusHolds :
      (run : RunState)
      → StatusHolds (finish services world options run).status (finish services world options run)
  unfolding finish all_terminal any_failed
  finish-StatusHolds run =
      let ended = finish_global_limit (skip_until_settled run) in
      elim (Bool-cases (all_terminal ended)) [
        | inr pending ↦ rw (pending, finish) tt
        | inl over ↦ elim (Bool-cases (any_failed ended)) [
          | inl failed ↦ rw (over, failed, finish) (over, failed)
          | inr clean ↦ rw (over, clean, finish) (over, clean)
        ]
      ]

  run_batches-RefusesBlocked :
      (fuel wave offset size : ℕ) (run : RunState) (left : List NodeDef)
      → RefusesBlocked (run_batches services world options fuel wave offset size run left)
  unfolding run_batches
  run_batches-RefusesBlocked zero wave offset size run left = tt
  run_batches-RefusesBlocked (suc fuel) wave offset size run [] = tt
  run_batches-RefusesBlocked (suc fuel) wave offset size run (d ∷ ds) =
      let batch = take size (d ∷ ds) in
      if_ind RefusesBlocked (world.aborted_batch wave offset) (λ _. tt)
        (λ _.
          if_ind RefusesBlocked
            (preflight services world options (some (wave, offset)) run (some batch))
            (λ _.
              if_ind RefusesBlocked (world.rejects wave offset) (λ _. tt)
                (λ _.
                  run_batches-RefusesBlocked fuel wave (offset + size) size
                    (run_batch services world options wave offset run batch) (drop size (d ∷ ds))))
            (λ _. refl))

  after_batches-RefusesBlocked :
      (wave : ℕ) (next : RunState → Execution) (e : Execution)
      → ((run : RunState) → RefusesBlocked (next run))
      → RefusesBlocked e
      → RefusesBlocked (after_batches services world options wave next e)
  unfolding after_batches
  after_batches-RefusesBlocked wave next (refused run) h k = k
  after_batches-RefusesBlocked wave next (rejected run) h k = k
  after_batches-RefusesBlocked wave next (completed run) h k =
      let closed = close_wave services world options run in
      if_ind RefusesBlocked (world.rejects_wave wave) (λ _. tt)
        (λ _.
          if_ind RefusesBlocked (leb closed.graph.max_global_attempts closed.global_attempts)
            (λ _. tt) (λ _. h closed))

  run_waves-RefusesBlocked :
      (rounds wave size : ℕ) (run : RunState)
      → RefusesBlocked (run_waves services world options rounds wave size run)
  unfolding run_waves
  run_waves-RefusesBlocked zero wave size run = tt
  run_waves-RefusesBlocked (suc rounds) wave size run =
      let settled = skip_until_settled run in
      if_ind RefusesBlocked (all_terminal run || world.aborted_wave wave) (λ _. tt)
        (λ _. elim (List-cases (ready_nodes settled)) [
          | inl e ↦ rw (e, run_waves) tt
          | inr (d, ds, e) ↦
              rw (e, run_waves)
                (after_batches-RefusesBlocked wave
                  (run_waves services world options rounds (suc wave) size)
                  (run_batches services world options (suc (length ds)) wave 0 size settled
                    (d ∷ ds))
                  (λ run'. run_waves-RefusesBlocked rounds (suc wave) size run')
                  (run_batches-RefusesBlocked (suc (length ds)) wave 0 size settled (d ∷ ds)))
        ])

  conclude-EndsHeld :
      (e : Execution) → RefusesBlocked e → EndsHeld (conclude services world options e)
  unfolding conclude
  conclude-EndsHeld (refused run) h = rw h tt
  conclude-EndsHeld (rejected run) h = tt
  conclude-EndsHeld (completed run) h =
      if_ind EndsHeld world.rejects_end (λ _. tt) (λ _. finish-StatusHolds run)

  run_started-EndsHeld : (run : RunState) → EndsHeld (run_started services world options run)
  unfolding run_started
  run_started-EndsHeld run =
      let r = started services world options run in
      conclude-EndsHeld
        (run_waves services world options (wave_limit options) 0 (concurrency options r) r)
        (run_waves-RefusesBlocked (wave_limit options) 0 (concurrency options r) r)

-- An execution that is started, and that no error of a save or behind a recorded outcome leaves, ends
-- with a status that holds: a done run has only finished nodes and no failed one, a failed run has
-- only finished nodes and a failed one, and any other run is blocked.
pub execute_run-EndsHeld :
    (services : Services) (world : World) (options : Options) (parent : String) (run : RunState)
    (e : Execution)
    → execute_run services world options parent run ≡ some e
    → EndsHeld e
unfolding execute_run
execute_run-EndsHeld services world options parent run e h =
    elim (Bool-cases (
      not (run.owner_session_id == parent)
      || not (preflight services world options none run none))) [
        | inl barred ↦ let none_some : none ≡ some e = rw (barred, execute_run) at h in cc
        | inr allowed ↦
            subst EndsHeld (ground (arith, (rw (allowed, execute_run) at h)))
              (run_started-EndsHeld services world options run)
      ]
