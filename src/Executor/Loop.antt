-- ===== src/Executor/Loop.antt =====
-- `executeRun`: waves of ready nodes in bounded batches.
use opencode_alg.Base.{
  ℕ, zero, suc, ◌+◌, String, Bool, true, false, ◌&&◌, ◌||◌, not, Option, none, some, List, [], ◌∷◌,
  min, max, ltb, leb, length, take, drop, every, any, has, lookup, ◌==◌, if◌then◌else◌, map,
}
use opencode_alg.Graph.{ready_nodes, all_terminal, any_failed}
use opencode_alg.Run.{NodeDef, RunState, max_attempts}
use opencode_alg.Run.Status.{RunStatus, Mode, is_done, is_waiting}
use opencode_alg.Executor.Services.{Services, World, Options}
use opencode_alg.Executor.Reserve.{reserve_batch}
use opencode_alg.Executor.Gate.{effective_shell_gate}
use opencode_alg.Executor.Record.{settle_batch}
use opencode_alg.Executor.Feedback.{apply_checker_feedback}
use opencode_alg.Executor.Limits.{skip_until_settled, finish_global_limit}

-- The loop of `preflightExecutableNodes`: the nodes that can become ready in this invocation and
-- stand in the batch, if one is given. A definition without state is passed over.
unfoldable pub preflight_loop :
    RunState → Option (List NodeDef) → List NodeDef → List String → List NodeDef
preflight_loop run batch [] reachable = []
preflight_loop run batch (d ∷ ds) reachable =
    let verdict : Option Bool = elim (lookup d.id run.nodes) [
      | none ↦ none
      | some s ↦
          if is_done s.status
          then some false
          else if is_waiting s.status
              && ltb s.current_attempt (max_attempts d)
              && every (λ id. has id reachable) d.depends_on
          then some true
          else none
    ] in
    elim verdict [
      | none ↦ preflight_loop run batch ds reachable
      | some false ↦ preflight_loop run batch ds (d.id ∷ reachable)
      | some true ↦
          let rest = preflight_loop run batch ds (d.id ∷ reachable) in
          elim batch [
            | none ↦ d ∷ rest
            | some members ↦ if any (λ (e : NodeDef). e.id == d.id) members then d ∷ rest else rest
          ]
    ]

-- How an execution ends: with a run, with an error of the preflight after the run was blocked, or
-- with an error of a save or a member, which leaves the run as it is.
pub data Execution : Type 0 where
  completed refused rejected : RunState → Execution

abbrev pub blocked : RunState → RunState
blocked run = record run { status = RunStatus.blocked; phase = "blocked" }

abbrev get_or {ℓ} : {A : Type ℓ} → Option A → A → A
get_or none a = a
get_or (some b) a = b

-- `maxWaves` and `concurrency`
abbrev pub wave_limit : Options → ℕ
wave_limit options = max 1 (min (get_or options.max_waves 128) 1_000)

abbrev pub concurrency : Options → RunState → ℕ
concurrency options run = max 1 (
    min (get_or options.max_concurrency run.graph.max_concurrency)
      (min run.graph.max_concurrency 8))

module _ (services : Services) (world : World) (options : Options) where
  open services use {safe_text, gates_ready}

  -- Whether `preflightExecutableNodes` returns.
  unfoldable pub preflight : (moment : Option (ℕ × ℕ)) → RunState → Option (List NodeDef) → Bool
  unfolding preflight_loop effective_shell_gate
  preflight moment run batch =
      leb run.graph.max_global_attempts run.global_attempts
      || elim (preflight_loop run batch run.graph.nodes []) [
        | [] ↦ true
        | d ∷ ds ↦
            gates_ready moment
              (map (λ (e : NodeDef). (e, effective_shell_gate run e options)) (d ∷ ds))
      ]

  -- One batch: the reservations of all members, and then their ends.
  unfoldable pub run_batch : ℕ → ℕ → RunState → List NodeDef → RunState
  unfolding reserve_batch settle_batch
  run_batch wave offset run batch =
      let (run', reserved) = reserve_batch run batch in
      settle_batch services world options run' (world.completion wave offset reserved)

  -- The loop over the batches of a wave, on fuel: `left` is what is left of the ready nodes.
  unfoldable pub run_batches : (fuel wave offset size : ℕ) → RunState → List NodeDef → Execution
  unfolding preflight run_batch
  run_batches zero wave offset size run left = completed run
  run_batches (suc fuel) wave offset size run left = elim left [
    | [] ↦ completed run
    | d ∷ ds ↦
        let batch = take size (d ∷ ds) in
        let settled = run_batch wave offset run batch in
        let rest = run_batches fuel wave (offset + size) size settled (drop size (d ∷ ds)) in
        if world.aborted_batch wave offset
        then completed run
        else if preflight (some (wave, offset)) run (some batch)
        then (if world.rejects wave offset then rejected settled else rest)
        else refused (blocked run)
  ]

  -- What follows the batches of a wave.
  unfoldable pub close_wave : RunState → RunState
  unfolding apply_checker_feedback finish_global_limit
  close_wave run = finish_global_limit (apply_checker_feedback safe_text run).0

  -- The rest of a wave, and the waves behind it as `next`.
  unfoldable pub after_batches : (wave : ℕ) → (RunState → Execution) → Execution → Execution
  unfolding close_wave
  after_batches wave next (refused run) = refused run
  after_batches wave next (rejected run) = rejected run
  after_batches wave next (completed run) =
      let closed = close_wave run in
      if world.rejects_wave wave
      then rejected closed
      else if leb closed.graph.max_global_attempts closed.global_attempts
      then completed closed
      else next closed

  -- The wave loop: the rounds left, and the number of the wave.
  unfoldable pub run_waves : (rounds wave size : ℕ) → RunState → Execution
  unfolding run_batches after_batches skip_until_settled ready_nodes all_terminal
  run_waves zero wave size run = completed run
  run_waves (suc rounds) wave size run =
      if all_terminal run || world.aborted_wave wave
      then completed run
      else let settled = skip_until_settled run in
        elim (ready_nodes settled) [
          | [] ↦ completed settled
          | d ∷ ds ↦
              after_batches wave (run_waves rounds (suc wave) size)
                (run_batches (suc (length ds)) wave 0 size settled (d ∷ ds))
        ]

  -- The statements behind the wave loop.
  unfoldable pub finish : RunState → RunState
  unfolding skip_until_settled finish_global_limit all_terminal any_failed
  finish run =
      let ended = finish_global_limit (skip_until_settled run) in
      if all_terminal ended
      then (if any_failed ended
          then record ended { status = RunStatus.failed; phase = "failed" }
          else record ended { status = RunStatus.done; phase = "done" })
      else blocked ended

  unfoldable pub conclude : Execution → Execution
  unfolding finish
  conclude (refused run) = refused run
  conclude (rejected run) = rejected run
  conclude (completed run) =
      let finished = finish run in
      if world.rejects_end then rejected finished else completed finished

  abbrev pub started : RunState → RunState
  started run = record run {
    status = RunStatus.running;
    phase = "execute";
    mode = if options.dry then Mode.dry else run.mode;
  }

  -- `executeRun` from the assignment of the status on.
  unfoldable pub run_started : RunState → Execution
  unfolding run_waves conclude
  run_started run =
      conclude (run_waves (wave_limit options) 0 (concurrency options (started run)) (started run))

  -- `executeRun` under the lease: it throws for another owner and where the preflight throws. An
  -- error of the first save, which comes before any wave, is left out.
  unfoldable pub execute_run : (parent_session_id : String) → RunState → Option Execution
  unfolding run_started preflight
  execute_run parent run =
      if not (run.owner_session_id == parent) || not (preflight none run none)
      then none
      else some (run_started run)
