-- ===== src/Executor/Budget/Execution.antt =====
-- The attempt budgets through the waves of `executeRun`.
use opencode_alg.Base.{
  ℕ, zero, suc, ◌+◌, String, ◌||◌, not, ◌≡◌, refl, sym, ◌∙◌, subst, none, some, List, [], ◌∷◌, inl,
  inr, leb, length, take, drop, All, Elem, All_intro, Elem-filter, if_ind, Bool-cases, List-cases,
  ◌==◌, arith,
}
use opencode_alg.Graph.{ready_nodes, is_ready, all_terminal, any_failed}
use opencode_alg.Graph.Order.{IsOrdered}
use opencode_alg.Run.{NodeDef, RunState, GraphDef}
use opencode_alg.Run.Status.{RunStatus}
use opencode_alg.Executor.Services.{Services, World, Options}
use opencode_alg.Executor.Reserve.{reserve_batch}
use opencode_alg.Executor.Feedback.{apply_checker_feedback}
use opencode_alg.Executor.Limits.{skip_until_settled, finish_global_limit}
use opencode_alg.Executor.Loop.{
  Execution, completed, refused, rejected, preflight, run_batch, run_batches, close_wave, run_waves,
  run_started, started, after_batches, conclude, finish, execute_run, wave_limit, concurrency,
}
use opencode_alg.Executor.Budget.Ledger.{IsBudgeted, HasSameBudget, IsBudgeted-same}
use opencode_alg.Executor.Budget.Reserving.{reserve_batch-IsBudgeted}
use opencode_alg.Executor.Budget.Skipping.{
  HasSameBudget-skip_until_settled, HasSameBudget-finish_global_limit,
}
use opencode_alg.Executor.Budget.Settling.{HasSameBudget-settle_batch}
use opencode_alg.Executor.Budget.Routing.{HasSameBudget-feedback}

All-take : (P : NodeDef → Type 0) (n : ℕ) (ds : List NodeDef) → All P ds → All P (take n ds)
All-take P zero ds h = tt
All-take P (suc n) [] h = tt
All-take P (suc n) (d ∷ ds) (h, hs) = (h, All-take P n ds hs)

All-drop : (P : NodeDef → Type 0) (n : ℕ) (ds : List NodeDef) → All P ds → All P (drop n ds)
All-drop P zero ds h = h
All-drop P (suc n) [] h = tt
All-drop P (suc n) (d ∷ ds) (h, hs) = All-drop P n ds hs

-- The budgets of a run over a graph.
pub record IsKept (graph : GraphDef) (run : RunState) : Type 0 where
  pub same : run.graph ≡ graph
  pub budgeted : IsBudgeted run

-- Whichever way an execution ends, the budgets hold.
abbrev pub EndsKept : GraphDef → Execution → Type 0
EndsKept graph (completed run) = IsKept graph run
EndsKept graph (refused run) = IsKept graph run
EndsKept graph (rejected run) = IsKept graph run

IsKept-same :
    {graph : GraphDef} {a b : RunState} → HasSameBudget a b → IsKept graph a → IsKept graph b
IsKept-same p k = record { same = p.graph ∙ k.same; budgeted = IsBudgeted-same p k.budgeted }

module _ (services : Services) (world : World) (options : Options) (graph : GraphDef)
    (ordered : IsOrdered [] graph.nodes) where
  open services use {safe_text}

  abbrev IsMember : NodeDef → Type 0
  IsMember d = Elem d graph.nodes

  run_batch-IsKept :
      (wave offset : ℕ) (run : RunState) (batch : List NodeDef)
      → All IsMember batch
      → IsKept graph run
      → IsKept graph (run_batch services world options wave offset run batch)
  unfolding run_batch
  run_batch-IsKept wave offset run batch members k =
      let o : IsOrdered [] run.graph.nodes =
        subst (λ g. IsOrdered [] g.nodes) (sym k.same) ordered in
      let m : All (λ d. Elem d run.graph.nodes) batch =
        subst (λ (g : GraphDef). All (λ x. Elem x g.nodes) batch) (sym k.same) members in
      let (budgeted, same) = reserve_batch-IsBudgeted batch run o m k.budgeted in
      let reserved = reserve_batch run batch in
      IsKept-same
        (HasSameBudget-settle_batch services world options reserved.0
          (world.completion wave offset reserved.1))
        (record { same = same ∙ k.same; budgeted = budgeted })

  run_batches-EndsKept :
      (fuel wave offset size : ℕ) (run : RunState) (left : List NodeDef)
      → All IsMember left
      → IsKept graph run
      → EndsKept graph (run_batches services world options fuel wave offset size run left)
  unfolding run_batches
  run_batches-EndsKept zero wave offset size run left members k = k
  run_batches-EndsKept (suc fuel) wave offset size run [] members k = k
  run_batches-EndsKept (suc fuel) wave offset size run (d ∷ ds) members k =
      let batch = take size (d ∷ ds) in
      if_ind (EndsKept graph) (world.aborted_batch wave offset) (λ _. k)
        (λ _.
          if_ind (EndsKept graph)
            (preflight services world options (some (wave, offset)) run (some batch))
            (λ _.
              let settled = run_batch services world options wave offset run batch in
              let kept =
                run_batch-IsKept wave offset run batch (All-take IsMember size (d ∷ ds) members)
                  k in
              if_ind (EndsKept graph) (world.rejects wave offset) (λ _. kept)
                (λ _.
                  run_batches-EndsKept fuel wave (offset + size) size settled (drop size (d ∷ ds))
                    (All-drop IsMember size (d ∷ ds) members) kept))
            (λ _. IsKept-same (record { graph = refl; attempts = refl; counts = refl }) k))

  close_wave-IsKept :
      (run : RunState) → IsKept graph run → IsKept graph (close_wave services world options run)
  unfolding close_wave
  close_wave-IsKept run k =
      IsKept-same (HasSameBudget-finish_global_limit (apply_checker_feedback safe_text run).0)
        (IsKept-same (HasSameBudget-feedback safe_text run) k)

  ready-members : (run : RunState) → run.graph ≡ graph → All IsMember (ready_nodes run)
  unfolding ready_nodes
  ready-members run same = All_intro IsMember (ready_nodes run) (λ d m.
      subst (λ (g : GraphDef). Elem d g.nodes) same
        ((Elem-filter (is_ready run.nodes) d run.graph.nodes).0 m).0)

  finish-IsKept :
      (run : RunState) → IsKept graph run → IsKept graph (finish services world options run)
  unfolding finish
  finish-IsKept run k =
      let settled = skip_until_settled run in
      let ended = finish_global_limit settled in
      let kept : IsKept graph ended =
        IsKept-same (HasSameBudget-finish_global_limit settled)
          (IsKept-same (HasSameBudget-skip_until_settled run) k) in
      let relabelled : (s : RunStatus) (p : String)
          → IsKept graph (record ended { status = s; phase = p }) =
        λ s p. IsKept-same (record { graph = refl; attempts = refl; counts = refl }) kept in
      if_ind (IsKept graph) (all_terminal ended)
        (λ _.
          if_ind (IsKept graph) (any_failed ended) (λ _. relabelled RunStatus.failed "failed")
            (λ _. relabelled RunStatus.done "done"))
        (λ _. relabelled RunStatus.blocked "blocked")

  after_batches-EndsKept :
      (wave : ℕ) (next : RunState → Execution) (e : Execution)
      → ((run : RunState) → IsKept graph run → EndsKept graph (next run))
      → EndsKept graph e
      → EndsKept graph (after_batches services world options wave next e)
  unfolding after_batches
  after_batches-EndsKept wave next (refused run) h k = k
  after_batches-EndsKept wave next (rejected run) h k = k
  after_batches-EndsKept wave next (completed run) h k =
      let closed = close_wave services world options run in
      let kept = close_wave-IsKept run k in
      if_ind (EndsKept graph) (world.rejects_wave wave) (λ _. kept)
        (λ _.
          if_ind (EndsKept graph) (leb closed.graph.max_global_attempts closed.global_attempts)
            (λ _. kept) (λ _. h closed kept))

  run_waves-EndsKept :
      (rounds wave size : ℕ) (run : RunState)
      → IsKept graph run
      → EndsKept graph (run_waves services world options rounds wave size run)
  unfolding run_waves
  run_waves-EndsKept zero wave size run k = k
  run_waves-EndsKept (suc rounds) wave size run k =
      let settled = skip_until_settled run in
      let kept : IsKept graph settled = IsKept-same (HasSameBudget-skip_until_settled run) k in
      if_ind (EndsKept graph) (all_terminal run || world.aborted_wave wave) (λ _. k)
        (λ _. elim (List-cases (ready_nodes settled)) [
          | inl e ↦ rw (e, run_waves) kept
          | inr (d, ds, e) ↦
              rw (e, run_waves)
                (after_batches-EndsKept wave
                  (run_waves services world options rounds (suc wave) size)
                  (run_batches services world options (suc (length ds)) wave 0 size settled
                    (d ∷ ds))
                  (λ run'. run_waves-EndsKept rounds (suc wave) size run')
                  (run_batches-EndsKept (suc (length ds)) wave 0 size settled (d ∷ ds)
                    (subst (All IsMember) e (ready-members settled kept.same)) kept))
        ])

  conclude-EndsKept :
      (e : Execution) → EndsKept graph e → EndsKept graph (conclude services world options e)
  unfolding conclude
  conclude-EndsKept (refused run) k = k
  conclude-EndsKept (rejected run) k = k
  conclude-EndsKept (completed run) k =
      if_ind (EndsKept graph) world.rejects_end (λ _. finish-IsKept run k)
        (λ _. finish-IsKept run k)

run_started-EndsKept :
    (services : Services) (world : World) (options : Options) (run : RunState)
    → IsOrdered [] run.graph.nodes
    → IsBudgeted run
    → EndsKept run.graph (run_started services world options run)
unfolding run_started
run_started-EndsKept services world options run ordered budgeted =
    let r = started services world options run in
    let kept : IsKept run.graph r =
      IsKept-same (record { graph = refl; attempts = refl; counts = refl })
        (record { same = refl; budgeted = budgeted }) in
    conclude-EndsKept services world options run.graph ordered
      (run_waves services world options (wave_limit options) 0 (concurrency options r) r)
      (run_waves-EndsKept services world options run.graph ordered (wave_limit options) 0
        (concurrency options r) r kept)

-- For a run over an ordered graph whose counts agree with its records, whose counter is their sum
-- and whose limits hold, an execution that is started ends in such a run over the same graph,
-- whatever the services and the interleaving of the batches.
pub execute_run-EndsKept :
    (services : Services) (world : World) (options : Options) (parent : String) (run : RunState)
    → IsOrdered [] run.graph.nodes
    → IsBudgeted run
    → (e : Execution) → execute_run services world options parent run ≡ some e
    → EndsKept run.graph e
unfolding execute_run
execute_run-EndsKept services world options parent run ordered budgeted e h =
    elim (Bool-cases (
      not (run.owner_session_id == parent)
      || not (preflight services world options none run none))) [
        | inl barred ↦ let none_some : none ≡ some e = rw (barred, execute_run) at h in cc
        | inr allowed ↦
            subst (EndsKept run.graph) (ground (arith, (rw (allowed, execute_run) at h)))
              (run_started-EndsKept services world options run ordered budgeted)
      ]
