-- ===== src/Executor/Budget/Skipping.antt =====
-- Skips and the global limit charge nothing and forget no attempt.
use opencode_alg.Base.{
  ℕ, zero, suc, ltb, if_ind, String, Bool, false, ◌≡◌, refl, ◌∙◌, subst, some, List, [], ◌∷◌, inl,
  inr, length, modify, arith, Bool-cases, Option-cases, ◌+◌,
}
use opencode_alg.Run.{NodeDef, Nodes, RunState}
use opencode_alg.Graph.{
  mark_skipped, broken_dependency, skip_node, skip_pass, skip_failed_descendants, skip_all,
  is_ready,
}
use opencode_alg.Executor.Reserve.{global_message, block_with}
use opencode_alg.Executor.Limits.{skip_until_settled, block_ready, finish_global_limit}
use opencode_alg.Executor.Budget.Ledger.{
  ledger, ledger-modify, HasSameBudget, HasSameBudget-refl, HasSameBudget-trans,
}

-- Runs whose nodes alone differ, at equal counts.
pub with_nodes :
    (run : RunState) (nodes : Nodes)
    → ledger nodes ≡ ledger run.nodes
    → HasSameBudget run (record run { nodes = nodes })
with_nodes run nodes e = record { graph = refl; attempts = refl; counts = e }

ledger-skip_pass :
    (ds : List NodeDef) (nodes : Nodes) (c : Bool) → ledger (skip_pass ds nodes c).0 ≡ ledger nodes
unfolding skip_pass skip_node
ledger-skip_pass [] nodes c = refl
ledger-skip_pass (d ∷ ds) nodes c =
    ledger-skip_pass ds (skip_node d nodes c).0 (skip_node d nodes c).1 ∙ one
  where
    one : ledger (skip_node d nodes c).0 ≡ ledger nodes
    one = elim (Option-cases (broken_dependency nodes d)) [
      | inl e ↦ ground arith
      | inr (dep, e) ↦
          ground (arith, ledger-modify d.id (mark_skipped dep) nodes (λ s. (refl, refl)))
    ]

HasSameBudget-skip : (run : RunState) → HasSameBudget run (skip_failed_descendants run).0
unfolding skip_failed_descendants
HasSameBudget-skip run = with_nodes run _ (ledger-skip_pass run.graph.nodes run.nodes false)

HasSameBudget-skip_all :
    (fuel : ℕ) (run : RunState) {run' : RunState}
    → skip_all fuel run ≡ some run'
    → HasSameBudget run run'
unfolding skip_all
HasSameBudget-skip_all zero run e = cc
HasSameBudget-skip_all (suc fuel) run {run'} e = elim (Bool-cases (skip_failed_descendants run).1) [
  | inl changed ↦
      HasSameBudget-trans (HasSameBudget-skip run)
        (HasSameBudget-skip_all fuel (skip_failed_descendants run).0 (rw changed at e))
  | inr still ↦
      let same : (skip_failed_descendants run).0 ≡ run' = ground (arith, (rw still at e)) in
      subst (HasSameBudget run) same (HasSameBudget-skip run)
]

pub HasSameBudget-skip_until_settled : (run : RunState) → HasSameBudget run (skip_until_settled run)
unfolding skip_until_settled
HasSameBudget-skip_until_settled run =
    elim (Option-cases (skip_all (length run.graph.nodes + 2) run)) [
      | inl e ↦ rw (e, skip_until_settled) (HasSameBudget-refl run)
      | inr (run', e) ↦
          rw (e, skip_until_settled) (HasSameBudget-skip_all (length run.graph.nodes + 2) run e)
    ]

ledger-block_ready :
    (message : String) (ds : List NodeDef) (nodes : Nodes)
    → ledger (block_ready message ds nodes) ≡ ledger nodes
unfolding block_ready
ledger-block_ready message [] nodes = refl
ledger-block_ready message (d ∷ ds) nodes =
    if_ind (λ nodes'. ledger (block_ready message ds nodes') ≡ ledger nodes) (is_ready nodes d)
      (λ _.
        ledger-block_ready message ds (modify d.id (block_with message) nodes)
        ∙ ledger-modify d.id (block_with message) nodes (λ s. (refl, refl)))
      (λ _. ledger-block_ready message ds nodes)

pub HasSameBudget-finish_global_limit :
    (run : RunState) → HasSameBudget run (finish_global_limit run)
unfolding finish_global_limit
HasSameBudget-finish_global_limit run =
    if_ind (HasSameBudget run) (ltb run.global_attempts run.graph.max_global_attempts)
      (λ _. HasSameBudget-refl run)
      (λ _.
        HasSameBudget-trans
          (with_nodes run
            (block_ready (global_message run.graph.max_global_attempts) run.graph.nodes run.nodes)
            (ledger-block_ready (global_message run.graph.max_global_attempts) run.graph.nodes
              run.nodes))
          (HasSameBudget-skip_until_settled _))
