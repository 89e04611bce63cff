-- ===== src/Executor/Budget/Routing.antt =====
-- Checker feedback charges nothing and forgets no attempt.
use opencode_alg.Base.{
  if_ind, String, Bool, ◌≡◌, refl, ◌∙◌, List, [], ◌∷◌, inl, inr, length-map_last, modify,
  Option-cases, find, ◌==◌,
}
use opencode_alg.Run.{NodeDef, Nodes, RunState}
use opencode_alg.Graph.{descendants_of}
use opencode_alg.Executor.Feedback.{
  mark_applied, applied, reopen, reopen_node, reopen_target, is_exhausted, route, routing, Routing,
  passed_over, no_room, routed, feedback_loop, apply_checker_feedback, lacks_room, feedback_request,
  after_routing,
}
use opencode_alg.Executor.Budget.Ledger.{
  ledger, Keeps, ledger-modify, HasSameBudget, HasSameBudget-refl, HasSameBudget-trans,
  HasSameBudget-with_node,
}
use opencode_alg.Executor.Budget.Skipping.{with_nodes}

Keeps-applied : Keeps mark_applied
Keeps-applied s = (refl, length-map_last applied s.attempts)

ledger-reopen :
    (defs : List NodeDef) (ids : List String) (nodes : Nodes)
    → ledger (reopen defs ids nodes) ≡ ledger nodes
unfolding reopen
ledger-reopen defs [] nodes = refl
ledger-reopen defs (id ∷ ids) nodes =
    elim (Option-cases (find (λ (e : NodeDef). e.id == id) defs)) [
      | inl e ↦ rw e (ledger-reopen defs ids nodes)
      | inr (d, e) ↦ rw e (
          if_ind (λ nodes'. ledger (reopen defs ids nodes') ≡ ledger nodes) (is_exhausted nodes d)
            (λ _. ledger-reopen defs ids nodes)
            (λ _.
              ledger-reopen defs ids (modify id reopen_node nodes)
              ∙ ledger-modify id reopen_node nodes (λ s. (refl, refl))))
    ]

module _ (safe : String → String) where
  HasSameBudget-route :
      (run : RunState) (checker target : NodeDef) (failures : List String)
      → HasSameBudget run (route safe run checker target failures)
  unfolding route
  HasSameBudget-route run checker target failures =
      let noted = modify checker.id mark_applied run.nodes in
      with_nodes run _ (
        ledger-reopen run.graph.nodes (descendants_of run.graph target.id)
          (modify target.id (reopen_target safe failures) noted)
        ∙ (ledger-modify target.id (reopen_target safe failures) noted (λ s. (refl, refl))
            ∙ ledger-modify checker.id mark_applied run.nodes Keeps-applied))

  -- What a round of the feedback loop may yield.
  abbrev Follows : RunState → Routing → Type 0
  Follows run passed_over = Unit
  Follows run (no_room run') = HasSameBudget run run'
  Follows run (routed run') = HasSameBudget run run'

  routing-Follows : (run : RunState) (checker : NodeDef) → Follows run (routing safe run checker)
  unfolding routing
  routing-Follows run checker = elim (Option-cases (feedback_request run checker)) [
    | inl e ↦ rw (e, routing) tt
    | inr ((failures, target), e) ↦
        rw (e, routing)
          (if_ind (Follows run) (lacks_room run checker target (descendants_of run.graph target.id))
            (λ _. HasSameBudget-with_node run checker.id mark_applied Keeps-applied)
            (λ _. HasSameBudget-route run checker target failures))
  ]

  after_routing-same :
      (rest : RunState → RunState × Bool) (run : RunState) (r : Routing)
      → ((run' : RunState) → HasSameBudget run' (rest run').0)
      → Follows run r
      → HasSameBudget run (after_routing safe rest run r).0
  after_routing-same rest run passed_over same h = same run
  after_routing-same rest run (no_room run') same h = HasSameBudget-trans h (same run')
  after_routing-same rest run (routed run') same h = h

  feedback_loop-same :
      (ds : List NodeDef) (run : RunState) → HasSameBudget run (feedback_loop safe ds run).0
  unfolding feedback_loop
  feedback_loop-same [] run = HasSameBudget-refl run
  feedback_loop-same (d ∷ ds) run =
      after_routing-same (feedback_loop safe ds) run (routing safe run d)
        (λ run'. feedback_loop-same ds run') (routing-Follows run d)

  pub HasSameBudget-feedback :
      (run : RunState) → HasSameBudget run (apply_checker_feedback safe run).0
  unfolding apply_checker_feedback
  HasSameBudget-feedback run = feedback_loop-same run.graph.nodes run
