-- ===== src/Executor/Budget/Resuming.antt =====
-- Resumption charges nothing and forgets no attempt.
use opencode_alg.Base.{
  if_ind, String, Bool, false, ◌≡◌, refl, ◌∙◌, List, [], ◌∷◌, inl, inr, length-map_last, lookup,
  modify, arith, Option-cases,
}
use opencode_alg.Run.{NodeDef, Nodes, RunState}
use opencode_alg.Executor.Resume.{interrupt, resume_node, resume_loop, prepare_run_for_resume}
use opencode_alg.Executor.Budget.Ledger.{
  IsBudgeted, IsBudgeted-same, ledger, Keeps, ledger-modify, HasSameBudget,
}

module _ (safe : String → String) where
  Keeps-resume : (d : NodeDef) → Keeps (resume_node safe d)
  unfolding resume_node
  Keeps-resume d s = ground (arith, length-map_last (interrupt safe) s.attempts)

  ledger-resume_loop :
      (ds : List NodeDef) (nodes : Nodes) (reopened : Bool)
      → ledger (resume_loop safe ds nodes reopened).0 ≡ ledger nodes
  unfolding resume_loop
  ledger-resume_loop [] nodes reopened = refl
  ledger-resume_loop (d ∷ ds) nodes reopened = elim (Option-cases (lookup d.id nodes)) [
    | inl e ↦ rw (e, resume_loop) (ledger-resume_loop ds nodes reopened)
    | inr (s, e) ↦
        rw (e, resume_loop)
          (ledger-resume_loop ds (modify d.id (resume_node safe d) nodes) _
            ∙ ledger-modify d.id (resume_node safe d) nodes (Keeps-resume d))
  ]

  pub HasSameBudget-resume : (run : RunState) → HasSameBudget run (prepare_run_for_resume safe run)
  unfolding prepare_run_for_resume
  HasSameBudget-resume run =
      let counts = ledger-resume_loop run.graph.nodes run.nodes false in
      if_ind (HasSameBudget run) (resume_loop safe run.graph.nodes run.nodes false).1
        (λ _. record { graph = refl; attempts = refl; counts = counts })
        (λ _. record { graph = refl; attempts = refl; counts = counts })

-- Where the attempt counts of a run are exact and within their limits, they are so after
-- prepareRunForResume, however many nodes it reopens.
pub prepare_run_for_resume-IsBudgeted :
    (safe : String → String) (run : RunState)
    → IsBudgeted run
    → IsBudgeted (prepare_run_for_resume safe run)
prepare_run_for_resume-IsBudgeted safe run = IsBudgeted-same (HasSameBudget-resume safe run)
