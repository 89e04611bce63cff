-- ===== src/Executor/Budget/Settling.antt =====
-- The ends of attempts charge nothing and forget no attempt.
use opencode_alg.Base.{
  ℕ, String, Bool, refl, Option, none, some, List, [], ◌∷◌, inl, inr, length-map_last, Option-cases,
  ◌||◌,
}
use opencode_alg.Run.{NodeDef, RunState}
use opencode_alg.Run.Status.{is_dry}
use opencode_alg.Executor.Services.{Services, World, Options}
use opencode_alg.Executor.Reply.{Findings}
use opencode_alg.Executor.Checks.{attempt_findings}
use opencode_alg.Executor.Record.{
  conclude_attempt, conclude_node, record_outcome, error_node, settle_node, settle_batch,
  fail_attempt,
}
use opencode_alg.Executor.Budget.Ledger.{
  Keeps, ledger-modify, HasSameBudget, HasSameBudget-refl, HasSameBudget-trans,
  HasSameBudget-with_node,
}

module _ (services : Services) where
  open services use {safe_text}

  Keeps-conclude :
      (dry : Bool) (d : NodeDef) (f : Findings) → Keeps (conclude_node services dry d f)
  unfolding conclude_node
  Keeps-conclude dry d f s = (refl, length-map_last (conclude_attempt services dry d f) s.attempts)

  Keeps-error : (diagnostic : String) (d : NodeDef) → Keeps (error_node services diagnostic d)
  unfolding error_node
  Keeps-error diagnostic d s = (refl, length-map_last (fail_attempt services diagnostic) s.attempts)

  HasSameBudget-record :
      (dry : Bool) (run : RunState) (d : NodeDef) (f : Findings)
      → HasSameBudget run (record_outcome services dry run d f)
  unfolding record_outcome
  HasSameBudget-record dry run d f = record {
    graph = refl;
    attempts = refl;
    counts = ledger-modify d.id (conclude_node services dry d f) run.nodes (Keeps-conclude dry d f);
  }

  HasSameBudget-settle :
      (world : World) (options : Options) (run : RunState) (d : NodeDef) (attempt : Option ℕ)
      → HasSameBudget run (settle_node services world options run d attempt)
  unfolding settle_node
  HasSameBudget-settle world options run d none = HasSameBudget-refl run
  HasSameBudget-settle world options run d (some attempt) =
      elim (Option-cases (world.thrown d.id attempt)) [
        | inl e ↦
            rw (e, settle_node)
              (HasSameBudget-record (options.dry || is_dry run.mode) run d
                (attempt_findings services world options run d attempt))
        | inr (diagnostic, e) ↦
            rw (e, settle_node)
              (HasSameBudget-with_node run d.id (error_node services diagnostic d)
                (Keeps-error diagnostic d))
      ]

  pub HasSameBudget-settle_batch :
      (world : World) (options : Options) (run : RunState) (batch : List (NodeDef × Option ℕ))
      → HasSameBudget run (settle_batch services world options run batch)
  unfolding settle_batch
  HasSameBudget-settle_batch world options run [] = HasSameBudget-refl run
  HasSameBudget-settle_batch world options run ((d, attempt) ∷ rest) =
      HasSameBudget-trans (HasSameBudget-settle world options run d attempt) (
        HasSameBudget-settle_batch world options (settle_node services world options run d attempt)
          rest)
