-- ===== src/RunSchema/Verdict.antt =====
-- The status that an execution writes, held against the rules on the status of a run.
use opencode_alg.Base.{
  String, true, false, ◌≡◌, refl, not, some, List, [], ◌∷◌, every, any, values, arith,
}
use opencode_alg.Graph.{all_terminal, any_failed}
use opencode_alg.Run.{NodeState, RunState}
use opencode_alg.Run.Status.{RunStatus, is_terminal}
use opencode_alg.Executor.Services.{Services, World, Options}
use opencode_alg.Executor.Loop.{execute_run, completed}
use opencode_alg.Executor.Verdict.{StatusHolds, execute_run-EndsHeld}
use opencode_alg.RunSchema.Rules.{verdict_issues, is_done_run}

none_open :
    (states : List NodeState)
    → every (λ (s : NodeState). is_terminal s.status) states ≡ true
    → any (λ (s : NodeState). not (is_terminal s.status)) states ≡ false
none_open [] h = refl
none_open (s ∷ states) h = ground (arith, none_open states)

verdict_issues-StatusHolds :
    (run : RunState) (status : RunStatus)
    → run.status ≡ status
    → StatusHolds status run
    → is_done_run status ≡ false
    → verdict_issues run ≡ []
unfolding verdict_issues all_terminal any_failed
verdict_issues-StatusHolds run RunStatus.done e h later = let wrong : true ≡ false = later in cc
verdict_issues-StatusHolds run RunStatus.planning e h later = absurd h
verdict_issues-StatusHolds run RunStatus.running e h later = absurd h
verdict_issues-StatusHolds run RunStatus.blocked e h later = rw (e, verdict_issues) refl
verdict_issues-StatusHolds run RunStatus.failed e (over, failed) later =
    rw (e, failed, none_open (values run.nodes) over, verdict_issues) refl

-- A run with which an execution ends, other than as done, passes the rules on the status of a
-- stored run: a failed one has a failed node, and all of its nodes are finished.
pub execute_run-verdict_issues :
    (services : Services) (world : World) (options : Options) (parent : String)
    (run run' : RunState)
    → execute_run services world options parent run ≡ some (completed run')
    → is_done_run run'.status ≡ false
    → verdict_issues run' ≡ []
execute_run-verdict_issues services world options parent run run' h later =
    verdict_issues-StatusHolds run' run'.status refl
      (execute_run-EndsHeld services world options parent run (completed run') h) later
