-- ===== src/Executor/Resume.antt =====
-- `prepareRunForResume` and `closeRun`.
use opencode_alg.Base.{
  String, Bool, true, false, ◌||◌, none, some, List, [], ◌∷◌, ◌++◌, ltb, map_last, any, lookup,
  modify, values, ◌<>◌, if◌then◌else◌,
}
use opencode_alg.Diagnostics.{bound_diagnostic_list}
use opencode_alg.Run.{NodeDef, NodeAttempt, NodeState, Nodes, RunState, max_attempts}
use opencode_alg.Run.Status.{NodeStatus, RunStatus, is_running, is_failed, is_terminal}
use opencode_alg.Executor.Reserve.{last_done}

abbrev pub interrupted_message : String
interrupted_message = "Previous execution ended before the attempt completed"

module _ (safe : String → String) where
  abbrev pub interrupt : NodeAttempt → NodeAttempt
  interrupt a =
      if is_running a.status
      then record a {
        status = NodeStatus.failed;
        failures = bound_diagnostic_list safe (a.failures ++ interrupted_message ∷ []) [];
        schema_ok = some false;
      }
      else a

  -- The new state of a node, by its status.
  unfoldable pub resume_node : NodeDef → NodeState → NodeState
  resume_node d s = elim s.status [
    | NodeStatus.running ↦ record s {
      attempts = map_last interrupt s.attempts;
      last_failures = interrupted_message ∷ [];
      status =
          if ltb s.current_attempt (max_attempts d) then NodeStatus.pending else NodeStatus.failed;
    }
    | NodeStatus.failed ↦
        if ltb s.current_attempt (max_attempts d)
        then record s { status = NodeStatus.pending }
        else s
    | NodeStatus.skipped ↦ record s { status = NodeStatus.pending }
    | _ ↦ s
  ]

  -- Whether the node is counted in `reopened`.
  unfoldable pub reopens : NodeDef → NodeState → Bool
  reopens d s = elim s.status [
    | NodeStatus.running ↦ ltb s.current_attempt (max_attempts d)
    | NodeStatus.failed ↦ ltb s.current_attempt (max_attempts d)
    | NodeStatus.skipped ↦ true
    | _ ↦ false
  ]

  unfoldable pub resume_loop : List NodeDef → Nodes → Bool → Nodes × Bool
  unfolding resume_node reopens
  resume_loop [] nodes reopened = (nodes, reopened)
  resume_loop (d ∷ ds) nodes reopened = elim (lookup d.id nodes) [
    | none ↦ resume_loop ds nodes reopened
    | some s ↦ resume_loop ds (modify d.id (resume_node d) nodes) (reopened || reopens d s)
  ]

  unfoldable pub prepare_run_for_resume : RunState → RunState
  unfolding resume_loop
  prepare_run_for_resume run =
      let (nodes, reopened) = resume_loop run.graph.nodes run.nodes false in
      if reopened
      then record run { nodes = nodes; status = RunStatus.blocked; phase = "blocked" }
      else record run { nodes = nodes }

  abbrev pub close_note : String → List String
  close_note reason =
      bound_diagnostic_list safe (safe ("Run closed by its owner: " <> reason) ∷ []) []

  -- A node that is not finished is failed, or skipped if its last attempt had passed.
  unfoldable pub close_node : List String → NodeState → NodeState
  unfolding last_done
  close_node note s = if is_terminal s.status then s else record s {
    status = if last_done s then NodeStatus.skipped else NodeStatus.failed;
    last_failures = note;
  }

  unfoldable pub close_loop : List String → List NodeDef → Nodes → Nodes
  unfolding close_node
  close_loop note [] nodes = nodes
  close_loop note (d ∷ ds) nodes = close_loop note ds (modify d.id (close_node note) nodes)

  -- `closeRun` throws on a finished run, and where no node can be marked as failed.
  pub data CloseResult : Type 0 where
    closed : RunState → CloseResult
    already_finished nothing_to_fail : CloseResult

  abbrev pub is_finished : RunStatus → Bool
  is_finished RunStatus.done = true
  is_finished RunStatus.failed = true
  is_finished _ = false

  -- `failed` of the source is whether some node is failed at the end: a node that fails stays so.
  unfoldable pub close_run : RunState → String → CloseResult
  unfolding prepare_run_for_resume close_loop
  close_run run reason =
      if is_finished run.status
      then already_finished
      else let prepared = prepare_run_for_resume run in
        let nodes = close_loop (close_note reason) prepared.graph.nodes prepared.nodes in
        if any (λ s. is_failed s.status) (values nodes)
        then closed (record prepared { nodes = nodes; status = RunStatus.failed; phase = "failed" })
        else nothing_to_fail
