-- ===== src/Executor/Reserve.antt =====
-- `reserveAttempt`: the budgets are charged before any child starts.
use opencode_alg.Base.{
  ℕ, ◌+◌, String, Bool, false, Option, none, some, List, [], ◌∷◌, ◌++◌, leb, last?, lookup, modify,
  ◌<>◌, decimal, if◌then◌else◌,
}
use opencode_alg.Run.{NodeDef, NodeAttempt, NodeState, RunState, max_attempts}
use opencode_alg.Run.Status.{NodeStatus, is_done}

abbrev pub local_message : ℕ → String
local_message n = "Local attempt limit reached (" <> (decimal n <> ")")

abbrev pub global_message : ℕ → String
global_message n = "Global attempt limit reached (" <> (decimal n <> ")")

-- `state.attempts.at(-1)?.status === "done"`
unfoldable pub last_done : NodeState → Bool
last_done s = elim (last? s.attempts) [ none ↦ false | some a ↦ is_done a.status ]

-- Assignments to the state under one identifier.
abbrev pub with_node : RunState → String → (NodeState → NodeState) → RunState
with_node run id f = record run { nodes = modify id f run.nodes }

abbrev pub fail_with : String → NodeState → NodeState
fail_with message s = record s { status = NodeStatus.failed; last_failures = message ∷ [] }

-- A node that no budget is left for: one that was reopened keeps its success and waits.
abbrev pub block_with : String → NodeState → NodeState
unfolding last_done
block_with message s = record s {
  status = if last_done s then NodeStatus.pending else NodeStatus.failed;
  last_failures = message ∷ [];
}

abbrev pub running_attempt : ℕ → NodeAttempt
running_attempt n = record {
  attempt = n;
  status = NodeStatus.running;
  session_id = none;
  output = none;
  failures = [];
  score = none;
  shell_ok = none;
  schema_ok = none;
  error = none;
  feedback_applied = false;
  outcome = none;
}

abbrev pub start_attempt : NodeState → NodeState
start_attempt s = record s {
  current_attempt = s.current_attempt + 1;
  attempts = s.attempts ++ running_attempt (s.current_attempt + 1) ∷ [];
  status = NodeStatus.running;
}

-- The run, and the number of the attempt if one was reserved. A definition without state, on which
-- the source throws, changes nothing: the run schema admits no such run.
unfoldable pub reserve_attempt : RunState → NodeDef → RunState × Option ℕ
unfolding last_done
reserve_attempt run d = elim (lookup d.id run.nodes) [
  | none ↦ (run, none)
  | some s ↦
      if leb (max_attempts d) s.current_attempt
      then (with_node run d.id (fail_with (local_message (max_attempts d))), none)
      else if leb run.graph.max_global_attempts run.global_attempts
      then (with_node run d.id (block_with (global_message run.graph.max_global_attempts)), none)
      else (
        record run {
          nodes = modify d.id start_attempt run.nodes;
          global_attempts = run.global_attempts + 1;
        },
        some (s.current_attempt + 1),
      )
]

-- `batch.map((definition) => reserveAttempt(run, definition))`
unfoldable pub reserve_batch : RunState → List NodeDef → RunState × List (NodeDef × Option ℕ)
unfolding reserve_attempt
reserve_batch run [] = (run, [])
reserve_batch run (d ∷ ds) =
    let (run', attempt) = reserve_attempt run d in
    let (run'', attempts) = reserve_batch run' ds in (run'', (d, attempt) ∷ attempts)
