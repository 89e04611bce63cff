-- ===== src/Examples/Samples.antt =====
-- A small graph: an implementer, and a checker that may send it back.
use opencode_alg.Base.{ℕ, String, true, false, none, some, List, [], ◌∷◌}
use opencode_alg.Run.{NodeDef, NodeAttempt, NodeState, GraphDef, RunState, Nodes}
use opencode_alg.Run.Status.{AlgAgent, NodeStatus, RunStatus, GateKind, Mode}
use opencode_alg.Run.Values.{null}
use opencode_alg.Graph.{initial_state}
use opencode_alg.Executor.Services.{Services, World, Options, valid}

abbrev pub build : NodeDef
build = record {
  id = "build";
  agent = AlgAgent.implementer;
  depends_on = [];
  inputs = none;
  description = none;
  loop = some (record { max_attempts = 2; gate = GateKind.schema });
  shell_gate = none;
  isolated_check = false;
  feedback_to = none;
}

abbrev pub review : NodeDef
review = record {
  id = "review";
  agent = AlgAgent.checker;
  depends_on = "build" ∷ [];
  inputs = some (("claimed", "build.summary") ∷ []);
  description = none;
  loop = some (record { max_attempts = 2; gate = GateKind.schema });
  shell_gate = none;
  isolated_check = true;
  feedback_to = some "build";
}

abbrev pub pair : GraphDef
pair = record {
  name = "pair";
  description = none;
  nodes = build ∷ review ∷ [];
  max_global_attempts = 4;
  max_concurrency = 1;
}

abbrev pub run_of : Nodes → ℕ → RunState
run_of nodes attempts = record {
  revision = 1;
  run_id = "run-1";
  owner_session_id = "owner";
  parent_session_id = "owner";
  owner_transfers = [];
  goal = "goal";
  criteria = [];
  criteria_locked = false;
  graph = pair;
  status = RunStatus.blocked;
  phase = "blocked";
  nodes = nodes;
  global_attempts = attempts;
  mode = Mode.live;
}

abbrev attempt_of : NodeStatus → List String → NodeAttempt
attempt_of status failures = record {
  attempt = 1;
  status = status;
  session_id = none;
  output = none;
  failures = failures;
  score = none;
  shell_ok = none;
  schema_ok = some true;
  error = none;
  feedback_applied = true;
  outcome = none;
}

abbrev pub state_of : NodeDef → NodeStatus → List NodeAttempt → ℕ → List String → NodeState
state_of d status attempts count failures = record {
  id = d.id;
  agent = d.agent;
  status = status;
  attempts = attempts;
  current_attempt = count;
  output = none;
  last_failures = failures;
}

-- No attempt has been made.
abbrev pub fresh_run : RunState
fresh_run = run_of (("build", initial_state build) ∷ ("review", initial_state review) ∷ []) 0

-- The checker has sent the implementer back, and nothing has run since.
abbrev pub reopened_build : NodeState
reopened_build =
    state_of build NodeStatus.pending (attempt_of NodeStatus.done [] ∷ []) 1 ("wrong" ∷ [])

abbrev pub reopened_run : RunState
reopened_run =
    run_of
      (("build", reopened_build)
        ∷ (
          "review",
          state_of review NodeStatus.pending (attempt_of NodeStatus.failed ("wrong" ∷ []) ∷ []) 1
              ("wrong" ∷ []),
        )
        ∷ [])
      2

-- The implementer has failed for good.
abbrev pub failed_run : RunState
failed_run =
    run_of
      ((
        "build",
        state_of build NodeStatus.failed
            (attempt_of NodeStatus.failed ("no" ∷ [])
              ∷ attempt_of NodeStatus.failed ("no" ∷ [])
              ∷ [])
            2 ("no" ∷ []),
      )
        ∷ ("review", initial_state review)
        ∷ [])
      2

-- Texts are kept, every output is valid, and every path is inside the project.
abbrev pub plain_services : Services
plain_services = record {
  safe_text = λ text. text;
  safe_text_to = λ cap text. text;
  trim = λ text. text;
  shell_name = "sh";
  parse_and_validate = λ agent output. valid output;
  project_path_contained = λ path. true;
  artifact_path_contained = λ run_id path. true;
  normalize_response_paths = λ output. output;
  gates_ready = λ moment gates. true;
}

-- Sessions answer with an empty value, and batches end in their order.
abbrev pub plain_world : World
plain_world = record {
  session = λ node attempt. record {
    session_id = "s";
    parsed = some null;
    text = "";
    error = none;
    response_diagnostic = none;
  };
  shell = λ node attempt gate. record {
    exit_code = 0;
    ok = true;
    stdout_tail = "";
    stderr_tail = "";
    timed_out = false;
    cancelled = false;
    termination_failed = false;
    cwd = "";
  };
  thrown = λ node attempt. none;
  aborted_wave = λ wave. false;
  aborted_batch = λ wave offset. false;
  rejects = λ wave offset. false;
  rejects_wave = λ wave. false;
  rejects_end = false;
  completion = λ wave offset batch. batch;
}

-- A dry execution: the outputs are those of dryOutput.
abbrev pub dry_options : Options
dry_options = record {
  max_waves = some 4;
  max_concurrency = none;
  dry = true;
  shell_gate_cmd = none;
  shell_gate_timeout_ms = none;
  shell_gate_cwd = none;
}
