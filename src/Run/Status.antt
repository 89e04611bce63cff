-- ===== src/Run/Status.antt =====
-- The enumerations of src/types.ts, with the comparisons that the code makes on them.
use opencode_alg.Base.{Bool, true, false}

pub data AlgAgent : Type 0 where
  explorer researcher implementer checker shell : AlgAgent

pub data NodeStatus : Type 0 where
  pending ready running done failed skipped : NodeStatus

pub data RunStatus : Type 0 where
  planning running done failed blocked : RunStatus

pub data GateKind : Type 0 where
  schema shell all : GateKind

pub data Mode : Type 0 where
  live dry : Mode

pub data AttemptOutcome : Type 0 where
  passed schema_invalid sdk_error substantive_rejection incomplete gate_failure : AttemptOutcome

abbrev pub is_pending : NodeStatus → Bool
is_pending NodeStatus.pending = true
is_pending _ = false

abbrev pub is_running : NodeStatus → Bool
is_running NodeStatus.running = true
is_running _ = false

abbrev pub is_done : NodeStatus → Bool
is_done NodeStatus.done = true
is_done _ = false

abbrev pub is_failed : NodeStatus → Bool
is_failed NodeStatus.failed = true
is_failed _ = false

abbrev pub is_skipped : NodeStatus → Bool
is_skipped NodeStatus.skipped = true
is_skipped _ = false

-- `status === "pending" || status === "ready"`
abbrev pub is_waiting : NodeStatus → Bool
is_waiting NodeStatus.pending = true
is_waiting NodeStatus.ready = true
is_waiting _ = false

-- `status === "failed" || status === "skipped"`
abbrev pub is_broken : NodeStatus → Bool
is_broken NodeStatus.failed = true
is_broken NodeStatus.skipped = true
is_broken _ = false

-- `status === "done" || status === "failed" || status === "skipped"`
abbrev pub is_terminal : NodeStatus → Bool
is_terminal NodeStatus.done = true
is_terminal NodeStatus.failed = true
is_terminal NodeStatus.skipped = true
is_terminal _ = false

abbrev pub is_checker : AlgAgent → Bool
is_checker AlgAgent.checker = true
is_checker _ = false

abbrev pub is_implementer : AlgAgent → Bool
is_implementer AlgAgent.implementer = true
is_implementer _ = false

abbrev pub is_researcher : AlgAgent → Bool
is_researcher AlgAgent.researcher = true
is_researcher _ = false

abbrev pub is_shell : AlgAgent → Bool
is_shell AlgAgent.shell = true
is_shell _ = false

-- `gate === "shell" || gate === "all"`
abbrev pub is_shell_gate : GateKind → Bool
is_shell_gate GateKind.schema = false
is_shell_gate _ = true

abbrev pub is_dry : Mode → Bool
is_dry Mode.dry = true
is_dry Mode.live = false
