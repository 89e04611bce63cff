-- ===== src/Executor/Record.antt =====
-- The last part of `runOneNode`: the verdict and what it writes, and how `executeRun` settles a batch.
use opencode_alg.Base.{
  ℕ, String, Bool, true, false, ◌&&◌, ◌||◌, not, Option, none, some, List, [], ◌∷◌, ◌++◌, ltb,
  map_last, if◌then◌else◌,
}
use opencode_alg.Diagnostics.{bound_diagnostic_list}
use opencode_alg.Run.{NodeDef, NodeAttempt, NodeState, RunState, max_attempts, gate}
use opencode_alg.Run.Values.{Json, bool, num, member}
use opencode_alg.Run.Status.{
  NodeStatus, AttemptOutcome, is_checker, is_implementer, is_researcher, is_shell, is_shell_gate,
  is_dry,
}
use opencode_alg.Executor.Services.{Services, World, Options}
use opencode_alg.Executor.Reserve.{with_node}
use opencode_alg.Executor.Reply.{Findings}
use opencode_alg.Executor.Checks.{no_failures, texts_of, attempt_findings}

-- `shellOk === true`
abbrev pub said_ok : Option Bool → Bool
said_ok (some b) = b
said_ok none = false

-- `value[key] === false`
abbrev pub is_false : Option Json → Bool
is_false (some (bool b)) = not b
is_false _ = false

abbrev field_of : String → Option Json → Option Json
field_of key none = none
field_of key (some output) = member key output

abbrev pub shell_required : NodeDef → Bool
unfolding gate
shell_required d = is_shell d.agent || is_shell_gate (gate d)

-- `passed`
unfoldable pub has_passed : Bool → NodeDef → Findings → Bool
unfolding gate
has_passed dry d f =
    no_failures f.failures && f.schema_ok && (not (shell_required d) || dry || said_ok f.shell_ok)

unfoldable pub attempt_outcome : Bool → NodeDef → Findings → AttemptOutcome
unfolding has_passed gate member
attempt_outcome dry d f = if has_passed dry d f then AttemptOutcome.passed else elim f.error [
  | some _ ↦ AttemptOutcome.sdk_error
  | none ↦
      if not f.schema_ok
      then AttemptOutcome.schema_invalid
      else if shell_required d && not dry && not (said_ok f.shell_ok)
      then AttemptOutcome.gate_failure
      else if is_checker d.agent && is_false (field_of "passed" f.raw_output)
      then AttemptOutcome.substantive_rejection
      else if is_implementer d.agent && is_false (field_of "done" f.raw_output)
      then AttemptOutcome.incomplete
      else AttemptOutcome.gate_failure
]

abbrev accepted_output : Findings → Option Json
accepted_output f = if f.schema_ok then f.raw_output else none

abbrev pub number_of : Option Json → Option ℕ
number_of (some (num n)) = some n
number_of _ = none

abbrev pub session_of : Findings → NodeAttempt → Option String
session_of f a = elim f.session_id [ none ↦ a.session_id | some id ↦ some id ]

abbrev pub is_rejection : AttemptOutcome → Bool
is_rejection AttemptOutcome.substantive_rejection = true
is_rejection _ = false

abbrev is_some : Option String → Bool
is_some none = false
is_some (some _) = true

abbrev is_empty : List String → Bool
is_empty [] = true
is_empty (_ ∷ _) = false

-- The first researcher of a run without criteria sets and locks them.
abbrev pub adopts_criteria : Bool → NodeDef → Findings → RunState → Bool
adopts_criteria dry d f run = has_passed dry d f && is_researcher d.agent && is_empty run.criteria

module _ (services : Services) where
  open services use {safe_text}

  abbrev pub persisted_failures : Findings → List String
  persisted_failures f = bound_diagnostic_list safe_text f.failures f.retained

  -- The fields that the verdict writes to the attempt.
  unfoldable pub conclude_attempt : Bool → NodeDef → Findings → NodeAttempt → NodeAttempt
  unfolding has_passed attempt_outcome member
  conclude_attempt dry d f a = record a {
    session_id = session_of f a;
    status = if has_passed dry d f then NodeStatus.done else NodeStatus.failed;
    output = accepted_output f;
    failures = persisted_failures f;
    score =
        if f.schema_ok && is_checker d.agent
        then number_of (field_of "score" f.raw_output)
        else none;
    shell_ok = f.shell_ok;
    schema_ok = some f.schema_ok;
    error = f.error;
    outcome = some (attempt_outcome dry d f);
  }

  -- `awaitsFeedbackRouting`
  unfoldable pub awaits_feedback : Bool → NodeDef → Findings → Bool
  unfolding attempt_outcome
  awaits_feedback dry d f =
      is_checker d.agent && is_some d.feedback_to && is_rejection (attempt_outcome dry d f)

  -- The new state of the node. The attempt that ran is the last of its list.
  unfoldable pub conclude_node : Bool → NodeDef → Findings → NodeState → NodeState
  unfolding conclude_attempt awaits_feedback has_passed
  conclude_node dry d f s = record s {
    attempts = map_last (conclude_attempt dry d f) s.attempts;
    output = accepted_output f;
    status =
        if has_passed dry d f
        then NodeStatus.done
        else if not (awaits_feedback dry d f) && ltb s.current_attempt (max_attempts d)
        then NodeStatus.pending
        else NodeStatus.failed;
    last_failures = if has_passed dry d f then [] else persisted_failures f;
  }

  unfoldable pub record_outcome : Bool → RunState → NodeDef → Findings → RunState
  unfolding conclude_node has_passed member
  record_outcome dry run d f = record run {
    nodes = (with_node run d.id (conclude_node dry d f)).nodes;
    criteria =
        if adopts_criteria dry d f run
        then texts_of (field_of "acceptance_criteria" f.raw_output)
        else run.criteria;
    criteria_locked = adopts_criteria dry d f run || run.criteria_locked;
  }

  abbrev pub fail_attempt : String → NodeAttempt → NodeAttempt
  fail_attempt diagnostic a = record a {
    status = NodeStatus.failed;
    failures = bound_diagnostic_list safe_text (a.failures ++ diagnostic ∷ []) (diagnostic ∷ []);
    schema_ok = some false;
    error = some diagnostic;
    outcome = some AttemptOutcome.sdk_error;
  }

  -- The handler of a rejected `runOneNode` in `executeRun`.
  unfoldable pub error_node : String → NodeDef → NodeState → NodeState
  error_node diagnostic d s = record s {
    attempts = map_last (fail_attempt diagnostic) s.attempts;
    status =
        if ltb s.current_attempt (max_attempts d) then NodeStatus.pending else NodeStatus.failed;
    last_failures = bound_diagnostic_list safe_text (diagnostic ∷ []) (diagnostic ∷ []);
  }

  -- One member of a batch comes to its end. The exceptions here are those that reach the handler while
  -- the attempt is running; any other one leaves the execution (`rejects`).
  unfoldable pub settle_node : World → Options → RunState → NodeDef → Option ℕ → RunState
  unfolding attempt_findings record_outcome error_node
  settle_node world options run d none = run
  settle_node world options run d (some attempt) = elim (world.thrown d.id attempt) [
    | some diagnostic ↦ with_node run d.id (error_node diagnostic d)
    | none ↦
        record_outcome (options.dry || is_dry run.mode) run d
          (attempt_findings services world options run d attempt)
  ]

  -- The members of a batch end in the order of the list.
  unfoldable pub settle_batch : World → Options → RunState → List (NodeDef × Option ℕ) → RunState
  unfolding settle_node
  settle_batch world options run [] = run
  settle_batch world options run ((d, attempt) ∷ rest) =
      settle_batch world options (settle_node world options run d attempt) rest
