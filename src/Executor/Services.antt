-- ===== src/Executor/Services.antt =====
-- What the executor takes from other modules and from the runtime.
use opencode_alg.Base.{ℕ, String, Bool, Option, List}
use opencode_alg.Run.{NodeDef, ShellGateDef}
use opencode_alg.Run.Status.{AlgAgent}
use opencode_alg.Run.Values.{Json}

-- The result of `parseAndValidate`: the parsed output, or the failures.
pub data Validation : Type 0 where
  valid : Json → Validation
  invalid : List String → Validation

-- The result of a child session (`NodePromptResult`). An empty session identifier is no identifier.
pub record SessionReply : Type 0 where
  pub session_id : String
  pub parsed : Option Json
  pub text : String
  pub error : Option String
  pub response_diagnostic : Option String

-- The result of a shell command (`ShellExecutionResult`).
pub record ShellReply : Type 0 where
  pub exit_code : ℕ
  pub ok : Bool
  pub stdout_tail : String
  pub stderr_tail : String
  pub timed_out : Bool
  pub cancelled : Bool
  pub termination_failed : Bool
  pub cwd : String

pub record Services : Type 0 where
  -- `safeDiagnosticText` of src/diagnostics.ts, at its default cap and at a smaller one
  pub safe_text : String → String
  pub safe_text_to : ℕ → String → String
  -- `String.prototype.trim`
  pub trim : String → String
  -- the shell's name for `process.platform`
  pub shell_name : String
  pub parse_and_validate : AlgAgent → Json → Validation
  -- whether assertProjectFilePathContained and assertRunArtifactPathContained accept the path
  pub project_path_contained : String → Bool
  pub artifact_path_contained : (run_id path : String) → Bool
  pub normalize_response_paths : Json → Json
  -- whether preflightShellGates reports no error for the effective gates of the nodes, at the start
  -- of the execution or before the batch at an offset of a wave: children change the environment
  pub gates_ready : (moment : Option (ℕ × ℕ)) → List (NodeDef × Option ShellGateDef) → Bool

-- The replies of the outside world. An attempt of a node is made once, so that the replies are
-- functions of the node and the attempt: every behaviour of children and commands is one of these.
pub record World : Type 0 where
  pub session : (node : String) (attempt : ℕ) → SessionReply
  pub shell : (node : String) (attempt : ℕ) → ShellGateDef → ShellReply
  -- the diagnostic of an exception that ends the running attempt, if one does
  pub thrown : (node : String) (attempt : ℕ) → Option String
  -- the abort signal, as the loop reads it before a wave and before a batch of it
  pub aborted_wave : (wave : ℕ) → Bool
  pub aborted_batch : (wave offset : ℕ) → Bool
  -- whether an error leaves the execution at the end of a batch: a save that failed, or an
  -- exception of a member whose outcome was recorded before
  pub rejects : (wave offset : ℕ) → Bool
  -- whether an error leaves it at the end of a wave, or behind the waves: a save that failed
  pub rejects_wave : (wave : ℕ) → Bool
  pub rejects_end : Bool
  -- the order in which the members of a batch end, as far as an error lets them be settled
  pub completion : (wave offset : ℕ) → List (NodeDef × Option ℕ) → List (NodeDef × Option ℕ)

-- `ExecuteOptions`, as far as it changes what a run does.
pub record Options : Type 0 where
  pub max_waves : Option ℕ
  pub max_concurrency : Option ℕ
  pub dry : Bool
  pub shell_gate_cmd : Option String
  pub shell_gate_timeout_ms : Option ℕ
  pub shell_gate_cwd : Option String
