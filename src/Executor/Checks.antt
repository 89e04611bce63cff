-- ===== src/Executor/Checks.antt =====
-- The middle part of `runOneNode`: the checks of the reply, the shell gate and the stated failures.
use opencode_alg.Base.{
  ℕ, String, Bool, true, false, ◌&&◌, ◌||◌, not, Option, none, some, List, [], ◌∷◌, ◌++◌, map, ◌<>◌,
  if◌then◌else◌,
}
use opencode_alg.Run.{NodeDef, RunState, gate}
use opencode_alg.Run.Values.{Json, Items, bool, str, arr, nil, cons, member, texts}
use opencode_alg.Run.Status.{is_checker, is_implementer, is_shell, is_shell_gate, is_dry}
use opencode_alg.Executor.Services.{Services, World, Options, ShellReply, valid, invalid}
use opencode_alg.Executor.Gate.{effective_shell_gate}
use opencode_alg.Executor.Reply.{Findings, optional_line, shell_failure, reply_findings}

abbrev pub no_failures : List String → Bool
no_failures [] = true
no_failures (_ ∷ _) = false

-- `output[key] === true` for a Boolean field.
abbrev pub is_true : Option Json → Bool
is_true (some (bool b)) = b
is_true _ = false

abbrev pub texts_of : Option Json → List String
texts_of (some (arr items)) = texts items
texts_of _ = []

module _ (services : Services) where
  open services use {safe_text, parse_and_validate, project_path_contained, artifact_path_contained}

  -- The paths of `files_touched`.
  unfoldable pub path_failures : Items → List String
  path_failures nil = []
  path_failures (cons (str path) items) =
      (if project_path_contained path
        then []
        else "schema: files_touched: code=path_not_contained expected=project-relative contained path"
          ∷ [])
      ++ path_failures items
  path_failures (cons _ items) =
      "schema: files_touched: code=invalid_type expected=string" ∷ path_failures items

  abbrev pub files_failures : Option Json → List String
  files_failures (some (arr items)) = path_failures items
  files_failures _ = []

  abbrev pub artifact_failures : String → Option Json → List String
  artifact_failures run_id (some (str path)) =
      if artifact_path_contained run_id path
      then []
      else "schema: artifact_path: code=path_not_contained expected=current-run artifact path" ∷ []
  artifact_failures run_id _ = []

  -- The containment checks of an implementer's output; other roles report no paths.
  unfoldable pub containment_failures : String → NodeDef → Json → List String
  unfolding path_failures member
  containment_failures run_id d output =
      if is_implementer d.agent
      then files_failures (member "files_touched" output)
        ++ artifact_failures run_id (member "artifact_path" output)
      else []

  -- The schema verdict on the raw output.
  unfoldable pub check_output : String → NodeDef → Findings → Findings
  unfolding containment_failures
  check_output run_id d f = elim f.raw_output [
    | none ↦ record f {
      failures = f.failures ++ elim f.error [ none ↦ "No output produced" ∷ [] | some _ ↦ [] ];
    }
    | some raw ↦ elim (parse_and_validate d.agent raw) [
      | valid output ↦
          let paths = containment_failures run_id d output in
          record f {
            raw_output = some output;
            schema_ok = no_failures paths;
            failures = f.failures ++ paths;
          }
      | invalid issues ↦ record f {
        failures = f.failures ++ map (λ issue. safe_text ("schema: " <> issue)) issues;
      }
    ]
  ]

  -- `if (error) failures.push(error)`
  unfoldable pub push_error : Findings → Findings
  push_error f = record f { failures = f.failures ++ optional_line f.error }

  abbrev pub gate_failures : ShellReply → List String
  gate_failures reply = if reply.ok then [] else shell_failure services reply ∷ []

  abbrev pub with_gate_reply : Findings → ShellReply → Findings
  with_gate_reply f reply = record f {
    shell_ok = some reply.ok;
    failures = f.failures ++ gate_failures reply;
    retained = f.retained ++ gate_failures reply;
  }

  -- The shell gate of a node whose agent is not the shell.
  unfoldable pub run_gate : World → Bool → Options → RunState → NodeDef → ℕ → Findings → Findings
  unfolding effective_shell_gate shell_failure gate
  run_gate world dry options run d attempt f = elim (effective_shell_gate run d options) [
    | none ↦ f
    | some g ↦
        if not dry && not (is_shell d.agent) && is_shell_gate (gate d) && f.schema_ok
        then with_gate_reply f (world.shell d.id attempt g)
        else f
  ]

  -- The failures that a valid checker or implementer output states itself.
  unfoldable pub stated_failures : NodeDef → Findings → List String
  unfolding texts member
  stated_failures d f = elim f.raw_output [
    | none ↦ []
    | some output ↦
        if f.schema_ok && is_checker d.agent && not (is_true (member "passed" output))
        then map safe_text (texts_of (member "failures" output))
        else if f.schema_ok && is_implementer d.agent && not (is_true (member "done" output))
        then map (λ blocker. safe_text ("implementer incomplete: " <> blocker))
            (texts_of (member "blockers" output))
        else []
  ]

  unfoldable pub state_failures : NodeDef → Findings → Findings
  unfolding stated_failures
  state_failures d f = record f { failures = f.failures ++ stated_failures d f }

  -- All of `runOneNode` up to the verdict.
  unfoldable pub attempt_findings : World → Options → RunState → NodeDef → ℕ → Findings
  unfolding reply_findings check_output push_error run_gate state_failures
  attempt_findings world options run d attempt =
      let dry = options.dry || is_dry run.mode in
      let replied = reply_findings services world dry run d attempt in
      let validated = push_error (check_output run.run_id d replied) in
      state_failures d (run_gate world dry options run d attempt validated)
