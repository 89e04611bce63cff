-- ===== src/Executor/Reply.antt =====
-- The first part of `runOneNode`: what the child or the command replied.
use opencode_alg.Base.{
  ℕ, String, Bool, true, false, Option, none, some, List, [], ◌∷◌, ◌++◌, ◌==◌, ◌<>◌, decimal,
  if◌then◌else◌,
}
use opencode_alg.Run.{NodeDef, RunState}
use opencode_alg.Run.Values.{Json, Fields, bool, num, str, obj, end, field}
use opencode_alg.Run.Status.{is_implementer, is_shell}
use opencode_alg.Executor.Services.{Services, World, SessionReply, ShellReply}
use opencode_alg.Executor.Gate.{truthy, dry_output}

-- The local variables of `runOneNode` that its later part reads, and the session identifier that the
-- attempt's record gets.
pub record Findings : Type 0 where
  pub session_id : Option String
  pub raw_output : Option Json
  pub error : Option String
  pub schema_ok : Bool
  pub shell_ok : Option Bool
  pub failures : List String
  pub retained : List String

abbrev pub flag : Bool → String → Fields → Fields
flag true key rest = field key (bool true) rest
flag false key rest = rest

-- The raw output of a shell node.
abbrev pub shell_output : String → ShellReply → Json
shell_output cmd r = obj (
    field "cmd" (str cmd) (
      field "exit_code" (num r.exit_code) (
        field "ok" (bool r.ok) (
          field "stdout_tail" (str r.stdout_tail) (
            field "stderr_tail" (str r.stderr_tail) (
              flag r.timed_out "timed_out" (
                flag r.cancelled "cancelled"
                  (flag r.termination_failed "termination_failed" end))))))))

abbrev pub optional_line : Option String → List String
optional_line none = []
optional_line (some s) = s ∷ []

abbrev pub parse_failure : Option Json → String → List String
parse_failure (some _) text = []
parse_failure none text = if text == "" then [] else "Could not parse JSON from agent response" ∷ []

module _ (services : Services) where
  open services use {safe_text, safe_text_to, trim, shell_name, normalize_response_paths}

  -- `shellFailure`
  unfoldable pub shell_failure : ShellReply → String
  shell_failure result =
      let category : String =
        if result.termination_failed
        then "termination_unverified"
        else if result.cancelled
        then "cancelled"
        else if result.timed_out
        then "timeout"
        else "nonzero_exit" in
      let blank_err = trim result.stderr_tail == "" in
      let blank_out = trim result.stdout_tail == "" in
      let channel : String =
        if blank_err then (if blank_out then "none" else "stdout") else "stderr" in
      let detail : String =
        if blank_err
        then (if blank_out
            then "No output captured; inspect the gate command, shell and cwd."
            else result.stdout_tail)
        else result.stderr_tail in
      safe_text (
        "shell gate failed (exit "
        <> (decimal result.exit_code
            <> ("): [category="
                <> (category
                    <> ("; shell="
                        <> (shell_name
                            <> ("; cwd="
                                <> (safe_text_to 256 result.cwd
                                    <> ("; output="
                                        <> (channel <> ("] " <> safe_text_to 500 detail)))))))))))

  abbrev pub shell_findings : String → ShellReply → Findings
  shell_findings cmd r = record {
    session_id = none;
    raw_output = some (shell_output cmd r);
    error = none;
    schema_ok = false;
    shell_ok = some r.ok;
    failures = if r.ok then [] else shell_failure r ∷ [];
    retained = if r.ok then [] else shell_failure r ∷ [];
  }

  abbrev pub normalized : NodeDef → Option Json → Option Json
  normalized d none = none
  normalized d (some raw) =
      some (if is_implementer d.agent then normalize_response_paths raw else raw)

  abbrev pub safe_option : Option String → Option String
  safe_option none = none
  safe_option (some s) = some (safe_text s)

  abbrev pub session_findings : NodeDef → SessionReply → Findings
  session_findings d r = record {
    session_id = truthy (some r.session_id);
    raw_output = normalized d r.parsed;
    error = safe_option (truthy r.error);
    schema_ok = false;
    shell_ok = none;
    failures =
        optional_line (safe_option (truthy r.response_diagnostic)) ++ parse_failure r.parsed r.text;
    retained = [];
  }

  -- The first part of `runOneNode`: a dry output, the node's command, or a child session. A shell
  -- node without a command, on which the source throws, is refused by the graph schema.
  unfoldable pub reply_findings : World → Bool → RunState → NodeDef → ℕ → Findings
  unfolding dry_output shell_failure
  reply_findings world dry run d attempt =
      if dry
      then record {
        session_id = none;
        raw_output = some (dry_output d run);
        error = none;
        schema_ok = false;
        shell_ok = none;
        failures = [];
        retained = [];
      }
      else if is_shell d.agent
      then elim d.shell_gate [
        | none ↦ session_findings d (world.session d.id attempt)
        | some g ↦ shell_findings g.cmd (world.shell d.id attempt g)
      ]
      else session_findings d (world.session d.id attempt)
