-- ===== src/Executor/Gate.antt =====
-- `effectiveShellGate` and `dryOutput` of src/executor.ts.
use opencode_alg.Base.{
  String, Bool, true, false, ◌&&◌, Option, none, some, List, [], ◌∷◌, ◌==◌, ◌<>◌, if◌then◌else◌,
  find,
}
use opencode_alg.Run.{NodeDef, ShellGateDef, RunState}
use opencode_alg.Run.Values.{Json, Items, bool, num, str, arr, obj, nil, cons, end, field}
use opencode_alg.Run.Status.{AlgAgent, is_implementer}
use opencode_alg.Executor.Services.{Options}

-- An optional text that is there and not empty.
abbrev pub truthy : Option String → Option String
truthy none = none
truthy (some s) = if s == "" then none else some s

abbrev pub text_list : List String → Items
text_list [] = nil
text_list (s ∷ ss) = cons (str s) (text_list ss)

-- `dryOutput`
unfoldable pub dry_output : NodeDef → RunState → Json
dry_output d run = elim d.agent [
  | AlgAgent.explorer ↦ obj (
      field "query" (str run.goal) (
        field "map"
          (arr (cons (obj (field "path" (str "(dry-run)") (field "role" (str "stub") end))) nil))
          (field "key_hits" (arr nil) (field "next" (str "researcher") end))))
  | AlgAgent.researcher ↦ obj (
      field "answer" (str ("Dry research for: " <> run.goal)) (
        field "evidence" (arr nil) (
          field "constraints" (arr (cons (str "dry-run constraint") nil)) (
            field "options" (arr nil) (
              field "acceptance_criteria"
                (arr (
                  text_list (elim run.criteria [
                    | [] ↦ "Dry criterion: artifact schema valid" ∷ []
                    | c ∷ cs ↦ c ∷ cs
                  ])))
                (field "risks" (arr nil) end))))))
  | AlgAgent.implementer ↦ obj (
      field "summary" (arr (cons (str ("Dry implement: " <> run.goal)) nil)) (
        field "files_touched" (arr nil) (
          field "commands_run" (arr nil) (field "risks" (arr nil) (field "done" (bool true) end)))))
  | AlgAgent.checker ↦ obj (
      field "passed" (bool true) (
        field "failures" (arr nil)
          (field "score" (num 10) (field "notes" (str "dry-run auto-pass") end))))
  | AlgAgent.shell ↦ obj (
      field "cmd" (str (elim d.shell_gate [ none ↦ "dry" | some g ↦ g.cmd ])) (
        field "exit_code" (num 0) (
          field "ok" (bool true)
            (field "stdout_tail" (str "dry") (field "stderr_tail" (str "") end)))))
]

abbrev pub or_else : {A : Type 0} → Option A → Option A → Option A
or_else none b = b
or_else (some a) b = some a

-- `{ ...definition.shell_gate, cmd, timeout_ms?, cwd? }`
abbrev pub override_gate : Options → String → Option ShellGateDef → ShellGateDef
override_gate options cmd none = record {
  cmd = cmd;
  cwd = options.shell_gate_cwd;
  timeout_ms = options.shell_gate_timeout_ms;
}
override_gate options cmd (some g) = record {
  cmd = cmd;
  cwd = or_else options.shell_gate_cwd g.cwd;
  timeout_ms = or_else options.shell_gate_timeout_ms g.timeout_ms;
}

-- `definition.id === run.graph.nodes.find((node) => node.agent === "implementer")?.id`
abbrev pub is_first_implementer : RunState → String → Bool
is_first_implementer run id =
    elim (find (λ (e : NodeDef). is_implementer e.agent) run.graph.nodes) [
      | none ↦ false
      | some e ↦ id == e.id
    ]

-- `effectiveShellGate`: the public override is for the first implementer of the graph only.
unfoldable pub effective_shell_gate : RunState → NodeDef → Options → Option ShellGateDef
effective_shell_gate run d options = elim (truthy options.shell_gate_cmd) [
  | none ↦ d.shell_gate
  | some cmd ↦
      if is_implementer d.agent && is_first_implementer run d.id
      then some (override_gate options cmd d.shell_gate)
      else d.shell_gate
]
