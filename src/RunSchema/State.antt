-- ===== src/RunSchema/State.antt =====
-- The rules on one attempt, on one node and on the whole run. The references to sidecars and the
-- times are left out: every attempt stands in its node. Texts of a state are not measured here.
use opencode_alg.Base.{
  ℕ, ◌+◌, String, Bool, true, false, ◌&&◌, ◌||◌, not, Option, none, some, List, [], ◌∷◌, ◌++◌,
  append-eq-nil, All, ◌≡◌, ltb, length, nat_eq, last?, any, codes, ◌==◌, ◌<>◌, if◌then◌else◌,
}
use opencode_alg.Run.{NodeDef, NodeAttempt, NodeState, Nodes, RunState, max_attempts, gate}
use opencode_alg.Run.Values.{Json, str, member}
use opencode_alg.Run.Status.{
  AlgAgent, NodeStatus, AttemptOutcome, is_done, is_failed, is_skipped, is_running, is_broken,
  is_checker, is_implementer, is_dry,
}
use opencode_alg.Graph.{status_is}
use opencode_alg.Executor.Checks.{is_true, no_failures}
use opencode_alg.Executor.Record.{said_ok, is_false, shell_required, number_of}

-- One constructor for each message.
pub data StateIssue : Type 0 where
  keys_differ missing_state identity_differs attempt_count local_limit : StateIssue
  attempt_refused not_contiguous attempt_status output_invalid foreign_artifact : StateIssue
  output_unverified running_not_last no_verdict done_unsuccessful incomplete_implementer :
      StateIssue
  rejected_checker no_shell_verdict passed_not_done schema_verdict not_a_rejection : StateIssue
  no_failures_recorded score_differs score_without_checker node_output_invalid : StateIssue
  output_not_latest running_without_attempt attempt_still_running done_without_output : StateIssue
  dependency_not_done failed_without_attempt no_reason failures_of_done : StateIssue
  skipped_without_cause global_count run_not_done no_failed_node failed_not_terminal : StateIssue
  not_untouched actor_differs self_transfer broken_chain owner_differs : StateIssue

unfoldable pub concat : List (List StateIssue) → List StateIssue
concat [] = []
concat (issues ∷ rest) = issues ++ concat rest

-- Where nothing is reported, no part reports anything.
pub concat-eq-nil :
    (parts : List (List StateIssue)) → concat parts ≡ [] → All (λ part. part ≡ []) parts
unfolding concat
concat-eq-nil [] h = tt
concat-eq-nil (part ∷ parts) h =
    let (here, rest) = append-eq-nil part (concat parts) h in (here, concat-eq-nil parts rest)

-- `if (condition) ctx.addIssue(…)`
abbrev pub issue_if : Bool → StateIssue → List StateIssue
issue_if condition issue = if condition then issue ∷ [] else []

abbrev pub is_absent {ℓ} : {A : Type ℓ} → Option A → Bool
is_absent none = true
is_absent (some _) = false

abbrev is_failed_verdict : Option Bool → Bool
is_failed_verdict (some b) = not b
is_failed_verdict none = false

abbrev same_score : Option ℕ → Option ℕ → Bool
same_score none none = true
same_score (some a) (some b) = nat_eq a b
same_score _ _ = false

-- A field of an output; an output that is absent has none.
unfoldable pub output_field : String → Option Json → Option Json
unfolding member
output_field key none = none
output_field key (some output) = member key output

abbrev is_outcome : (AttemptOutcome → Bool) → Option AttemptOutcome → Bool
is_outcome p none = false
is_outcome p (some outcome) = p outcome

abbrev was_passed : AttemptOutcome → Bool
was_passed AttemptOutcome.passed = true
was_passed _ = false

abbrev was_invalid : AttemptOutcome → Bool
was_invalid AttemptOutcome.schema_invalid = true
was_invalid _ = false

abbrev was_rejected : AttemptOutcome → Bool
was_rejected AttemptOutcome.substantive_rejection = true
was_rejected _ = false

-- A text is true unless it is empty.
abbrev is_error : Option String → Bool
is_error none = false
is_error (some message) = not (message == "")

-- `value.startsWith(prefix)`, on the characters.
unfoldable pub starts_with : List ℕ → List ℕ → Bool
starts_with [] cs = true
starts_with (p ∷ ps) [] = false
starts_with (p ∷ ps) (c ∷ cs) = nat_eq p c && starts_with ps cs

abbrev is_foreign : String → Option Json → Bool
unfolding starts_with
is_foreign run_id (some (str path)) =
    not (starts_with (codes (".opencode/runs/" <> (run_id <> "/artifacts/"))) (codes path))
is_foreign run_id _ = false

-- Whether an implementer's output names an artifact of another run.
unfoldable pub names_foreign_artifact : String → NodeDef → Option Json → Bool
unfolding starts_with output_field
names_foreign_artifact run_id d output =
    is_implementer d.agent && is_foreign run_id (output_field "artifact_path" output)

-- What the rules take from elsewhere: the schemas of the roles' outputs, the comparison
-- `isDeepStrictEqual`, and `parsePersistedNodeAttempt` on an attempt that is expected at a position.
pub record Checkers : Type 0 where
  pub output_ok : AlgAgent → Json → Bool
  pub deep_equal : Json → Json → Bool
  pub attempt_ok : NodeDef → (position : ℕ) → NodeAttempt → Bool

-- `for (const dependency of def.depends_on)` of a done node.
unfoldable pub dependency_issues : Nodes → List String → List StateIssue
unfolding status_is
dependency_issues nodes [] = []
dependency_issues nodes (dep ∷ deps) =
    issue_if (not (status_is is_done nodes dep)) dependency_not_done ++ dependency_issues nodes deps

module _ (checkers : Checkers) where
  open checkers use {output_ok, deep_equal, attempt_ok}

  abbrev is_refused : AlgAgent → Option Json → Bool
  is_refused agent none = false
  is_refused agent (some output) = not (output_ok agent output)

  -- The rules for a done attempt.
  unfoldable pub done_issues : RunState → NodeDef → NodeAttempt → List StateIssue
  unfolding concat output_field gate
  done_issues run d a = concat (
      issue_if
        (not (said_ok a.schema_ok)
          || is_absent a.output
          || not (no_failures a.failures)
          || is_error a.error)
        done_unsuccessful
      ∷ issue_if
          (is_implementer d.agent
            && not (is_absent a.output)
            && not (is_true (output_field "done" a.output)))
          incomplete_implementer
      ∷ issue_if
          (is_checker d.agent
            && not (is_absent a.output)
            && not (is_true (output_field "passed" a.output)))
          rejected_checker
      ∷ issue_if (shell_required d && not (is_dry run.mode) && not (said_ok a.shell_ok))
          no_shell_verdict
      ∷ [])

  -- The rules that follow for an attempt of any status.
  unfoldable pub outcome_issues : NodeDef → NodeAttempt → List StateIssue
  unfolding concat output_field
  outcome_issues d a = concat (
      issue_if (is_outcome was_passed a.outcome && not (is_done a.status)) passed_not_done
      ∷ issue_if (is_outcome was_invalid a.outcome && not (is_failed_verdict a.schema_ok))
          schema_verdict
      ∷ issue_if
          (is_outcome was_rejected a.outcome
            && (not (is_checker d.agent)
                || not (said_ok a.schema_ok)
                || (not (is_absent a.output) && not (is_false (output_field "passed" a.output)))))
          not_a_rejection
      ∷ issue_if (is_failed a.status && no_failures a.failures) no_failures_recorded
      ∷ (if is_checker d.agent && not (is_absent a.output)
          then issue_if (not (same_score a.score (number_of (output_field "score" a.output))))
              score_differs
          else issue_if (not (is_absent a.score)) score_without_checker)
      ∷ [])

  -- The body of `state.attempts.forEach`, for the attempt at position `i` of `count`.
  unfoldable pub attempt_issues : RunState → NodeDef → (count i : ℕ) → NodeAttempt → List StateIssue
  unfolding concat names_foreign_artifact done_issues outcome_issues
  attempt_issues run d count i a = concat (
      issue_if (not (attempt_ok d (i + 1) a)) attempt_refused
      ∷ issue_if (not (nat_eq a.attempt (i + 1))) not_contiguous
      ∷ issue_if (not (is_running a.status || is_done a.status || is_failed a.status))
          attempt_status
      ∷ issue_if (is_refused d.agent a.output) output_invalid
      ∷ issue_if (names_foreign_artifact run.run_id d a.output) foreign_artifact
      ∷ issue_if (not (is_absent a.output) && not (said_ok a.schema_ok)) output_unverified
      ∷ issue_if
          (is_running a.status
            && (not (nat_eq (i + 1) count)
                || not (no_failures a.failures)
                || not (is_absent a.output)
                || not (is_absent a.schema_ok)))
          running_not_last
      ∷ issue_if (not (is_running a.status) && is_absent a.schema_ok) no_verdict
      ∷ (if is_done a.status then done_issues run d a else [])
      ∷ outcome_issues d a
      ∷ [])

  unfoldable pub history_issues :
      RunState → NodeDef → (count i : ℕ) → List NodeAttempt → List StateIssue
  unfolding attempt_issues
  history_issues run d count i [] = []
  history_issues run d count i (a ∷ attempts) =
      attempt_issues run d count i a ++ history_issues run d count (i + 1) attempts

  -- The output of the latest attempt that has one.
  unfoldable pub latest_output : List NodeAttempt → Option Json
  latest_output [] = none
  latest_output (a ∷ attempts) = elim (latest_output attempts) [
    | some output ↦ some output
    | none ↦ a.output
  ]

  abbrev outputs_differ : Option Json → Option Json → Bool
  outputs_differ none latest = false
  outputs_differ (some output) none = true
  outputs_differ (some output) (some latest) = not (deep_equal output latest)

  abbrev last_is : (NodeStatus → Bool) → List NodeAttempt → Bool
  last_is p attempts = elim (last? attempts) [ none ↦ false | some a ↦ p a.status ]

  abbrev last_output : List NodeAttempt → Option Json
  last_output attempts = elim (last? attempts) [ none ↦ none | some a ↦ a.output ]

  -- The rules for the status of a node.
  unfoldable pub status_parts : RunState → NodeDef → NodeState → List (List StateIssue)
  unfolding status_is dependency_issues
  status_parts run d s =
      issue_if (is_running s.status && not (last_is is_running s.attempts)) running_without_attempt
      ∷ issue_if (not (is_running s.status) && last_is is_running s.attempts) attempt_still_running
      ∷ issue_if
          (is_done s.status
            && (not (last_is is_done s.attempts)
                || is_absent s.output
                || outputs_differ s.output (last_output s.attempts)))
          done_without_output
      ∷ (if is_done s.status then dependency_issues run.nodes d.depends_on else [])
      ∷ issue_if
          (is_failed s.status
            && not (is_absent (last? s.attempts))
            && not (last_is is_failed s.attempts))
          failed_without_attempt
      ∷ issue_if (is_broken s.status && no_failures s.last_failures) no_reason
      ∷ issue_if (is_done s.status && not (no_failures s.last_failures)) failures_of_done
      ∷ issue_if (is_skipped s.status && not (any (status_is is_broken run.nodes) d.depends_on))
          skipped_without_cause
      ∷ []

  unfoldable pub status_issues : RunState → NodeDef → NodeState → List StateIssue
  unfolding concat status_parts
  status_issues run d s = concat (status_parts run d s)

  -- The body of the loop over `Object.entries(run.nodes)`, for a state whose definition was found.
  unfoldable pub state_parts : RunState → NodeDef → NodeState → List (List StateIssue)
  unfolding history_issues latest_output status_issues names_foreign_artifact max_attempts
  state_parts run d s =
      issue_if (not (nat_eq s.current_attempt (length s.attempts))) attempt_count
      ∷ issue_if (ltb (max_attempts d) s.current_attempt) local_limit
      ∷ history_issues run d (length s.attempts) 0 s.attempts
      ∷ issue_if (is_refused d.agent s.output) node_output_invalid
      ∷ issue_if (names_foreign_artifact run.run_id d s.output) foreign_artifact
      ∷ issue_if (outputs_differ s.output (latest_output s.attempts)) output_not_latest
      ∷ status_issues run d s
      ∷ []

  unfoldable pub state_issues : RunState → NodeDef → NodeState → List StateIssue
  unfolding concat state_parts
  state_issues run d s = concat (state_parts run d s)
