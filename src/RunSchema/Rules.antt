-- ===== src/RunSchema/Rules.antt =====
-- The loop over the node states and the rules on the run as a whole.
use opencode_alg.Base.{
  ℕ, ◌+◌, String, Bool, true, false, ◌&&◌, ◌||◌, not, Option, none, some, List, [], ◌∷◌, ◌++◌, ltb,
  length, nat_eq, any, lookup, values, ◌==◌, if◌then◌else◌,
}
use opencode_alg.Run.{NodeDef, NodeState, Nodes, OwnerTransfer, RunState}
use opencode_alg.Run.Status.{
  AlgAgent, RunStatus, is_done, is_failed, is_pending, is_terminal, is_checker, is_implementer,
  is_researcher, is_shell,
}
use opencode_alg.Graph.{status_is, set_add}
use opencode_alg.RunSchema.State.{
  StateIssue, keys_differ, missing_state, identity_differs, global_count, run_not_done,
  no_failed_node, failed_not_terminal, not_untouched, actor_differs, self_transfer, broken_chain,
  owner_differs, issue_if, is_absent, Checkers, state_issues,
}

-- `definitions.get(id)`: the last definition of the identifier.
unfoldable pub definition_of : String → List NodeDef → Option NodeDef
definition_of id [] = none
definition_of id (d ∷ ds) = elim (definition_of id ds) [
  | some e ↦ some e
  | none ↦ if d.id == id then some d else none
]

-- The keys of `definitions`, for its size.
unfoldable pub definition_ids : List NodeDef → List String → List String
unfolding set_add
definition_ids [] ids = ids
definition_ids (d ∷ ds) ids = definition_ids ds (set_add d.id ids)

abbrev is_explorer : AlgAgent → Bool
is_explorer AlgAgent.explorer = true
is_explorer _ = false

abbrev pub same_agent : AlgAgent → AlgAgent → Bool
same_agent AlgAgent.explorer b = is_explorer b
same_agent AlgAgent.researcher b = is_researcher b
same_agent AlgAgent.implementer b = is_implementer b
same_agent AlgAgent.checker b = is_checker b
same_agent AlgAgent.shell b = is_shell b

-- The definition of an entry of `run.nodes`, if its identity fits.
unfoldable pub entry_definition : List NodeDef → String → NodeState → Option NodeDef
unfolding definition_of
entry_definition defs id s = elim (definition_of id defs) [
  | none ↦ none
  | some d ↦ if s.id == id && same_agent s.agent d.agent then some d else none
]

-- `attempts`: the sum over the entries whose identity fits.
unfoldable pub counted_attempts : List NodeDef → Nodes → ℕ
unfolding entry_definition
counted_attempts defs [] = 0
counted_attempts defs ((id, s) ∷ nodes) =
    (if is_absent (entry_definition defs id s) then 0 else s.current_attempt)
    + counted_attempts defs nodes

-- Each graph node has a state.
unfoldable pub missing_issues : Nodes → List NodeDef → List StateIssue
missing_issues nodes [] = []
missing_issues nodes (d ∷ ds) =
    issue_if (is_absent (lookup d.id nodes)) missing_state ++ missing_issues nodes ds

-- The loop over the transfers, with the owner that is expected before the first of them.
unfoldable pub owner_issues : (expected owner : String) → List OwnerTransfer → List StateIssue
owner_issues expected owner [] = issue_if (not (owner == expected)) owner_differs
owner_issues expected owner (t ∷ transfers) =
    issue_if (not (t.by_session_id == t.from_session_id)) actor_differs
    ++ (issue_if (t.from_session_id == t.to_session_id) self_transfer
        ++ (issue_if (not (t.from_session_id == expected)) broken_chain
            ++ owner_issues t.to_session_id owner transfers))

abbrev is_planning : RunStatus → Bool
is_planning RunStatus.planning = true
is_planning _ = false

abbrev pub is_done_run : RunStatus → Bool
is_done_run RunStatus.done = true
is_done_run _ = false

abbrev pub is_failed_run : RunStatus → Bool
is_failed_run RunStatus.failed = true
is_failed_run _ = false

-- The rules for the status of the run.
unfoldable pub verdict_issues : RunState → List StateIssue
unfolding status_is values
verdict_issues run =
    issue_if
      (is_done_run run.status
        && any (λ (d : NodeDef). not (status_is is_done run.nodes d.id)) run.graph.nodes)
      run_not_done
    ++ (issue_if
          (is_failed_run run.status
            && not (any (λ (s : NodeState). is_failed s.status) (values run.nodes)))
          no_failed_node
        ++ (issue_if
              (is_failed_run run.status
                && any (λ (s : NodeState). not (is_terminal s.status)) (values run.nodes))
              failed_not_terminal
            ++ issue_if
                (is_planning run.status
                  && (not (nat_eq run.global_attempts 0)
                      || any (λ (s : NodeState). not (is_pending s.status)) (values run.nodes)))
                not_untouched))

module _ (checkers : Checkers) where
  -- What one entry of `run.nodes` reports.
  unfoldable pub entry_issues : RunState → String → NodeState → List StateIssue
  unfolding entry_definition state_issues
  entry_issues run id s = elim (entry_definition run.graph.nodes id s) [
    | none ↦ identity_differs ∷ []
    | some d ↦ state_issues checkers run d s
  ]

  unfoldable pub entries_issues : RunState → Nodes → List StateIssue
  unfolding entry_issues
  entries_issues run [] = []
  entries_issues run ((id, s) ∷ nodes) = entry_issues run id s ++ entries_issues run nodes

  -- `superRefine`, up to the rules on sidecars.
  unfoldable pub run_issues : RunState → List StateIssue
  unfolding definition_ids missing_issues entries_issues counted_attempts verdict_issues
      owner_issues
  run_issues run =
      issue_if (not (nat_eq (length run.nodes) (length (definition_ids run.graph.nodes []))))
        keys_differ
      ++ (missing_issues run.nodes run.graph.nodes
          ++ (entries_issues run run.nodes
              ++ (issue_if
                    (not (nat_eq run.global_attempts (counted_attempts run.graph.nodes run.nodes))
                      || ltb run.graph.max_global_attempts
                          (counted_attempts run.graph.nodes run.nodes))
                    global_count
                  ++ (verdict_issues run
                      ++ owner_issues run.parent_session_id run.owner_session_id
                          run.owner_transfers))))
