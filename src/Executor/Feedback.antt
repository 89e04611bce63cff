-- ===== src/Executor/Feedback.antt =====
-- `applyCheckerFeedback`: a rejection reopens the target of the feedback and what depends on it.
use opencode_alg.Base.{
  ℕ, suc, ◌-◌, String, Bool, true, false, ◌&&◌, ◌||◌, not, Option, none, some, List, [], ◌∷◌, ltb,
  leb, length, last?, map_last, any, find, has, lookup, modify, ◌==◌, if◌then◌else◌,
}
use opencode_alg.Diagnostics.{bound_diagnostic_list}
use opencode_alg.Graph.{descendants_of}
use opencode_alg.Run.{NodeDef, NodeAttempt, NodeState, Nodes, RunState, max_attempts}
use opencode_alg.Run.Values.{member}
use opencode_alg.Run.Status.{NodeStatus, is_failed, is_checker}
use opencode_alg.Executor.Reserve.{with_node}
use opencode_alg.Executor.Record.{is_false, is_rejection}

-- `substantive`: a recorded rejection, or one of a state from before outcomes were recorded.
unfoldable pub is_substantive : NodeAttempt → Bool
unfolding member
is_substantive a = elim a.outcome [
  | some o ↦ is_rejection o
  | none ↦ elim a.schema_ok [
    | some true ↦ elim a.output [ some output ↦ is_false (member "passed" output) | none ↦ false ]
    | _ ↦ false
  ]
]

-- The attempts made under an identifier; a node without state has made none.
unfoldable pub attempts_of : Nodes → String → ℕ
attempts_of nodes id = elim (lookup id nodes) [ none ↦ 0 | some s ↦ s.current_attempt ]

-- `run.nodes[node.id]!.current_attempt >= (node.loop?.max_attempts ?? 1)`
unfoldable pub is_exhausted : Nodes → NodeDef → Bool
unfolding attempts_of max_attempts
is_exhausted nodes d = leb (max_attempts d) (attempts_of nodes d.id)

abbrev pub applied : NodeAttempt → NodeAttempt
applied a = record a { feedback_applied = true }

abbrev pub mark_applied : NodeState → NodeState
mark_applied s = record s { attempts = map_last applied s.attempts }

abbrev pub reopen_node : NodeState → NodeState
reopen_node s = record s { status = NodeStatus.pending }

-- The loop over `invalidated`.
unfoldable pub reopen : List NodeDef → List String → Nodes → Nodes
unfolding is_exhausted
reopen defs [] nodes = nodes
reopen defs (id ∷ ids) nodes = reopen defs ids (elim (find (λ (e : NodeDef). e.id == id) defs) [
  | none ↦ nodes
  | some e ↦ if is_exhausted nodes e then nodes else modify id reopen_node nodes
])

-- What one round of the loop does: nothing, a note that there is no room, or the routing.
pub data Routing : Type 0 where
  passed_over : Routing
  no_room routed : RunState → Routing

-- The disjunction of the four tests: no budget is left for another round.
unfoldable pub lacks_room : RunState → NodeDef → NodeDef → List String → Bool
unfolding is_exhausted
lacks_room run checker target invalidated =
    any (λ d. has d.id invalidated && is_exhausted run.nodes d) run.graph.nodes
    || is_exhausted run.nodes checker
    || is_exhausted run.nodes target
    || ltb (run.graph.max_global_attempts - run.global_attempts) (suc (length invalidated))

-- `!last || last.feedback_applied`, and the tests before and after it.
abbrev pub wants_routing : NodeState → Bool
unfolding is_substantive
wants_routing s = elim (last? s.attempts) [
  | none ↦ false
  | some a ↦ is_failed s.status && not a.feedback_applied && is_substantive a
]

-- The failures and the target of a rejection that is not yet routed.
unfoldable pub feedback_request : RunState → NodeDef → Option (List String × NodeDef)
unfolding is_substantive
feedback_request run checker = elim checker.feedback_to [
  | none ↦ none
  | some to ↦ elim (lookup checker.id run.nodes) [
    | none ↦ none
    | some state ↦
        if is_checker checker.agent && wants_routing state
        then elim (find (λ (e : NodeDef). e.id == to) run.graph.nodes) [
          | none ↦ none
          | some target ↦ some (state.last_failures, target)
        ]
        else none
  ]
]

module _ (safe : String → String) where
  abbrev pub reopen_target : List String → NodeState → NodeState
  reopen_target failures s = record s {
    status = NodeStatus.pending;
    last_failures = bound_diagnostic_list safe failures [];
  }

  unfoldable pub route : RunState → NodeDef → NodeDef → List String → RunState
  unfolding reopen
  route run checker target failures =
      let noted = modify checker.id mark_applied run.nodes in
      let reopened = modify target.id (reopen_target failures) noted in
      record run { nodes = reopen run.graph.nodes (descendants_of run.graph target.id) reopened }

  unfoldable pub routing : RunState → NodeDef → Routing
  unfolding feedback_request lacks_room route
  routing run checker = elim (feedback_request run checker) [
    | none ↦ passed_over
    | some (failures, target) ↦
        if lacks_room run checker target (descendants_of run.graph target.id)
        then no_room (with_node run checker.id mark_applied)
        else routed (route run checker target failures)
  ]

  -- How the loop goes on: with the rest of its rounds, or by returning.
  abbrev pub after_routing : (RunState → RunState × Bool) → RunState → Routing → RunState × Bool
  after_routing rest run passed_over = rest run
  after_routing rest run (no_room run') = rest run'
  after_routing rest run (routed run') = (run', true)

  unfoldable pub feedback_loop : List NodeDef → RunState → RunState × Bool
  unfolding routing
  feedback_loop [] run = (run, false)
  feedback_loop (c ∷ cs) run = after_routing (feedback_loop cs) run (routing run c)

  -- The run, and whether feedback was routed.
  unfoldable pub apply_checker_feedback : RunState → RunState × Bool
  unfolding feedback_loop
  apply_checker_feedback run = feedback_loop run.graph.nodes run
