-- ===== src/Graph.antt =====
-- src/graph.ts: the operations on a run's graph. A function of the source that mutates the run is
-- here a function from the node states to the new ones; the other fields of the run stay.
pub mod Order
pub mod Skip
pub mod Descendants
use opencode_alg.Base.{
  ℕ, zero, suc, String, Bool, true, false, ◌&&◌, ◌||◌, not, Option, none, some, List, [], ◌∷◌, ◌++◌,
  map, ◌==◌, if◌then◌else◌, ◌<>◌, every, any, filter, find, has, lookup, modify, values,
}
use opencode_alg.Run.{NodeDef, NodeState, Nodes, GraphDef, RunState}
use opencode_alg.Run.Status.{NodeStatus, is_waiting, is_broken, is_done, is_failed, is_terminal}

-- A test of `run.nodes[id]?.status`; a node without state passes none.
unfoldable pub status_is : (NodeStatus → Bool) → Nodes → String → Bool
status_is p nodes id = elim (lookup id nodes) [ none ↦ false | some s ↦ p s.status ]

abbrev pub initial_state : NodeDef → NodeState
initial_state d = record {
  id = d.id;
  agent = d.agent;
  status = NodeStatus.pending;
  attempts = [];
  current_attempt = 0;
  output = none;
  last_failures = [];
}

unfoldable pub init_node_states : GraphDef → Nodes
init_node_states graph = map (λ d. (d.id, initial_state d)) graph.nodes

-- The test by which `readyNodes` filters.
unfoldable pub is_ready : Nodes → NodeDef → Bool
unfolding status_is
is_ready nodes d = status_is is_waiting nodes d.id && every (status_is is_done nodes) d.depends_on

unfoldable pub ready_nodes : RunState → List NodeDef
unfolding is_ready
ready_nodes run = filter (is_ready run.nodes) run.graph.nodes

unfoldable pub all_terminal : RunState → Bool
unfolding values
all_terminal run = every (λ s. is_terminal s.status) (values run.nodes)

unfoldable pub any_failed : RunState → Bool
unfolding values
any_failed run = any (λ s. is_failed s.status) (values run.nodes)

abbrev pub dependency_message : String → String
dependency_message dep = "Dependency did not complete: " <> dep

abbrev pub mark_skipped : String → NodeState → NodeState
mark_skipped dep s = record s {
  status = NodeStatus.skipped;
  last_failures = dependency_message dep ∷ [];
}

-- `definition.depends_on.find(…)` in `skipFailedDescendants`.
unfoldable pub broken_dependency : Nodes → NodeDef → Option String
unfolding status_is
broken_dependency nodes d = find (status_is is_broken nodes) d.depends_on

-- One round of its loop: the node states, and `changed`.
unfoldable pub skip_node : NodeDef → Nodes → Bool → Nodes × Bool
unfolding status_is
skip_node d nodes changed =
    if status_is is_waiting nodes d.id
    then elim (broken_dependency nodes d) [
      | none ↦ (nodes, changed)
      | some dep ↦ (modify d.id (mark_skipped dep) nodes, true)
    ]
    else (nodes, changed)

unfoldable pub skip_pass : List NodeDef → Nodes → Bool → Nodes × Bool
unfolding skip_node
skip_pass [] nodes changed = (nodes, changed)
skip_pass (d ∷ ds) nodes changed =
    let (nodes', changed') = skip_node d nodes changed in skip_pass ds nodes' changed'

unfoldable pub skip_failed_descendants : RunState → RunState × Bool
unfolding skip_pass
skip_failed_descendants run =
    let (nodes, changed) = skip_pass run.graph.nodes run.nodes false in
    (record run { nodes = nodes }, changed)

-- `while (skipFailedDescendants(run)) { }`, on fuel; `none` when the fuel runs out.
unfoldable pub skip_all : ℕ → RunState → Option RunState
unfolding skip_failed_descendants
skip_all zero run = none
skip_all (suc fuel) run =
    let (run', changed) = skip_failed_descendants run in
    let again = skip_all fuel run' in if changed then again else some run'

-- `set.add(id)`
unfoldable pub set_add : String → List String → List String
set_add id set = if has id set then set else set ++ id ∷ []

unfoldable pub descend : String → List NodeDef → List String → List String
unfolding set_add
descend target [] descendants = descendants
descend target (d ∷ ds) descendants = descend target ds (
    if any (λ dep. dep == target || has dep descendants) d.depends_on
    then set_add d.id descendants
    else descendants)

unfoldable pub descendants_of : GraphDef → String → List String
unfolding descend
descendants_of graph target = descend target graph.nodes []
