-- ===== src/Executor/Limits.antt =====
-- `finishGlobalLimit`, and the fixed point of skipFailedDescendants that it and the loop run.
use opencode_alg.Base.{◌+◌, String, none, some, List, [], ◌∷◌, ltb, length, modify, if◌then◌else◌}
use opencode_alg.Graph.{is_ready, skip_all}
use opencode_alg.Run.{NodeDef, Nodes, RunState}
use opencode_alg.Executor.Reserve.{block_with, global_message, last_done}

-- `while (skipFailedDescendants(run)) { }`. Each call but the last marks a node, so that there are
-- at most as many calls as nodes and one more.
unfoldable pub skip_until_settled : RunState → RunState
unfolding skip_all
skip_until_settled run = elim (skip_all (length run.graph.nodes + 2) run) [
  | none ↦ run
  | some run' ↦ run'
]

-- The loop over the definitions; its test is that of readyNodes.
unfoldable pub block_ready : String → List NodeDef → Nodes → Nodes
unfolding is_ready last_done
block_ready message [] nodes = nodes
block_ready message (d ∷ ds) nodes =
    block_ready message ds
      (if is_ready nodes d then modify d.id (block_with message) nodes else nodes)

unfoldable pub finish_global_limit : RunState → RunState
unfolding block_ready skip_until_settled
finish_global_limit run =
    if ltb run.global_attempts run.graph.max_global_attempts
    then run
    else skip_until_settled (record run {
      nodes = block_ready (global_message run.graph.max_global_attempts) run.graph.nodes run.nodes;
    })
