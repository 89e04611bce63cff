-- ===== src/Executor/Reopening.antt =====
-- What `prepareRunForResume` and `closeRun` do to each node of a run over an ordered graph.
use opencode_alg.Base.{
  String, Bool, true, false, ◌||◌, ◌≡◌, refl, sym, ◌∙◌, subst, none, some, List, [], ◌∷◌, inl, inr,
  lookup, has, lookup-modify, modify, Elem, if_ind, arith, eq_iff, eq_refl, Option-cases,
}
use opencode_alg.Run.{GraphDef, NodeDef, NodeState, Nodes, RunState}
use opencode_alg.Run.Status.{is_done}
use opencode_alg.Graph.Order.{IsOrdered, has_self, has_cons, ne_of_has, Elem-unseen}
use opencode_alg.Executor.Resume.{
  resume_node, resume_loop, reopens, prepare_run_for_resume, close_node, close_loop, close_note,
  close_run, closed,
}

-- An assignment to the state of each definition's node, in their order.
update_all : (NodeDef → NodeState → NodeState) → List NodeDef → Nodes → Nodes
update_all f [] nodes = nodes
update_all f (d ∷ ds) nodes = update_all f ds (modify d.id (f d) nodes)

lookup-update_seen :
    (f : NodeDef → NodeState → NodeState) (ds : List NodeDef) (seen : List String) (nodes : Nodes)
    (id : String)
    → IsOrdered seen ds
    → has id seen ≡ true
    → lookup id (update_all f ds nodes) ≡ lookup id nodes
unfolding update_all
lookup-update_seen f [] seen nodes id o h = refl
lookup-update_seen f (d ∷ ds) seen nodes id (new, old, o) h =
    lookup-update_seen f ds (d.id ∷ seen) (modify d.id (f d) nodes) id o (has_cons id d.id seen h)
    ∙ ground
        (arith, lookup-modify d.id id (f d) nodes, eq_iff d.id id, ne_of_has d.id id seen new h)

-- On an ordered graph each definition's node is assigned once.
lookup-update_all :
    (f : NodeDef → NodeState → NodeState) (ds : List NodeDef) (seen : List String) (nodes : Nodes)
    (d : NodeDef) (s : NodeState)
    → IsOrdered seen ds
    → Elem d ds
    → lookup d.id nodes ≡ some s
    → lookup d.id (update_all f ds nodes) ≡ some (f d s)
unfolding update_all
lookup-update_all f [] seen nodes d s o m h = absurd m
lookup-update_all f (e ∷ ds) seen nodes d s (new, old, o) (inl same) h =
    let here : lookup e.id nodes ≡ some s =
      subst (λ (x : NodeDef). lookup x.id nodes ≡ some s) same h in
    subst (λ (x : NodeDef). lookup x.id (update_all f ds (modify e.id (f e) nodes)) ≡ some (f x s))
      (sym same)
      (lookup-update_seen f ds (e.id ∷ seen) (modify e.id (f e) nodes) e.id o (has_self e.id seen)
        ∙ ground (arith, lookup-modify e.id e.id (f e) nodes, eq_refl e.id, here))
lookup-update_all f (e ∷ ds) seen nodes d s (new, old, o) (inr m) h =
    lookup-update_all f ds (e.id ∷ seen) (modify e.id (f e) nodes) d s o m (
      ground (
        arith,
        lookup-modify e.id d.id (f e) nodes,
        eq_iff e.id d.id,
        ne_of_has d.id e.id (e.id ∷ seen) (Elem-unseen d (e.id ∷ seen) ds o m) (has_self e.id seen),
        h,
      ))

-- A state that every assignment leaves alone stays.
lookup-update_fixed :
    (f : NodeDef → NodeState → NodeState) (ds : List NodeDef) (nodes : Nodes) (id : String)
    (s : NodeState)
    → ((d : NodeDef) → f d s ≡ s)
    → lookup id nodes ≡ some s
    → lookup id (update_all f ds nodes) ≡ some s
unfolding update_all
lookup-update_fixed f [] nodes id s fixed h = h
lookup-update_fixed f (d ∷ ds) nodes id s fixed h =
    lookup-update_fixed f ds (modify d.id (f d) nodes) id s fixed
      (ground (arith, lookup-modify d.id id (f d) nodes, fixed d))

modify_absent :
    (id : String) (f : NodeState → NodeState) (nodes : Nodes)
    → lookup id nodes ≡ none
    → modify id f nodes ≡ nodes
unfolding lookup modify
modify_absent id f [] h = refl
modify_absent id f ((j, s) ∷ nodes) h = ground (arith, modify_absent id f nodes)

module _ (safe : String → String) where
  resume_loop-update :
      (ds : List NodeDef) (nodes : Nodes) (c : Bool)
      → (resume_loop safe ds nodes c).0 ≡ update_all (resume_node safe) ds nodes
  unfolding resume_loop update_all
  resume_loop-update [] nodes c = refl
  resume_loop-update (d ∷ ds) nodes c = elim (Option-cases (lookup d.id nodes)) [
    | inl e ↦
        rw (e, resume_loop, modify_absent d.id (resume_node safe d) nodes e)
          (resume_loop-update ds nodes c)
    | inr (s, e) ↦
        rw (e, resume_loop)
          (resume_loop-update ds (modify d.id (resume_node safe d) nodes) (c || reopens safe d s))
  ]

  close_loop-update :
      (note : List String) (ds : List NodeDef) (nodes : Nodes)
      → close_loop safe note ds nodes ≡ update_all (λ d. close_node safe note) ds nodes
  unfolding close_loop update_all
  close_loop-update note [] nodes = refl
  close_loop-update note (d ∷ ds) nodes =
      close_loop-update note ds (modify d.id (close_node safe note) nodes)

  nodes-prepare_run :
      (run : RunState)
      → (prepare_run_for_resume safe run).nodes
        ≡ update_all (resume_node safe) run.graph.nodes run.nodes
  unfolding prepare_run_for_resume
  nodes-prepare_run run =
      if_ind (λ (r : RunState). r.nodes ≡ update_all (resume_node safe) run.graph.nodes run.nodes)
        (resume_loop safe run.graph.nodes run.nodes false).1
        (λ _. resume_loop-update run.graph.nodes run.nodes false)
        (λ _. resume_loop-update run.graph.nodes run.nodes false)

  graph-prepare_run : (run : RunState) → (prepare_run_for_resume safe run).graph ≡ run.graph
  unfolding prepare_run_for_resume
  graph-prepare_run run = ground arith

  -- On an ordered graph prepareRunForResume gives each node the state that resume_node finds for
  -- the node's definition and old state.
  pub lookup-prepare_run :
      (run : RunState) (d : NodeDef) (s : NodeState)
      → IsOrdered [] run.graph.nodes
      → Elem d run.graph.nodes
      → lookup d.id run.nodes ≡ some s
      → lookup d.id (prepare_run_for_resume safe run).nodes ≡ some (resume_node safe d s)
  lookup-prepare_run run d s o m h =
      rw (nodes-prepare_run run)
        (lookup-update_all (resume_node safe) run.graph.nodes [] run.nodes d s o m h)

  -- Where closeRun succeeds on an ordered graph, each node has the state that close_node makes of
  -- the resumed one.
  pub lookup-close_run :
      (run run' : RunState) (reason : String) (d : NodeDef) (s : NodeState)
      → IsOrdered [] run.graph.nodes
      → close_run safe run reason ≡ closed run'
      → Elem d run.graph.nodes
      → lookup d.id run.nodes ≡ some s
      → lookup d.id run'.nodes
        ≡ some (close_node safe (close_note safe reason) (resume_node safe d s))
  unfolding close_run
  lookup-close_run run run' reason d s o h m e =
      let prepared = prepare_run_for_resume safe run in
      let nodes = close_loop safe (close_note safe reason) prepared.graph.nodes prepared.nodes in
      let same : nodes ≡ run'.nodes = ground (arith, h) in
      let looked : lookup d.id nodes
          ≡ some (close_node safe (close_note safe reason) (resume_node safe d s)) =
        rw (close_loop-update (close_note safe reason) prepared.graph.nodes prepared.nodes) (
          lookup-update_all (λ x. close_node safe (close_note safe reason)) prepared.graph.nodes []
            prepared.nodes d (resume_node safe d s)
            (subst (λ g. IsOrdered [] g.nodes) (sym (graph-prepare_run run)) o)
            (subst (λ (g : GraphDef). Elem d g.nodes) (sym (graph-prepare_run run)) m)
            (lookup-prepare_run run d s o m e)) in
      subst
        (λ ns.
          lookup d.id ns ≡ some (close_node safe (close_note safe reason) (resume_node safe d s)))
        same looked

  resume_done : (d : NodeDef) (s : NodeState) → is_done s.status ≡ true → resume_node safe d s ≡ s
  unfolding resume_node
  resume_done d s h = ground arith

  close_done :
      (note : List String) (s : NodeState) → is_done s.status ≡ true → close_node safe note s ≡ s
  unfolding close_node
  close_done note s h = ground arith

  -- Where closeRun succeeds, a node that was done is as it was.
  pub lookup-close_done :
      (run run' : RunState) (reason id : String) (s : NodeState)
      → close_run safe run reason ≡ closed run'
      → lookup id run.nodes ≡ some s
      → is_done s.status ≡ true
      → lookup id run'.nodes ≡ some s
  unfolding close_run
  lookup-close_done run run' reason id s h e done =
      let prepared = prepare_run_for_resume safe run in
      let note = close_note safe reason in
      let nodes = close_loop safe note prepared.graph.nodes prepared.nodes in
      let same : nodes ≡ run'.nodes = ground (arith, h) in
      let kept : lookup id prepared.nodes ≡ some s = rw (nodes-prepare_run run) (
        lookup-update_fixed (resume_node safe) run.graph.nodes run.nodes id s
          (λ d. resume_done d s done) e) in
      let looked : lookup id nodes ≡ some s =
        rw (close_loop-update note prepared.graph.nodes prepared.nodes) (
          lookup-update_fixed (λ x. close_node safe note) prepared.graph.nodes prepared.nodes id s
            (λ d. close_done note s done) kept) in
      subst (λ ns. lookup id ns ≡ some s) same looked

  pub graph-close_run :
      (run run' : RunState) (reason : String)
      → close_run safe run reason ≡ closed run'
      → run'.graph ≡ run.graph
  unfolding close_run
  graph-close_run run run' reason h =
      let prepared = prepare_run_for_resume safe run in
      let same : prepared.graph ≡ run'.graph = ground (arith, h) in sym same ∙ graph-prepare_run run
