-- ===== src/RunSchema/Closing.antt =====
-- What `closeRun` writes, held against the rules on the next write.
use opencode_alg.Base.{
  String, true, false, not, ◌≡◌, ◌≢◌, refl, sym, subst, some, List, [], ◌∷◌, inl, inr, lookup, All,
  Elem, arith, eq_iff, Option-cases, append-eq-nil, any, All_intro, All-Elem, nat_eq, length,
}
use opencode_alg.Run.{NodeDef, NodeState, Nodes, GraphDef, RunState}
use opencode_alg.Run.Status.{is_pending, is_broken, is_done, is_skipped}
use opencode_alg.Graph.{status_is}
use opencode_alg.Graph.Order.{IsOrdered, IsOrdered-unique}
use opencode_alg.Executor.Reserve.{last_done}
use opencode_alg.Executor.Resume.{resume_node, close_node, close_note, close_run, closed}
use opencode_alg.Executor.Reopening.{lookup-close_run, lookup-close_done, graph-close_run}
use opencode_alg.RunSchema.State.{
  issue_if, Checkers, concat-eq-nil, status_parts, state_parts, status_issues, state_issues,
  keys_differ,
}
use opencode_alg.RunSchema.Rules.{
  entry_definition, entry_issues, entries_issues, run_issues, definition_ids, missing_issues,
}
use opencode_alg.RunSchema.Counts.{entry_definition-Elem}

-- A node that is skipped although every dependency is done.
record IsCauseless (nodes : Nodes) (d : NodeDef) (s : NodeState) : Type 0 where
  skipped : is_skipped s.status ≡ true
  done : All (λ dep. status_is is_done nodes dep ≡ true) d.depends_on

no_broken :
    (nodes : Nodes) (deps : List String)
    → All (λ dep. status_is is_done nodes dep ≡ true) deps
    → any (status_is is_broken nodes) deps ≡ false
unfolding status_is
no_broken nodes [] h = refl
no_broken nodes (dep ∷ deps) (h, hs) = ground (arith, no_broken nodes deps hs)

-- A pending node whose last attempt is done is resumed as it is, and then skipped.
close_skips :
    (safe : String → String) (note : List String) (d : NodeDef) (s : NodeState)
    → is_pending s.status ≡ true
    → last_done s ≡ true
    → is_skipped (close_node safe note (resume_node safe d s)).status ≡ true
unfolding close_node resume_node last_done
close_skips safe note d s pending last = ground arith

stays_done :
    (safe : String → String) (run run' : RunState) (reason id : String)
    → close_run safe run reason ≡ closed run'
    → status_is is_done run.nodes id ≡ true
    → status_is is_done run'.nodes id ≡ true
unfolding status_is
stays_done safe run run' reason id h e = elim (Option-cases (lookup id run.nodes)) [
  | inl n ↦ ground (arith, n)
  | inr (s, n) ↦ ground (arith, n, lookup-close_done safe run run' reason id s h n)
]

module _ (checkers : Checkers) where
  state_issues-causeless :
      (run : RunState) (d : NodeDef) (s : NodeState)
      → IsCauseless run.nodes d s
      → state_issues checkers run d s ≢ []
  unfolding state_issues state_parts status_issues status_parts
  state_issues-causeless run d s c h =
      let none_broken = no_broken run.nodes d.depends_on c.done in
      let (_, (_, (_, (_, (_, (_, (statuses, _))))))) =
        concat-eq-nil (state_parts checkers run d s) h in
      let (_, (_, (_, (_, (_, (_, (_, (last, _)))))))) =
        concat-eq-nil (status_parts checkers run d s) statuses in
      let skipped = c.skipped in ground (arith, none_broken, last, skipped)

  entry_issues-causeless :
      (run : RunState) (d : NodeDef) (s : NodeState)
      → IsOrdered [] run.graph.nodes
      → Elem d run.graph.nodes
      → IsCauseless run.nodes d s
      → entry_issues checkers run d.id s ≢ []
  unfolding entry_issues
  entry_issues-causeless run d s o m c h =
      elim (Option-cases (entry_definition run.graph.nodes d.id s)) [
        | inl e ↦ let bad = rw (e, entry_issues) at h in cc
        | inr (x, e) ↦
            let (k, same) = entry_definition-Elem run.graph.nodes d.id s x e in
            let here : x ≡ d = IsOrdered-unique x d [] run.graph.nodes o k m same in
            state_issues-causeless run d s c
              (subst (λ y. state_issues checkers run y s ≡ []) here (rw (e, entry_issues) at h))
      ]

  entries_issues-lookup :
      (run : RunState) (nodes : Nodes) (id : String) (s : NodeState)
      → lookup id nodes ≡ some s
      → entries_issues checkers run nodes ≡ []
      → entry_issues checkers run id s ≡ []
  unfolding entries_issues lookup
  entries_issues-lookup run [] id s h e = cc
  entries_issues-lookup run ((j, t) ∷ nodes) id s h e =
      let (here, rest) = append-eq-nil (entry_issues checkers run j t) _ e in
      ground (arith, eq_iff j id, entries_issues-lookup run nodes id s, here, rest, h)

  entries_of :
      (run : RunState) → run_issues checkers run ≡ [] → entries_issues checkers run run.nodes ≡ []
  unfolding run_issues
  entries_of run h =
      let (_, h1) =
        append-eq-nil
          (issue_if (not (nat_eq (length run.nodes) (length (definition_ids run.graph.nodes []))))
            keys_differ)
          _ h in
      let (_, h2) = append-eq-nil (missing_issues run.nodes run.graph.nodes) _ h1 in
      (append-eq-nil (entries_issues checkers run run.nodes) _ h2).0

  -- Where closeRun succeeds on a run over an ordered graph, a pending node whose last attempt is
  -- done and whose dependencies are done is skipped without a cause, and the rules refuse the
  -- closed run.
  pub close_run-refused :
      (safe : String → String) (run run' : RunState) (reason : String) (d : NodeDef) (s : NodeState)
      → IsOrdered [] run.graph.nodes
      → close_run safe run reason ≡ closed run'
      → Elem d run.graph.nodes
      → lookup d.id run.nodes ≡ some s
      → is_pending s.status ≡ true
      → last_done s ≡ true
      → All (λ dep. status_is is_done run.nodes dep ≡ true) d.depends_on
      → run_issues checkers run' ≢ []
  unfolding run_issues
  close_run-refused safe run run' reason d s o closes m e pending last deps h =
      let after = close_node safe (close_note safe reason) (resume_node safe d s) in
      let looked = lookup-close_run safe run run' reason d s o closes m e in
      let same = graph-close_run safe run run' reason closes in
      let o' : IsOrdered [] run'.graph.nodes = subst (λ g. IsOrdered [] g.nodes) (sym same) o in
      let m' : Elem d run'.graph.nodes = subst (λ (g : GraphDef). Elem d g.nodes) (sym same) m in
      let entries = entries_of run' h in
      let entry = entries_issues-lookup run' run'.nodes d.id after looked entries in
      let causeless : IsCauseless run'.nodes d after = record {
        skipped = close_skips safe (close_note safe reason) d s pending last;
        done = All_intro _ d.depends_on λ dep k.
            stays_done safe run run' reason dep closes (All-Elem _ d.depends_on deps dep k);
      } in
      entry_issues-causeless run' d after o' m' causeless entry
