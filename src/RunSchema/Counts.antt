-- ===== src/RunSchema/Counts.antt =====
-- A state that the rules accept has exact attempt counts within the limits.
use opencode_alg.Base.{
  ◌≤◌, String, false, ◌||◌, not, ◌≡◌, refl, sym, ◌∙◌, subst, some, List, [], ◌∷◌, inl, inr, length,
  nat_eq, ltb, All, All_intro, Elem, ◌==◌, arith, eq_iff, Bool-cases, Option-cases, append-eq-nil,
}
use opencode_alg.Run.{NodeDef, NodeState, Nodes, RunState, max_attempts}
use opencode_alg.Graph.Order.{IsOrdered, IsOrdered-unique}
use opencode_alg.Executor.Budget.{ledger, total, HasDistinctKeys, IsWithin, IsBudgeted}
use opencode_alg.RunSchema.State.{
  issue_if, is_absent, Checkers, concat-eq-nil, state_parts, state_issues, keys_differ,
  global_count,
}
use opencode_alg.RunSchema.Rules.{
  definition_of, entry_definition, counted_attempts, entry_issues, entries_issues, run_issues,
  missing_issues, definition_ids,
}

-- The definition that is found is one of the list, with the identifier.
definition_of-Elem :
    (id : String) (defs : List NodeDef) (d : NodeDef)
    → definition_of id defs ≡ some d
    → Elem d defs × (d.id ≡ id)
unfolding definition_of
definition_of-Elem id [] d h = cc
definition_of-Elem id (e ∷ defs) d h = elim (Option-cases (definition_of id defs)) [
  | inl n ↦ ground (arith, n, eq_iff e.id id)
  | inr (x, n) ↦ ground (arith, n, definition_of-Elem id defs x n)
]

pub entry_definition-Elem :
    (defs : List NodeDef) (id : String) (s : NodeState) (d : NodeDef)
    → entry_definition defs id s ≡ some d
    → Elem d defs × (d.id ≡ id)
unfolding entry_definition
entry_definition-Elem defs id s d h = elim (Option-cases (definition_of id defs)) [
  | inl n ↦ ground (arith, n)
  | inr (x, n) ↦ ground (arith, n, definition_of-Elem id defs x n)
]

module _ (checkers : Checkers) where
  state_issues-exact :
      (run : RunState) (d : NodeDef) (s : NodeState)
      → state_issues checkers run d s ≡ []
      → (s.current_attempt ≡ length s.attempts) × (s.current_attempt ≤ max_attempts d)
  unfolding state_issues state_parts
  state_issues-exact run d s h =
      let (count, (limit, _)) = concat-eq-nil (state_parts checkers run d s) h in
      (ground arith, ground arith)

  entry_issues-IsWithin :
      (run : RunState) (id : String) (s : NodeState)
      → IsOrdered [] run.graph.nodes
      → entry_issues checkers run id s ≡ []
      → (is_absent (entry_definition run.graph.nodes id s) ≡ false)
        × IsWithin run.graph.nodes
            (record { id = id; made = s.current_attempt; recorded = length s.attempts })
  unfolding entry_issues
  entry_issues-IsWithin run id s o h = elim (Option-cases (entry_definition run.graph.nodes id s)) [
    | inl e ↦ let bad = rw (e, entry_issues) at h in cc
    | inr (d, e) ↦
        let (exact, limit) = state_issues-exact run d s (rw (e, entry_issues) at h) in
        let (m, same) = entry_definition-Elem run.graph.nodes id s d e in
        (
          ground arith,
          (
            sym exact,
            All_intro _ run.graph.nodes λ x k. elim (Bool-cases (x.id == id)) [
              | inl hit ↦ inr (
                  subst (λ (y : NodeDef). s.current_attempt ≤ max_attempts y)
                    (IsOrdered-unique d x [] run.graph.nodes o m k
                      (same ∙ sym ((eq_iff x.id id).0 hit)))
                    limit)
              | inr other ↦ inl other
            ],
          ),
        )
  ]

  counted_attempts-total :
      (run : RunState) (nodes : Nodes)
      → IsOrdered [] run.graph.nodes
      → entries_issues checkers run nodes ≡ []
      → (counted_attempts run.graph.nodes nodes ≡ total (ledger nodes))
        × All (IsWithin run.graph.nodes) (ledger nodes)
  unfolding entries_issues counted_attempts total ledger
  counted_attempts-total run [] o h = (refl, tt)
  counted_attempts-total run ((id, s) ∷ nodes) o h =
      let (here, rest) = append-eq-nil (entry_issues checkers run id s) _ h in
      let (found, within) = entry_issues-IsWithin run id s o here in
      let (sum, all) = counted_attempts-total run nodes o rest in
      (ground (arith, found, sum), (within, all))

  -- A run over an ordered graph, with distinct keys, on which the rules report nothing keeps its
  -- budgets: the counts agree with the attempts on record, no node is past its own limit, and the
  -- run's counter is their sum and within the limit of the graph.
  pub run_issues-IsBudgeted :
      (run : RunState)
      → IsOrdered [] run.graph.nodes
      → HasDistinctKeys (ledger run.nodes)
      → run_issues checkers run ≡ []
      → IsBudgeted run
  unfolding run_issues
  run_issues-IsBudgeted run o distinct h =
      let (_, h1) =
        append-eq-nil
          (issue_if (not (nat_eq (length run.nodes) (length (definition_ids run.graph.nodes []))))
            keys_differ)
          _ h in
      let (_, h2) = append-eq-nil (missing_issues run.nodes run.graph.nodes) _ h1 in
      let (entries, h3) = append-eq-nil (entries_issues checkers run run.nodes) _ h2 in
      let (count, _) =
        append-eq-nil
          (issue_if
            (not (nat_eq run.global_attempts (counted_attempts run.graph.nodes run.nodes))
              || ltb run.graph.max_global_attempts (counted_attempts run.graph.nodes run.nodes))
            global_count)
          _ h3 in
      let (sum, within) = counted_attempts-total run run.nodes o entries in
      record {
        distinct = distinct;
        within = within;
        summed = ground (arith, sum, count);
        capped = ground (arith, sum, count);
      }
