-- ===== src/Executor/Budget/Reserving.antt =====
-- Reservations charge both budgets, and never past their limits.
use opencode_alg.Base.{
  ℕ, suc, ◌+◌, ◌≤◌, ◌<◌, String, true, false, ◌≡◌, refl, sym, ◌∙◌, ap, some, List, [], ◌∷◌, ◌⊎◌,
  inl, inr, leb, length-append, lookup, modify, All, Elem, ◌==◌, if◌then◌else◌, arith, eq_iff,
  Bool-cases, Option-cases, subst,
}
use opencode_alg.Graph.Order.{IsOrdered, IsOrdered-unique}
use opencode_alg.Run.{NodeDef, NodeState, Nodes, GraphDef, RunState, max_attempts}
use opencode_alg.Executor.Reserve.{
  start_attempt, running_attempt, fail_with, block_with, local_message, global_message,
  reserve_attempt, reserve_batch, last_done,
}
use opencode_alg.Executor.Budget.Ledger.{
  Count, ledger, total, IsAbsent, HasDistinctKeys, IsWithin, IsBudgeted, Keeps,
  HasSameBudget-with_node, IsBudgeted-same,
}

-- One more attempt under the identifier.
abbrev extra : String → String → ℕ
extra id j = if j == id then 1 else 0

abbrev bump : String → List Count → List Count
bump id [] = []
bump id (c ∷ cs) =
    record c { made = c.made + extra id c.id; recorded = c.recorded + extra id c.id } ∷ bump id cs

ledger-start :
    (id : String) (nodes : Nodes) → ledger (modify id start_attempt nodes) ≡ bump id (ledger nodes)
unfolding ledger modify
ledger-start id [] = refl
ledger-start id ((j, s) ∷ nodes) = ground (
  arith,
  ledger-start id nodes,
  length-append s.attempts (running_attempt (s.current_attempt + 1) ∷ []),
)

IsAbsent-bump : (j id : String) (l : List Count) → IsAbsent j l → IsAbsent j (bump id l)
IsAbsent-bump j id [] h = tt
IsAbsent-bump j id (c ∷ cs) (h, hs) = (ground arith, IsAbsent-bump j id cs hs)

HasDistinctKeys-bump :
    (id : String) (l : List Count) → HasDistinctKeys l → HasDistinctKeys (bump id l)
HasDistinctKeys-bump id [] h = tt
HasDistinctKeys-bump id (c ∷ cs) (h, hs) =
    (IsAbsent-bump c.id id cs h, HasDistinctKeys-bump id cs hs)

total-bump_absent : (id : String) (l : List Count) → IsAbsent id l → total (bump id l) ≡ total l
unfolding total
total-bump_absent id [] h = refl
total-bump_absent id (c ∷ cs) (h, hs) =
    ground (arith, total-bump_absent id cs hs, eq_iff id c.id, eq_iff c.id id)

total-bump :
    (id : String) (nodes : Nodes) (s : NodeState)
    → HasDistinctKeys (ledger nodes)
    → lookup id nodes ≡ some s
    → total (bump id (ledger nodes)) ≡ suc (total (ledger nodes))
unfolding ledger lookup total
total-bump id [] s h e = cc
total-bump id ((j, t) ∷ nodes) s (absent, h) e = elim (Bool-cases (j == id)) [
  | inl same ↦
      let here : IsAbsent id (ledger nodes) =
        subst (λ k. IsAbsent k (ledger nodes)) ((eq_iff j id).0 same) absent in
      ground (arith, total-bump_absent id (ledger nodes) here)
  | inr other ↦ ground (arith, total-bump id nodes s h)
]

-- Every entry of the definition's identifier is below its limit.
abbrev HasRoom : NodeDef → List Count → Type 0
HasRoom d l = All (λ c. ((c.id == d.id) ≡ false) ⊎ (c.made < max_attempts d)) l

HasRoom-absent : (d : NodeDef) (l : List Count) → IsAbsent d.id l → HasRoom d l
HasRoom-absent d [] h = tt
HasRoom-absent d (c ∷ cs) (h, hs) =
    (inl (ground (arith, eq_iff d.id c.id, eq_iff c.id d.id)), HasRoom-absent d cs hs)

HasRoom-lookup :
    (d : NodeDef) (nodes : Nodes) (s : NodeState)
    → HasDistinctKeys (ledger nodes)
    → lookup d.id nodes ≡ some s
    → s.current_attempt < max_attempts d
    → HasRoom d (ledger nodes)
unfolding ledger lookup
HasRoom-lookup d [] s h e room = tt
HasRoom-lookup d ((j, t) ∷ nodes) s (absent, h) e room = elim (Bool-cases (j == d.id)) [
  | inl same ↦ (
    inr (ground arith),
    HasRoom-absent d (ledger nodes)
        (subst (λ k. IsAbsent k (ledger nodes)) ((eq_iff j d.id).0 same) absent),
  )
  | inr other ↦ (inl other, HasRoom-lookup d nodes s h (ground arith) room)
]

limits-extra :
    (d : NodeDef) (j : String) (made : ℕ) (defs : List NodeDef)
    → ((e : NodeDef) → Elem e defs → (e.id == d.id) ≡ true → e ≡ d)
    → ((j == d.id) ≡ false) ⊎ (made < max_attempts d)
    → All (λ e. ((e.id == j) ≡ false) ⊎ (made ≤ max_attempts e)) defs
    → All (λ e. ((e.id == j) ≡ false) ⊎ (made + extra d.id j ≤ max_attempts e)) defs
limits-extra d j made [] unique room h = tt
limits-extra d j made (e ∷ defs) unique room (h, hs) = (
  ground (arith, unique e (inl refl), eq_iff e.id j, eq_iff j d.id, eq_iff e.id d.id),
  limits-extra d j made defs (λ x m. unique x (inr m)) room hs,
)

-- The limits hold after a reservation with room.
within-bump :
    (d : NodeDef) (defs : List NodeDef) (l : List Count)
    → ((e : NodeDef) → Elem e defs → (e.id == d.id) ≡ true → e ≡ d)
    → HasRoom d l
    → All (IsWithin defs) l
    → All (IsWithin defs) (bump d.id l)
within-bump d defs [] unique room v = tt
within-bump d defs (c ∷ cs) unique (room, rooms) ((exact, limits), vs) = (
  (omega arith, limits-extra d c.id c.made defs unique room limits),
  within-bump d defs cs unique rooms vs,
)

unique_id :
    (defs : List NodeDef) (d : NodeDef)
    → IsOrdered [] defs
    → Elem d defs
    → (e : NodeDef) → Elem e defs
    → (e.id == d.id) ≡ true
    → e ≡ d
unique_id defs d o m e k same = IsOrdered-unique e d [] defs o k m ((eq_iff e.id d.id).0 same)

Keeps-fail : (message : String) → Keeps (fail_with message)
Keeps-fail message s = (refl, refl)

Keeps-block : (message : String) → Keeps (block_with message)
unfolding last_done
Keeps-block message s = (refl, refl)

-- A reservation that is made.
reserved-IsBudgeted :
    (run : RunState) (d : NodeDef) (s : NodeState)
    → IsOrdered [] run.graph.nodes
    → Elem d run.graph.nodes
    → IsBudgeted run
    → lookup d.id run.nodes ≡ some s
    → s.current_attempt < max_attempts d
    → run.global_attempts < run.graph.max_global_attempts
    → IsBudgeted (record run {
      nodes = modify d.id start_attempt run.nodes;
      global_attempts = run.global_attempts + 1;
    })
reserved-IsBudgeted run d s o m v e room global =
    let started = ledger-start d.id run.nodes in
    let rooms = HasRoom-lookup d run.nodes s v.distinct e room in
    let unique = unique_id run.graph.nodes d o m in
    record {
      distinct =
          subst HasDistinctKeys (sym started)
            (HasDistinctKeys-bump d.id (ledger run.nodes) v.distinct);
      within =
          subst (All (IsWithin run.graph.nodes)) (sym started)
            (within-bump d run.graph.nodes (ledger run.nodes) unique rooms v.within);
      summed = ap total started ∙ omega (arith, total-bump d.id run.nodes s v.distinct e, v.summed);
      capped = omega arith;
    }

-- A reservation keeps the budgets, whether it is made or refused.
pub reserve_attempt-IsBudgeted :
    (run : RunState) (d : NodeDef)
    → IsOrdered [] run.graph.nodes
    → Elem d run.graph.nodes
    → IsBudgeted run
    → IsBudgeted (reserve_attempt run d).0
unfolding reserve_attempt
reserve_attempt-IsBudgeted run d o m v = elim (Option-cases (lookup d.id run.nodes)) [
  | inl e ↦ rw (e, reserve_attempt) v
  | inr (s, e) ↦ elim (Bool-cases (leb (max_attempts d) s.current_attempt)) [
    | inl full ↦
        rw (e, full, reserve_attempt)
          (IsBudgeted-same
            (HasSameBudget-with_node run d.id (fail_with (local_message (max_attempts d)))
              (Keeps-fail (local_message (max_attempts d))))
            v)
    | inr room ↦ elim (Bool-cases (leb run.graph.max_global_attempts run.global_attempts)) [
      | inl spent ↦
          let message = global_message run.graph.max_global_attempts in
          rw (e, room, spent, reserve_attempt)
            (IsBudgeted-same
              (HasSameBudget-with_node run d.id (block_with message) (Keeps-block message)) v)
      | inr left ↦
          rw (e, room, left, reserve_attempt)
            (reserved-IsBudgeted run d s o m v e (ground arith) (ground arith))
    ]
  ]
]

pub graph-reserve_attempt :
    (run : RunState) (d : NodeDef) → (reserve_attempt run d).0.graph ≡ run.graph
unfolding reserve_attempt
graph-reserve_attempt run d = ground arith

-- A batch of reservations among the definitions keeps the budgets and the graph.
pub reserve_batch-IsBudgeted :
    (ds : List NodeDef) (run : RunState)
    → IsOrdered [] run.graph.nodes
    → All (λ d. Elem d run.graph.nodes) ds
    → IsBudgeted run
    → IsBudgeted (reserve_batch run ds).0 × ((reserve_batch run ds).0.graph ≡ run.graph)
unfolding reserve_batch
reserve_batch-IsBudgeted [] run o m v = (v, refl)
reserve_batch-IsBudgeted (d ∷ ds) run o (m, ms) v =
    let run' = (reserve_attempt run d).0 in
    let same : run'.graph ≡ run.graph = graph-reserve_attempt run d in
    let (kept, graph) =
      reserve_batch-IsBudgeted ds run' (subst (λ g. IsOrdered [] g.nodes) (sym same) o)
        (subst (λ (g : GraphDef). All (λ x. Elem x g.nodes) ds) (sym same) ms)
        (reserve_attempt-IsBudgeted run d o m v) in
    (kept, graph ∙ same)
