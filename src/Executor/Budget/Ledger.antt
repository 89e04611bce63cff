-- ===== src/Executor/Budget/Ledger.antt =====
-- The counts of a run's nodes: for each identifier its attempt counter and the attempts on record.
use opencode_alg.Base.{
  ℕ, ◌+◌, ◌≤◌, String, false, ◌≡◌, refl, sym, ◌∙◌, ap, List, [], ◌∷◌, ◌⊎◌, length, modify, All,
  ◌==◌, arith, subst,
}
use opencode_alg.Executor.Reserve.{with_node}
use opencode_alg.Run.{NodeDef, NodeState, Nodes, GraphDef, RunState, max_attempts}

pub record Count : Type 0 where
  pub id : String
  pub made : ℕ
  pub recorded : ℕ

abbrev pub count_of : String → NodeState → Count
count_of id s = record { id = id; made = s.current_attempt; recorded = length s.attempts }

unfoldable pub ledger : Nodes → List Count
ledger [] = []
ledger ((id, s) ∷ nodes) = count_of id s ∷ ledger nodes

unfoldable pub total : List Count → ℕ
total [] = 0
total (c ∷ cs) = c.made + total cs

-- The identifier has no entry in the ledger.
abbrev pub IsAbsent : String → List Count → Type 0
IsAbsent id [] = Unit
IsAbsent id (c ∷ cs) = ((id == c.id) ≡ false) × IsAbsent id cs

abbrev pub HasDistinctKeys : List Count → Type 0
HasDistinctKeys [] = Unit
HasDistinctKeys (c ∷ cs) = IsAbsent c.id cs × HasDistinctKeys cs

-- An entry within the limit of every definition of its identifier.
abbrev pub IsWithin : List NodeDef → Count → Type 0
IsWithin defs c =
    (c.recorded ≡ c.made) × All (λ d. ((d.id == c.id) ≡ false) ⊎ (c.made ≤ max_attempts d)) defs

-- The counts agree with the records, no node has passed its own limit, and the run's counter is
-- the sum of the nodes' and within the limit of the graph.
pub record IsBudgeted (run : RunState) : Type 0 where
  pub distinct : HasDistinctKeys (ledger run.nodes)
  pub within : All (IsWithin run.graph.nodes) (ledger run.nodes)
  pub summed : total (ledger run.nodes) ≡ run.global_attempts
  pub capped : run.global_attempts ≤ run.graph.max_global_attempts

-- An assignment that touches neither count.
abbrev pub Keeps : (NodeState → NodeState) → Type 0
Keeps f =
    (s : NodeState)
    → ((f s).current_attempt ≡ s.current_attempt) × (length (f s).attempts ≡ length s.attempts)

pub ledger-modify :
    (id : String) (f : NodeState → NodeState) (nodes : Nodes)
    → Keeps f
    → ledger (modify id f nodes) ≡ ledger nodes
unfolding ledger modify
ledger-modify id f [] keeps = refl
ledger-modify id f ((j, s) ∷ nodes) keeps = ground (arith, keeps s, ledger-modify id f nodes keeps)

-- Two runs with the same graph, counter and counts.
pub record HasSameBudget (a b : RunState) : Type 0 where
  pub graph : b.graph ≡ a.graph
  pub attempts : b.global_attempts ≡ a.global_attempts
  pub counts : ledger b.nodes ≡ ledger a.nodes

pub HasSameBudget-refl : (a : RunState) → HasSameBudget a a
HasSameBudget-refl a = record { graph = refl; attempts = refl; counts = refl }

pub HasSameBudget-trans :
    {a b c : RunState} → HasSameBudget a b → HasSameBudget b c → HasSameBudget a c
HasSameBudget-trans p q = record {
  graph = q.graph ∙ p.graph;
  attempts = q.attempts ∙ p.attempts;
  counts = q.counts ∙ p.counts;
}

pub IsBudgeted-same : {a b : RunState} → HasSameBudget a b → IsBudgeted a → IsBudgeted b
IsBudgeted-same {a} {b} p v = record {
  distinct = subst HasDistinctKeys (sym p.counts) v.distinct;
  within =
      subst (λ g. All (IsWithin g) (ledger b.nodes)) (sym (ap (λ (g : GraphDef). g.nodes) p.graph))
        (subst (All (IsWithin a.graph.nodes)) (sym p.counts) v.within);
  summed = ap total p.counts ∙ (v.summed ∙ sym p.attempts);
  capped = ground (arith, v.capped, p.graph, p.attempts);
}

pub HasSameBudget-with_node :
    (run : RunState) (id : String) (f : NodeState → NodeState)
    → Keeps f
    → HasSameBudget run (with_node run id f)
HasSameBudget-with_node run id f keeps = record {
  graph = refl;
  attempts = refl;
  counts = ledger-modify id f run.nodes keeps;
}
