-- ===== src/Graph/Skip.antt =====
-- skipFailedDescendants: one pass over an ordered graph reaches the fixed point of its loop.

use opencode_alg.Base.{
  ℕ, suc, String, Bool, true, false, ◌≡◌, ◌≢◌, refl, ◌∙◌, none, some, List, [], ◌∷◌, ◌⊎◌, inl, inr,
  All, has, lookup, lookup-modify, find, arith, eq_iff, Option-cases, eq_refl,
}
use opencode_alg.Run.{NodeDef, Nodes, RunState}
use opencode_alg.Run.Status.{NodeStatus, is_waiting, is_broken}
use opencode_alg.Graph.{
  status_is, mark_skipped, broken_dependency, skip_node, skip_pass, skip_failed_descendants,
  skip_all,
}
use opencode_alg.Graph.Order.{IsOrdered, has_self, has_cons, ne_of_has}

-- `skip_node` writes only the state of its own node.
pub lookup-skip_node :
    (d : NodeDef) (nodes : Nodes) (c : Bool) (j : String)
    → d.id ≢ j
    → lookup j (skip_node d nodes c).0 ≡ lookup j nodes
unfolding skip_node
lookup-skip_node d nodes c j ne = elim (Option-cases (broken_dependency nodes d)) [
  | inl e ↦ ground arith
  | inr (dep, e) ↦ ground (arith, lookup-modify d.id j (mark_skipped dep) nodes, eq_iff d.id j)
]

-- The definition needs no skip: its node does not wait, or no dependency has failed or been skipped.
abbrev pub IsSettled : Nodes → NodeDef → Type 0
IsSettled nodes d = (status_is is_waiting nodes d.id ≡ false) ⊎ (broken_dependency nodes d ≡ none)

-- Agreement on the seen identifiers.
abbrev Agree : List String → Nodes → Nodes → Type 0
Agree seen a b = (j : String) → has j seen ≡ true → lookup j a ≡ lookup j b

pub lookup-skip_pass :
    (ds : List NodeDef) (seen : List String) (nodes : Nodes) (c : Bool)
    → IsOrdered seen ds
    → Agree seen (skip_pass ds nodes c).0 nodes
unfolding skip_pass
lookup-skip_pass [] seen nodes c o j h = refl
lookup-skip_pass (d ∷ ds) seen nodes c (new, old, o) j h =
    let (nodes', c') = skip_node d nodes c in
    lookup-skip_pass ds (d.id ∷ seen) nodes' c' o j (has_cons j d.id seen h)
    ∙ lookup-skip_node d nodes c j (ne_of_has d.id j seen new h)

skip_node-IsSettled : (d : NodeDef) (nodes : Nodes) (c : Bool) → IsSettled (skip_node d nodes c).0 d
unfolding skip_node
skip_node-IsSettled d nodes c = elim (Option-cases (broken_dependency nodes d)) [
  | inl e ↦ ground arith
  | inr (dep, e) ↦ ground (arith, lookup-modify d.id d.id (mark_skipped dep) nodes, eq_refl d.id)
]

-- A test of the status reads the state under the identifier only.
status_is-eq :
    (p : NodeStatus → Bool) (a b : Nodes) (j : String)
    → lookup j a ≡ lookup j b
    → status_is p a j ≡ status_is p b j
unfolding status_is
status_is-eq p a b j e = ground arith

find-status_is :
    (a b : Nodes) (seen deps : List String)
    → Agree seen a b
    → All (λ dep. has dep seen ≡ true) deps
    → find (status_is is_broken a) deps ≡ find (status_is is_broken b) deps
find-status_is a b seen [] same old = refl
find-status_is a b seen (dep ∷ deps) same (h, old) =
    rw (status_is-eq is_broken a b dep (same dep h), find-status_is a b seen deps same old)

IsSettled-Agree :
    (a b : Nodes) (seen : List String) (d : NodeDef)
    → Agree seen a b
    → has d.id seen ≡ true
    → All (λ dep. has dep seen ≡ true) d.depends_on
    → IsSettled b d
    → IsSettled a d
unfolding broken_dependency
IsSettled-Agree a b seen d same here old settled = ground (
  arith,
  status_is-eq is_waiting a b d.id (same d.id here),
  find-status_is a b seen d.depends_on same old,
)

All-has_cons :
    (id : String) (seen deps : List String)
    → All (λ dep. has dep seen ≡ true) deps
    → All (λ dep. has dep (id ∷ seen) ≡ true) deps
All-has_cons id seen [] h = tt
All-has_cons id seen (dep ∷ deps) (h, hs) = (has_cons dep id seen h, All-has_cons id seen deps hs)

-- After one pass no definition of an ordered graph is left to skip.
pub skip_pass-IsSettled :
    (ds : List NodeDef) (seen : List String) (nodes : Nodes) (c : Bool)
    → IsOrdered seen ds
    → All (IsSettled (skip_pass ds nodes c).0) ds
unfolding skip_pass
skip_pass-IsSettled [] seen nodes c o = tt
skip_pass-IsSettled (d ∷ ds) seen nodes c (new, old, o) =
    let (nodes', c') = skip_node d nodes c in
    (
      IsSettled-Agree (skip_pass ds nodes' c').0 nodes' (d.id ∷ seen) d
          (lookup-skip_pass ds (d.id ∷ seen) nodes' c' o) (has_self d.id seen)
          (All-has_cons d.id seen d.depends_on old) (skip_node-IsSettled d nodes c),
      skip_pass-IsSettled ds (d.id ∷ seen) nodes' c' o,
    )

-- With nothing to skip a pass changes nothing and reports so.
pub skip_pass_settled :
    (ds : List NodeDef) (nodes : Nodes) (c : Bool)
    → All (IsSettled nodes) ds
    → skip_pass ds nodes c ≡ (nodes, c)
unfolding skip_pass skip_node
skip_pass_settled [] nodes c h = refl
skip_pass_settled (d ∷ ds) nodes c (inl w, hs) = rw (w, skip_pass_settled ds nodes c hs)
skip_pass_settled (d ∷ ds) nodes c (inr e, hs) = ground (arith, skip_pass_settled ds nodes c hs)

-- On a topologically ordered graph one call of skipFailedDescendants does all the work of the
-- loop around it: the loop ends after at most one more call, its result is that of the first
-- call, and no waiting node keeps a failed or skipped dependency.
pub skip_all_once :
    (run : RunState) (fuel : ℕ)
    → IsOrdered [] run.graph.nodes
    → (skip_all (suc (suc fuel)) run ≡ some (skip_failed_descendants run).0)
      × All (IsSettled (skip_failed_descendants run).0.nodes) run.graph.nodes
unfolding skip_all skip_failed_descendants
skip_all_once run fuel o =
    let (nodes, changed) = skip_pass run.graph.nodes run.nodes false in
    let settled = skip_pass-IsSettled run.graph.nodes [] run.nodes false o in
    (ground (arith, skip_pass_settled run.graph.nodes nodes false settled), settled)
