-- ===== src/GraphSchema/Sound.antt =====
-- What an accepted graph satisfies.
use opencode_alg.Base.{
  append-eq-nil, ℕ, suc, ◌+◌, ◌≤◌, ◌<◌, String, true, false, ◌≡◌, refl, ◌∙◌, ap, ◌||◌, Option, some,
  List, [], ◌∷◌, ◌++◌, inl, inr, length, has, All, arith, Bool-cases, Option-cases, map,
  length-append,
}
use mathlib.Core.List.{append_assoc}
use opencode_alg.Run.Values.{Json}
use opencode_alg.Run.{NodeDef, GraphDef}
use opencode_alg.Graph.Order.{IsOrdered}
use opencode_alg.GraphSchema.Refine.{
  index_of, id_issues, dependency_verdict, DependencyVerdict, verdict_issues, dep_seen_after,
  direct_after, role_issues, inputs_issues, inputs_of, duplicate, unknown, late, earlier,
  dependency_loop, node_issues, refine_graph,
}

abbrev ids_of : List NodeDef → List String
ids_of ds = map (λ (d : NodeDef). d.id) ds

index_of-ge : (id : String) (k j : ℕ) (ds : List NodeDef) → index_of id k ds ≡ some j → k ≤ j
unfolding index_of
index_of-ge id k j [] h = cc
index_of-ge id k j (d ∷ ds) h = ground (arith, index_of-ge id (suc k) j ds)

-- An identifier with a position in the first part stands there.
index_of-has :
    (id : String) (k j : ℕ) (before after : List NodeDef)
    → index_of id k (before ++ after) ≡ some j
    → j < k + length before
    → has id (ids_of before) ≡ true
unfolding index_of has
index_of-has id k j [] after h lt = absurd (omega (arith, index_of-ge id k j after h))
index_of-has id k j (d ∷ before) after h lt = ground (arith, index_of-has id (suc k) j before after)

dependency_verdict-earlier :
    (nodes : List NodeDef) (i : ℕ) (dep_seen : List String) (dep : String)
    → dependency_verdict nodes i dep_seen dep ≡ earlier
    → (j : ℕ) × (index_of dep 0 nodes ≡ some j) × (j < i)
unfolding dependency_verdict
dependency_verdict-earlier nodes i dep_seen dep h = elim (Option-cases (index_of dep 0 nodes)) [
  | inl e ↦ absurd (ground arith)
  | inr (j, e) ↦ (j, e, ground arith)
]

verdict_issues-nil :
    (i : ℕ) (dep : String) (v : DependencyVerdict) → verdict_issues i dep v ≡ [] → v ≡ earlier
verdict_issues-nil i dep duplicate h = cc
verdict_issues-nil i dep unknown h = cc
verdict_issues-nil i dep late h = cc
verdict_issues-nil i dep earlier h = refl

-- A loop over `depends_on` with no issue has seen every dependency among the earlier definitions.
pub dependency_loop-has :
    (before after : List NodeDef) (i : ℕ) (ancestors : List (String × List String))
    (dep_seen direct deps : List String)
    → i ≡ length before
    → (dependency_loop (before ++ after) i ancestors dep_seen direct deps).0 ≡ []
    → All (λ dep. has dep (ids_of before) ≡ true) deps
unfolding dependency_loop
dependency_loop-has before after i ancestors dep_seen direct [] e h = tt
dependency_loop-has before after i ancestors dep_seen direct (dep ∷ deps) e h =
    let nodes = before ++ after in
    let verdict = dependency_verdict nodes i dep_seen dep in
    let (own, rest) = append-eq-nil (verdict_issues i dep verdict) _ h in
    let (j, found, lt) =
      dependency_verdict-earlier nodes i dep_seen dep (verdict_issues-nil i dep verdict own) in
    (
      index_of-has dep 0 j before after found (omega arith),
      dependency_loop-has before after i ancestors (dep_seen_after verdict dep dep_seen)
          (direct_after nodes i ancestors verdict dep direct) deps e rest,
    )

-- With no duplicate issue each identifier is new.
abbrev IsFresh : List String → List NodeDef → Type 0
IsFresh seen [] = Unit
IsFresh seen (d ∷ ds) = (has d.id seen ≡ false) × IsFresh (d.id ∷ seen) ds

id_issues-IsFresh :
    (i : ℕ) (seen : List String) (ds : List NodeDef) → id_issues i seen ds ≡ [] → IsFresh seen ds
unfolding id_issues
id_issues-IsFresh i seen [] h = tt
id_issues-IsFresh i seen (d ∷ ds) h = elim (Bool-cases (has d.id seen)) [
  | inl e ↦ absurd (cc (rw e at h))
  | inr e ↦ (e, id_issues-IsFresh (suc i) (d.id ∷ seen) ds (rw e at h))
]

has-append : (id : String) (xs ys : List String) → has id (xs ++ ys) ≡ (has id xs || has id ys)
unfolding has
has-append id [] ys = refl
has-append id (x ∷ xs) ys = ground (arith, has-append id xs ys)

ids_of-append : (a b : List NodeDef) → ids_of (a ++ b) ≡ ids_of a ++ ids_of b
ids_of-append [] b = refl
ids_of-append (d ∷ a) b = ap (λ r. d.id ∷ r) (ids_of-append a b)

-- `seen` holds the identifiers of the definitions before, in any order.
abbrev Same : List String → List NodeDef → Type 0
Same seen before = (id : String) → has id seen ≡ has id (ids_of before)

Same-snoc :
    (seen : List String) (before : List NodeDef) (d : NodeDef)
    → Same seen before
    → Same (d.id ∷ seen) (before ++ d ∷ [])
unfolding has
Same-snoc seen before d same id =
    ground
      (arith, same id, ids_of-append before (d ∷ []), has-append id (ids_of before) (d.id ∷ []))

All-has-Same :
    (seen : List String) (before : List NodeDef) (deps : List String)
    → Same seen before
    → All (λ dep. has dep (ids_of before) ≡ true) deps
    → All (λ dep. has dep seen ≡ true) deps
All-has-Same seen before [] same h = tt
All-has-Same seen before (dep ∷ deps) same (h, hs) =
    (same dep ∙ h, All-has-Same seen before deps same hs)

pub length-snoc :
    (before : List NodeDef) (d : NodeDef) → length (before ++ d ∷ []) ≡ suc (length before)
length-snoc before d = omega (arith, length-append before (d ∷ []))

node_issues-IsOrdered :
    (json_parse : String → Option Json) (before ds : List NodeDef) (i : ℕ)
    (ancestors : List (String × List String)) (seen : List String)
    → i ≡ length before
    → Same seen before
    → IsFresh seen ds
    → node_issues json_parse (before ++ ds) i ancestors ds ≡ []
    → IsOrdered seen ds
unfolding node_issues
node_issues-IsOrdered json_parse before [] i ancestors seen e same fresh h = tt
node_issues-IsOrdered json_parse before (d ∷ ds) i ancestors seen e same (new, fresh) h =
    let nodes = before ++ d ∷ ds in
    let (issues, direct) = dependency_loop nodes i ancestors [] [] d.depends_on in
    let (own, others) = append-eq-nil issues _ h in
    let (_, others') = append-eq-nil (role_issues i d) _ others in
    let (_, rest) =
      append-eq-nil (inputs_issues json_parse nodes i direct (inputs_of d)) _ others' in
    let regroup : (before ++ d ∷ []) ++ ds ≡ nodes = append_assoc before (d ∷ []) ds in
    (
      new,
      All-has-Same seen before d.depends_on same
          (dependency_loop-has before (d ∷ ds) i ancestors [] [] d.depends_on e own),
      node_issues-IsOrdered json_parse (before ++ d ∷ []) ds (suc i) ((d.id, direct) ∷ ancestors)
          (d.id ∷ seen) (omega (arith, length-snoc before d)) (Same-snoc seen before d same) fresh
          (rw regroup rest),
    )

-- A graph on which superRefine reports no issue has distinct identifiers, and each node depends
-- only on nodes that stand before it.
pub refine_graph-IsOrdered :
    (json_parse : String → Option Json) (serialized_bytes : GraphDef → ℕ) (g : GraphDef)
    → refine_graph json_parse serialized_bytes g ≡ []
    → IsOrdered [] g.nodes
unfolding refine_graph
refine_graph-IsOrdered json_parse serialized_bytes g h =
    let (fresh, rest) = append-eq-nil (id_issues 0 [] g.nodes) _ h in
    let (clean, _) = append-eq-nil (node_issues json_parse g.nodes 0 [] g.nodes) _ rest in
    node_issues-IsOrdered json_parse [] g.nodes 0 [] [] refl (λ id. refl)
      (id_issues-IsFresh 0 [] g.nodes fresh) clean
