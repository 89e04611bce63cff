-- ===== src/GraphSchema/References.antt =====
-- What an accepted graph guarantees of its inputs, gates and feedback routes.
use opencode_alg.Base.{
  append-eq-nil, ℕ, suc, String, true, false, ◌≡◌, refl, sym, ◌||◌, Option, none, some, List, [],
  ◌∷◌, ◌++◌, ◌⊎◌, inl, inr, every, has, lookup, All, Elem, ◌==◌, if◌then◌else◌, arith, eq_iff,
  Bool-cases, Option-cases, subst, All-Elem, All_intro,
}
use opencode_alg.Run.Values.{Json}
use opencode_alg.Run.{NodeDef, GraphDef, gate}
use opencode_alg.Run.Status.{is_checker, is_shell, is_shell_gate}
use opencode_alg.Graph.{set_add}
use opencode_alg.Graph.Descendants.{Descends, child, later, has-set_add}
use opencode_alg.GraphSchema.Inputs.{reference, parse_input_expression, is_safe_part}
use opencode_alg.GraphSchema.Refine.{
  set_add_all, get_set, dependency_verdict, DependencyVerdict, duplicate, unknown, late, earlier,
  dep_seen_after, direct_after, dependency_loop, role_issues, reference_issues, input_issues,
  inputs_issues, inputs_of, is_none, unsafe_path, id_issues, node_issues, refine_graph,
}

has-set_add_all :
    (r : String) (ids set : List String) → has r (set_add_all ids set) ≡ (has r set || has r ids)
unfolding set_add_all has
has-set_add_all r [] set = ground arith
has-set_add_all r (id ∷ ids) set =
    ground (arith, has-set_add_all r ids (set_add id set), has-set_add r id set)

-- The members of `ancestors.get(id)` are ancestors of `id`.
abbrev IsSound : List NodeDef → List (String × List String) → Type 0
IsSound nodes ancestors =
    (id r : String) → has r (get_set id ancestors) ≡ true → Descends nodes r id

module _ (nodes : List NodeDef) (d : NodeDef) (m : Elem d nodes) (i : ℕ)
    (ancestors : List (String × List String)) (sound : IsSound nodes ancestors) where
  direct_after-Descends :
      (v : DependencyVerdict) (dep : String) (direct : List String)
      → Elem dep d.depends_on
      → ((r : String) → has r direct ≡ true → Descends nodes r d.id)
      → (r : String) → has r (direct_after nodes i ancestors v dep direct) ≡ true
      → Descends nodes r d.id
  direct_after-Descends duplicate dep direct k h r e = h r e
  direct_after-Descends unknown dep direct k h r e = h r e
  direct_after-Descends late dep direct k h r e = h r e
  direct_after-Descends earlier dep direct k h r e =
      let known = get_set dep ancestors in
      let parts : (has r direct || dep == r || has r known) ≡ true =
        ground (arith, has-set_add_all r known (set_add dep direct), has-set_add r dep direct) in
      elim (Bool-cases (has r direct)) [
        | inl old ↦ h r old
        | inr new ↦ elim (Bool-cases (dep == r)) [
          | inl same ↦ child d refl m (subst (λ x. Elem x d.depends_on) ((eq_iff dep r).0 same) k)
          | inr other ↦ later d refl m k (sound dep r (ground arith))
        ]
      ]

  dependency_loop-Descends :
      (dep_seen direct deps : List String)
      → ((dep : String) → Elem dep deps → Elem dep d.depends_on)
      → ((r : String) → has r direct ≡ true → Descends nodes r d.id)
      → (r : String) → has r (dependency_loop nodes i ancestors dep_seen direct deps).1 ≡ true
      → Descends nodes r d.id
  unfolding dependency_loop
  dependency_loop-Descends dep_seen direct [] within h = h
  dependency_loop-Descends dep_seen direct (dep ∷ deps) within h =
      let verdict = dependency_verdict nodes i dep_seen dep in
      dependency_loop-Descends (dep_seen_after verdict dep dep_seen)
        (direct_after nodes i ancestors verdict dep direct) deps (λ j k. within j (inr k))
        (direct_after-Descends verdict dep direct (within dep (inl refl)) h)

-- What the checks of one node tell once they report nothing.
record NodeFact (json_parse : String → Option Json) (nodes : List NodeDef) (d : NodeDef)
    : Type 0 where
  place : ℕ
  direct : List String
  roles : role_issues place d ≡ []
  inputs : inputs_issues json_parse nodes place direct (inputs_of d) ≡ []
  ancestors : (r : String) → has r direct ≡ true → Descends nodes r d.id

get_set-cons :
    (id j : String) (direct : List String) (ancestors : List (String × List String))
    → get_set j ((id, direct) ∷ ancestors) ≡ (if id == j then direct else get_set j ancestors)
unfolding lookup
get_set-cons id j direct ancestors = ground arith

IsSound-cons :
    (nodes : List NodeDef) (ancestors : List (String × List String)) (id : String)
    (direct : List String)
    → IsSound nodes ancestors
    → ((r : String) → has r direct ≡ true → Descends nodes r id)
    → IsSound nodes ((id, direct) ∷ ancestors)
IsSound-cons nodes ancestors id direct sound h j r e = elim (Bool-cases (id == j)) [
  | inl same ↦
      subst (Descends nodes r) ((eq_iff id j).0 same)
        (h r (ground (arith, get_set-cons id j direct ancestors)))
  | inr other ↦ sound j r (ground (arith, get_set-cons id j direct ancestors))
]

node_issues-NodeFact :
    (json_parse : String → Option Json) (nodes ds : List NodeDef) (i : ℕ)
    (ancestors : List (String × List String))
    → ((d : NodeDef) → Elem d ds → Elem d nodes)
    → IsSound nodes ancestors
    → node_issues json_parse nodes i ancestors ds ≡ []
    → All (NodeFact json_parse nodes) ds
unfolding node_issues has
node_issues-NodeFact json_parse nodes [] i ancestors within sound h = tt
node_issues-NodeFact json_parse nodes (d ∷ ds) i ancestors within sound h =
    let (issues, direct) = dependency_loop nodes i ancestors [] [] d.depends_on in
    let (_, others) = append-eq-nil issues _ h in
    let (roles, others') = append-eq-nil (role_issues i d) _ others in
    let (inputs, rest) =
      append-eq-nil (inputs_issues json_parse nodes i direct (inputs_of d)) _ others' in
    let below =
      dependency_loop-Descends nodes d (within d (inl refl)) i ancestors sound [] [] d.depends_on
        (λ j k. k) (λ r e. cc) in
    (
      record { place = i; direct = direct; roles = roles; inputs = inputs; ancestors = below },
      node_issues-NodeFact json_parse nodes ds (suc i) ((d.id, direct) ∷ ancestors)
          (λ e m. within e (inr m)) (IsSound-cons nodes ancestors d.id direct sound below) rest,
    )

refine_graph-NodeFact :
    (json_parse : String → Option Json) (serialized_bytes : GraphDef → ℕ) (g : GraphDef)
    → refine_graph json_parse serialized_bytes g ≡ []
    → All (NodeFact json_parse g.nodes) g.nodes
unfolding refine_graph lookup has
refine_graph-NodeFact json_parse serialized_bytes g h =
    let (_, rest) = append-eq-nil (id_issues 0 [] g.nodes) _ h in
    let (clean, _) = append-eq-nil (node_issues json_parse g.nodes 0 [] g.nodes) _ rest in
    node_issues-NodeFact json_parse g.nodes g.nodes 0 [] (λ d m. m) (λ id r e. cc) clean

-- A node's feedback route, gate and agent fit together.
pub record IsWellRouted (d : NodeDef) : Type 0 where
  pub gated : (is_shell_gate (gate d) ≡ false) ⊎ (is_none d.shell_gate ≡ false)
  pub shell_agent : (is_shell d.agent ≡ false) ⊎ (is_none d.shell_gate ≡ false)
  pub isolated : (d.isolated_check ≡ false) ⊎ (is_checker d.agent ≡ true)
  pub feedback :
      (d.feedback_to ≡ none)
      ⊎ ((target : String) × (d.feedback_to ≡ some target)
          × (has target d.depends_on ≡ true)
          × (is_checker d.agent ≡ true))

role_issues-IsWellRouted : (i : ℕ) (d : NodeDef) → role_issues i d ≡ [] → IsWellRouted d
unfolding role_issues
role_issues-IsWellRouted i d h = record {
  gated = ground arith;
  shell_agent = ground arith;
  isolated = ground arith;
  feedback = elim (Option-cases d.feedback_to) [
    | inl e ↦ inl e
    | inr (target, e) ↦ inr (target, e, ground arith, ground arith)
  ];
}

-- In an accepted graph every node with a shell gate or the shell agent has a gate command, only
-- checkers ask for isolation, and feedback goes from a checker to one of its direct dependencies.
pub refine_graph-IsWellRouted :
    (json_parse : String → Option Json) (serialized_bytes : GraphDef → ℕ) (g : GraphDef)
    → refine_graph json_parse serialized_bytes g ≡ []
    → All IsWellRouted g.nodes
refine_graph-IsWellRouted json_parse serialized_bytes g h = All_intro IsWellRouted g.nodes λ d m.
    let fact = All-Elem _ g.nodes (refine_graph-NodeFact json_parse serialized_bytes g h) d m in
    role_issues-IsWellRouted fact.place d fact.roles

inputs_issues-Elem :
    (json_parse : String → Option Json) (nodes : List NodeDef) (i : ℕ) (direct : List String)
    (inputs : List (String × String)) (key expr : String)
    → inputs_issues json_parse nodes i direct inputs ≡ []
    → Elem (key, expr) inputs
    → input_issues json_parse nodes i direct key expr ≡ []
unfolding inputs_issues
inputs_issues-Elem json_parse nodes i direct [] key expr h m = absurd m
inputs_issues-Elem json_parse nodes i direct ((k, e) ∷ inputs) key expr h (inl same) =
    let (own, _) = append-eq-nil (input_issues json_parse nodes i direct k e) _ h in
    subst (λ (p : String × String). input_issues json_parse nodes i direct p.0 p.1 ≡ []) (sym same)
      own
inputs_issues-Elem json_parse nodes i direct ((k, e) ∷ inputs) key expr h (inr m) =
    let (_, rest) = append-eq-nil (input_issues json_parse nodes i direct k e) _ h in
    inputs_issues-Elem json_parse nodes i direct inputs key expr rest m

reference_issues-nil :
    (json_parse : String → Option Json) (nodes : List NodeDef) (i : ℕ) (direct : List String)
    (key ref : String)
    → reference_issues json_parse nodes i direct key ref ≡ []
    → has ref direct ≡ true
unfolding reference_issues
reference_issues-nil json_parse nodes i direct key ref h = ground arith

input_issues-reference :
    (json_parse : String → Option Json) (nodes : List NodeDef) (i : ℕ) (direct : List String)
    (key expr node : String) (path : List String)
    → input_issues json_parse nodes i direct key expr ≡ []
    → parse_input_expression json_parse expr ≡ reference node path
    → (every is_safe_part path ≡ true) × (has node direct ≡ true)
unfolding input_issues
input_issues-reference json_parse nodes i direct key expr node path h e =
    let h' : ((if every is_safe_part path then [] else unsafe_path i key ∷ [])
          ++ reference_issues json_parse nodes i direct key node)
        ≡ [] =
      rw (e, input_issues) at h in
    let (safe, found) =
      append-eq-nil (if every is_safe_part path then [] else unsafe_path i key ∷ []) _ h' in
    (ground arith, reference_issues-nil json_parse nodes i direct key node found)

-- In an accepted graph an input that refers to a node's output refers to a node on which this one
-- depends, directly or through others, and every part of its field path is safe to follow.
pub refine_graph-reference :
    (json_parse : String → Option Json) (serialized_bytes : GraphDef → ℕ) (g : GraphDef)
    (d : NodeDef) (key expr node : String) (path : List String)
    → refine_graph json_parse serialized_bytes g ≡ []
    → Elem d g.nodes
    → Elem (key, expr) (inputs_of d)
    → parse_input_expression json_parse expr ≡ reference node path
    → Descends g.nodes node d.id × (every is_safe_part path ≡ true)
refine_graph-reference json_parse serialized_bytes g d key expr node path h m k e =
    let fact = All-Elem _ g.nodes (refine_graph-NodeFact json_parse serialized_bytes g h) d m in
    let clean =
      inputs_issues-Elem json_parse g.nodes fact.place fact.direct (inputs_of d) key expr
        fact.inputs k in
    let (safe, found) =
      input_issues-reference json_parse g.nodes fact.place fact.direct key expr node path clean e in
    (fact.ancestors node found, safe)
