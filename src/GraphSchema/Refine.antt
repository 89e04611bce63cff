-- ===== src/GraphSchema/Refine.antt =====
-- The checks of `GraphDefSchema` in the order in which the source makes them.
use text.Mathlib.Text.{starts_with}
use opencode_alg.Base.{
  ℕ, suc, ◌+◌, ◌*◌, String, Bool, true, false, ◌&&◌, ◌||◌, not, Option, none, some, List, [], ◌∷◌,
  ◌++◌, ltb, leb, nat_eq, length, every, has, lookup, codes, is_digit, is_letter, ◌==◌,
  if◌then◌else◌,
}
use opencode_alg.Run.{NodeLoop, ShellGateDef, NodeDef, GraphDef, max_attempts, gate}
use opencode_alg.Run.Values.{Json}
use opencode_alg.Run.Status.{is_checker, is_shell, is_shell_gate}
use opencode_alg.Graph.{set_add}
use opencode_alg.Paths.SafeId.{is_safe_id}
use opencode_alg.GraphSchema.Inputs.{
  special, literal, reference, parse_input_expression, is_safe_part,
}

-- What the schema reports, with the place of the node and the texts of the message.
pub data Issue : Type 0 where
  shape : Issue
  duplicate_node_id : ℕ → String → Issue
  duplicate_dependency unknown_dependency late_dependency : ℕ → String → Issue
  gate_requires_shell shell_agent_requires_gate isolated_check_for_checker : ℕ → Issue
  feedback_for_checker feedback_to_dependency : ℕ → Issue
  unsafe_path unknown_special unknown_reference not_earlier_dependency : ℕ → String → Issue
  too_large : ℕ → Issue

-- The graph as it is submitted: two numbers have defaults.
pub record RawGraph : Type 0 where
  pub name : String
  pub description : Option String
  pub nodes : List NodeDef
  pub max_global_attempts : Option ℕ
  pub max_concurrency : Option ℕ

-- `number.min(lo).max(hi)`
abbrev pub within : ℕ → ℕ → ℕ → Bool
within lo hi n = leb lo n && leb n hi

abbrev optional {ℓ} : {A : Type ℓ} → (A → Bool) → Option A → Bool
optional p none = true
optional p (some a) = p a

-- The length in UTF-16 units.
abbrev units_length : List ℕ → ℕ
units_length [] = 0
units_length (c ∷ cs) = (if ltb c 65_536 then 1 else 2) + units_length cs

abbrev is_key_char : ℕ → Bool
is_key_char c = is_letter c || is_digit c || nat_eq c b'_' || nat_eq c b'-'

-- The pattern of `safeInputKey`: a letter, and then up to 63 letters, digits, lines and dashes.
unfoldable pub matches_input_key : List ℕ → Bool
matches_input_key [] = false
matches_input_key (c ∷ cs) = is_letter c && every is_key_char cs && leb (length cs) 63

-- An entry of `inputs`: its key, and the length of its expression.
unfoldable pub input_shape : String × String → Bool
unfolding matches_input_key
input_shape (key, expr) =
    matches_input_key (codes key) && is_safe_id key && within 1 4_096 (units_length (codes expr))

-- The identifiers, the inputs and the numbers of one node.
unfoldable pub node_shape : NodeDef → Bool
unfolding input_shape
node_shape d =
    is_safe_id d.id
    && every is_safe_id d.depends_on
    && leb (length d.depends_on) 64
    && optional (every input_shape) d.inputs
    && optional (λ (l : NodeLoop). within 1 100 l.max_attempts) d.loop
    && optional (λ (g : ShellGateDef). optional (within 100 600_000) g.timeout_ms) d.shell_gate
    && optional is_safe_id d.feedback_to

unfoldable pub graph_shape : RawGraph → Bool
unfolding node_shape
graph_shape raw =
    is_safe_id raw.name
    && within 1 64 (length raw.nodes)
    && every node_shape raw.nodes
    && optional (within 1 10_000) raw.max_global_attempts
    && optional (within 1 8) raw.max_concurrency

-- The sum of the local limits, for a graph with no global limit of its own.
unfoldable pub total_attempts : List NodeDef → ℕ
unfolding max_attempts
total_attempts [] = 0
total_attempts (d ∷ ds) = max_attempts d + total_attempts ds

abbrev get_or {ℓ} : {A : Type ℓ} → Option A → A → A
get_or none a = a
get_or (some b) a = b

unfoldable pub with_defaults : RawGraph → GraphDef
unfolding total_attempts
with_defaults raw = record {
  name = raw.name;
  description = raw.description;
  nodes = raw.nodes;
  max_global_attempts = get_or raw.max_global_attempts (total_attempts raw.nodes);
  max_concurrency = get_or raw.max_concurrency 4;
}

-- `index.get(id)`: the last position of the identifier.
unfoldable pub index_of : String → ℕ → List NodeDef → Option ℕ
index_of id i [] = none
index_of id i (d ∷ ds) = elim (index_of id (suc i) ds) [
  | some j ↦ some j
  | none ↦ if d.id == id then some i else none
]

-- The loop that fills `index`.
unfoldable pub id_issues : ℕ → List String → List NodeDef → List Issue
id_issues i seen [] = []
id_issues i seen (d ∷ ds) =
    (if has d.id seen then duplicate_node_id i d.id ∷ [] else [])
    ++ id_issues (suc i) (d.id ∷ seen) ds

unfoldable pub set_add_all : List String → List String → List String
unfolding set_add
set_add_all [] set = set
set_add_all (id ∷ ids) set = set_add_all ids (set_add id set)

abbrev pub get_set : String → List (String × List String) → List String
get_set id ancestors = elim (lookup id ancestors) [ none ↦ [] | some ids ↦ ids ]

-- What the loop over `depends_on` finds out about one dependency.
pub data DependencyVerdict : Type 0 where
  duplicate unknown late earlier : DependencyVerdict

unfoldable pub dependency_verdict : List NodeDef → ℕ → List String → String → DependencyVerdict
unfolding index_of
dependency_verdict nodes i dep_seen dep =
    if has dep dep_seen
    then duplicate
    else elim (index_of dep 0 nodes) [ none ↦ unknown | some j ↦ if leb i j then late else earlier ]

abbrev pub verdict_issues : ℕ → String → DependencyVerdict → List Issue
verdict_issues i dep duplicate = duplicate_dependency i dep ∷ []
verdict_issues i dep unknown = unknown_dependency i dep ∷ []
verdict_issues i dep late = late_dependency i dep ∷ []
verdict_issues i dep earlier = []

abbrev pub dep_seen_after : DependencyVerdict → String → List String → List String
dep_seen_after duplicate dep dep_seen = dep_seen
dep_seen_after _ dep dep_seen = dep ∷ dep_seen

module _ (nodes : List NodeDef) (i : ℕ) (ancestors : List (String × List String)) where
  abbrev pub direct_after : DependencyVerdict → String → List String → List String
  direct_after earlier dep direct = set_add_all (get_set dep ancestors) (set_add dep direct)
  direct_after _ dep direct = direct

  -- The loop over `depends_on`: the issues, and `direct`.
  unfoldable pub dependency_loop :
      List String → List String → List String → List Issue × List String
  unfolding dependency_verdict
  dependency_loop dep_seen direct [] = ([], direct)
  dependency_loop dep_seen direct (dep ∷ deps) =
      let verdict = dependency_verdict nodes i dep_seen dep in
      let (issues, direct') =
        dependency_loop (dep_seen_after verdict dep dep_seen) (direct_after verdict dep direct)
          deps in
      (verdict_issues i dep verdict ++ issues, direct')

abbrev pub is_none : Option ShellGateDef → Bool
is_none none = true
is_none (some _) = false

abbrev feedback_issues : ℕ → NodeDef → Option String → List Issue
feedback_issues i d none = []
feedback_issues i d (some target) =
    if not (is_checker d.agent)
    then feedback_for_checker i ∷ []
    else if has target d.depends_on
    then []
    else feedback_to_dependency i ∷ []

-- The checks on the node's gate, agent and feedback.
unfoldable pub role_issues : ℕ → NodeDef → List Issue
unfolding gate
role_issues i d =
    (if is_shell_gate (gate d) && is_none d.shell_gate then gate_requires_shell i ∷ [] else [])
    ++ ((if is_shell d.agent && is_none d.shell_gate then shell_agent_requires_gate i ∷ [] else [])
        ++ ((if d.isolated_check && not (is_checker d.agent)
              then isolated_check_for_checker i ∷ []
              else [])
            ++ feedback_issues i d d.feedback_to))

module _ (json_parse : String → Option Json) (nodes : List NodeDef) (i : ℕ) where
  -- The three exclusive checks of a referenced name.
  unfoldable pub reference_issues : List String → String → String → List Issue
  unfolding index_of
  reference_issues direct key ref =
      if starts_with ref "$" then unknown_special i key ∷ [] else elim (index_of ref 0 nodes) [
        | none ↦ unknown_reference i key ∷ []
        | some _ ↦ if has ref direct then [] else not_earlier_dependency i key ∷ []
      ]

  unfoldable pub input_issues : List String → String → String → List Issue
  unfolding parse_input_expression is_safe_part reference_issues
  input_issues direct key expr = elim (parse_input_expression json_parse expr) [
    | literal _ ↦ []
    | special name ↦
        if name == "$goal" || name == "$criteria" then [] else reference_issues direct key name
    | reference node path ↦
        (if every is_safe_part path then [] else unsafe_path i key ∷ [])
        ++ reference_issues direct key node
  ]

  unfoldable pub inputs_issues : List String → List (String × String) → List Issue
  unfolding input_issues
  inputs_issues direct [] = []
  inputs_issues direct ((key, expr) ∷ rest) =
      input_issues direct key expr ++ inputs_issues direct rest

abbrev pub inputs_of : NodeDef → List (String × String)
inputs_of d = elim d.inputs [ none ↦ [] | some inputs ↦ inputs ]

-- The second loop of `superRefine`.
unfoldable pub node_issues :
    (String → Option Json)
    → List NodeDef
    → ℕ
    → List (String × List String)
    → List NodeDef
    → List Issue
unfolding dependency_loop role_issues inputs_issues
node_issues json_parse nodes i ancestors [] = []
node_issues json_parse nodes i ancestors (d ∷ ds) =
    let (issues, direct) = dependency_loop nodes i ancestors [] [] d.depends_on in
    issues
    ++ (role_issues i d
        ++ (inputs_issues json_parse nodes i direct (inputs_of d)
            ++ node_issues json_parse nodes (suc i) ((d.id, direct) ∷ ancestors) ds))

abbrev pub max_graph_state_bytes : ℕ
max_graph_state_bytes = 512 * 1024

module _ (json_parse : String → Option Json) (serialized_bytes : GraphDef → ℕ) where
  unfoldable pub refine_graph : GraphDef → List Issue
  unfolding id_issues node_issues
  refine_graph graph =
      id_issues 0 [] graph.nodes
      ++ (node_issues json_parse graph.nodes 0 [] graph.nodes
          ++ (if ltb max_graph_state_bytes (serialized_bytes graph)
              then too_large (serialized_bytes graph) ∷ []
              else []))

  pub data ParsedGraph : Type 0 where
    graph : GraphDef → ParsedGraph
    rejected : List Issue → ParsedGraph

  -- `GraphDefSchema.parse`
  unfoldable pub parse_graph : RawGraph → ParsedGraph
  unfolding graph_shape with_defaults refine_graph
  parse_graph raw =
      if graph_shape raw
      then elim (refine_graph (with_defaults raw)) [
        | [] ↦ graph (with_defaults raw)
        | issue ∷ issues ↦ rejected (issue ∷ issues)
      ]
      else rejected (shape ∷ [])
