-- ===== src/Inputs.antt =====
-- src/graph.ts: the inputs of a node, wired from the run and from the outputs of other nodes.
use opencode_alg.Base.{
  ℕ, suc, String, Option, none, some, List, [], ◌∷◌, ◌==◌, if◌then◌else◌, lookup, decimal,
}
use opencode_alg.Run.{NodeDef, Nodes, RunState}
use opencode_alg.Run.Values.{Json, Items, num, str, arr, obj, nil, cons, get_field}
use opencode_alg.GraphSchema.Inputs.{
  InputExpression, literal, special, reference, parse_input_expression, is_safe_part,
}

-- The own property of an array: an element by its index, and the length.
unfoldable pub count_items : Items → ℕ
count_items nil = 0
count_items (cons item items) = suc (count_items items)

unfoldable pub find_item : String → ℕ → Items → Option Json
find_item key i nil = none
find_item key i (cons item items) =
    if decimal i == key then some item else find_item key (suc i) items

-- `Object.hasOwn(current, part)` and the value there; only objects and arrays have parts.
unfoldable pub own_part : String → Json → Option Json
unfolding get_field find_item count_items
own_part key (obj fields) = get_field key fields
own_part key (arr items) =
    if key == "length" then some (num (count_items items)) else find_item key 0 items
own_part key _ = none

-- `getSafePath`, on the parts of the path; `none` is undefined.
unfoldable pub get_safe_path : List String → Option Json → Option Json
unfolding is_safe_part own_part
get_safe_path [] value = value
get_safe_path (part ∷ parts) none = none
get_safe_path (part ∷ parts) (some value) =
    let rest = get_safe_path parts (own_part part value) in if is_safe_part part then rest else none

abbrev texts_json : List String → Items
texts_json [] = nil
texts_json (text ∷ texts) = cons (str text) (texts_json texts)

-- The output of a node, if it has state.
unfoldable pub output_of : Nodes → String → Option Json
unfolding lookup
output_of nodes id = elim (lookup id nodes) [ none ↦ none | some s ↦ s.output ]

module _ (json_parse : String → Option Json) where
  unfoldable pub value_of : RunState → InputExpression → Option Json
  unfolding get_safe_path output_of
  value_of run (literal value) = some value
  value_of run (special name) = none
  value_of run (reference node path) = get_safe_path path (output_of run.nodes node)

  unfoldable pub resolve_input_value : String → RunState → Option Json
  unfolding value_of parse_input_expression
  resolve_input_value expr run =
      if expr == "$goal"
      then some (str run.goal)
      else if expr == "$criteria"
      then some (arr (texts_json run.criteria))
      else value_of run (parse_input_expression json_parse expr)

  -- An assignment to a key of the inputs.
  unfoldable pub assign :
      String → Option Json → List (String × Option Json) → List (String × Option Json)
  assign key value [] = (key, value) ∷ []
  assign key value ((k, v) ∷ inputs) =
      let rest = assign key value inputs in if k == key then (k, value) ∷ inputs else (k, v) ∷ rest

  unfoldable pub wire_expressions :
      RunState → List (String × String) → List (String × Option Json) → List (String × Option Json)
  unfolding assign resolve_input_value
  wire_expressions run [] inputs = inputs
  wire_expressions run ((key, expression) ∷ expressions) inputs =
      wire_expressions run expressions (assign key (resolve_input_value expression run) inputs)

  unfoldable pub wire_dependencies :
      RunState → List String → List (String × Option Json) → List (String × Option Json)
  unfolding assign output_of
  wire_dependencies run [] inputs = inputs
  wire_dependencies run (dep ∷ deps) inputs =
      wire_dependencies run deps (assign dep (output_of run.nodes dep) inputs)

  unfoldable pub wire_inputs : NodeDef → RunState → List (String × Option Json)
  unfolding wire_expressions wire_dependencies
  wire_inputs d run =
      let inputs =
        ("goal", some (str run.goal)) ∷ ("criteria", some (arr (texts_json run.criteria))) ∷ [] in
      elim d.inputs [
        | some expressions ↦ wire_expressions run expressions inputs
        | none ↦ wire_dependencies run d.depends_on inputs
      ]
