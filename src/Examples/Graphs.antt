-- ===== src/Examples/Graphs.antt =====
-- The small graph under the schema of graphs, the skips and the descendants, and safe identifiers.
use opencode_alg.Base.{
  String, true, false, ◌≡◌, ◌↔◌, refl, Option, none, some, [], ◌∷◌, inl, inr, All, every, has,
  lookup, codes, codes_eq, decimal, length, map, to_lower, max, min, ◌≤◌, ◌<◌,
}
use opencode_alg.Run.Values.{Json}
use opencode_alg.Graph.{skip_all, skip_failed_descendants, descendants_of}
use opencode_alg.Graph.Order.{IsOrdered}
use opencode_alg.Graph.Skip.{IsSettled, skip_all_once}
use opencode_alg.Graph.Descendants.{Descends, descendants_of_iff}
use opencode_alg.GraphSchema.Refine.{refine_graph, set_add_all}
use opencode_alg.GraphSchema.Inputs.{split_dots, parse_input_expression, is_safe_part}
use opencode_alg.GraphSchema.Sound.{refine_graph-IsOrdered}
use opencode_alg.GraphSchema.References.{
  IsWellRouted, refine_graph-IsWellRouted, refine_graph-reference,
}
use opencode_alg.Paths.SafeId.{
  is_safe_id, matches_safe_id, is_device_name, before_dot, is_reserved, is_safe_id-IsHarmless,
  IsHarmless,
}
use opencode_alg.Diagnostics.{max_persisted_failures, bound_list_to, omitted_label}
use opencode_alg.Diagnostics.Bounds.{length-bound_list_to}
use opencode_alg.Examples.Samples.{review, pair, failed_run}

-- No text is JSON, and every graph is small.
abbrev no_json : String → Option Json
no_json text = none

refine_graph-IsOrdered_example : IsOrdered [] pair.nodes
unfolding refine_graph has set_add_all lookup
refine_graph-IsOrdered_example = refine_graph-IsOrdered no_json (λ graph. 100) pair refl

refine_graph-IsWellRouted_example : All IsWellRouted pair.nodes
unfolding refine_graph has set_add_all lookup
refine_graph-IsWellRouted_example = refine_graph-IsWellRouted no_json (λ graph. 100) pair refl

refine_graph-reference_example :
    Descends pair.nodes "build" "review" × (every is_safe_part ("summary" ∷ []) ≡ true)
unfolding refine_graph has set_add_all lookup parse_input_expression
refine_graph-reference_example =
    refine_graph-reference no_json (λ graph. 100) pair review "claimed" "build.summary" "build"
      ("summary" ∷ []) refl (inr (inl refl)) (inl refl) refl

skip_all_once_example :
    (skip_all 2 failed_run ≡ some (skip_failed_descendants failed_run).0)
    × All (IsSettled (skip_failed_descendants failed_run).0.nodes) pair.nodes
unfolding refine_graph has set_add_all lookup
skip_all_once_example =
    skip_all_once failed_run 0 (refine_graph-IsOrdered no_json (λ graph. 100) pair refl)

descendants_of_iff_example :
    (has "review" (descendants_of pair "build") ≡ true) ↔ Descends pair.nodes "build" "review"
unfolding refine_graph has set_add_all lookup
descendants_of_iff_example =
    descendants_of_iff pair "build" "review"
      (refine_graph-IsOrdered no_json (λ graph. 100) pair refl)

is_safe_id-IsHarmless_example :
    All IsHarmless (codes "run-1")
    × (0 < length (codes "run-1"))
    × (length (codes "run-1") ≤ 64)
    × (is_device_name (before_dot (map to_lower (codes "run-1"))) ≡ false)
    × (is_reserved (map to_lower (codes "run-1")) ≡ false)
unfolding is_safe_id matches_safe_id codes_eq is_reserved is_device_name before_dot
is_safe_id-IsHarmless_example = is_safe_id-IsHarmless "run-1" refl

length-bound_list_to_example :
    length (bound_list_to (λ text. text) 2 ("a" ∷ "b" ∷ "c" ∷ []) ("c" ∷ []) omitted_label)
    ≤ max 1 (min 2 max_persisted_failures)
length-bound_list_to_example =
    length-bound_list_to (λ text. text) 2 ("a" ∷ "b" ∷ "c" ∷ []) ("c" ∷ []) omitted_label

-- The retained entry outlives an earlier one.
bound_list_to_test :
    bound_list_to (λ text. text) 2 ("a" ∷ "b" ∷ "c" ∷ []) ("c" ∷ []) omitted_label
    ≡ "c" ∷ "[truncated] 2 additional failure entries omitted" ∷ []
unfolding bound_list_to decimal
bound_list_to_test = refl

reserved_test : is_safe_id "Constructor" ≡ false
unfolding is_safe_id matches_safe_id codes_eq is_reserved is_device_name before_dot
reserved_test = refl

device_test : is_safe_id "NUL.txt" ≡ false
unfolding is_safe_id matches_safe_id codes_eq is_reserved is_device_name before_dot
device_test = refl

split_dots_test : split_dots "scan.map.path" ≡ ("scan", "map" ∷ "path" ∷ [])
unfolding split_dots
split_dots_test = refl
