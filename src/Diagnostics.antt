-- ===== src/Diagnostics.antt =====
-- `boundDiagnosticList` of src/diagnostics.ts. The redaction and the byte cap of `safeDiagnosticText`
-- are a parameter: `safe` stands for it. A set of positions of the list is a mask beside the list.
pub mod Bounds
use opencode_alg.Base.{
  ℕ, zero, suc, ◌+◌, ◌-◌, String, Bool, true, false, ◌&&◌, not, List, [], ◌∷◌, ◌++◌, map, min, max,
  leb, ltb, length, ◌==◌, ◌<>◌, if◌then◌else◌, decimal,
}

abbrev pub max_persisted_failures : ℕ
max_persisted_failures = 100

-- `selected.size`
unfoldable pub size : List Bool → ℕ
size [] = 0
size (true ∷ mask) = suc (size mask)
size (false ∷ mask) = size mask

-- `new Set()`, beside a list.
unfoldable pub no_selection : List String → List Bool
no_selection [] = []
no_selection (v ∷ vs) = false ∷ no_selection vs

-- Selects the first position that is not selected and holds the value, if there is one.
unfoldable pub select_value : String → List String → List Bool → List Bool
select_value r [] mask = mask
select_value r (v ∷ vs) [] = []
select_value r (v ∷ vs) (b ∷ mask) =
    let rest = b ∷ select_value r vs mask in if not b && v == r then true ∷ mask else rest

module _ (safe : String → String) where
  -- The loop over the entries to retain.
  unfoldable pub retain_loop : ℕ → List String → List String → List Bool → List Bool
  unfolding select_value size
  retain_loop available [] normalized mask = mask
  retain_loop available (r ∷ retain) normalized mask =
      let rest = retain_loop available retain normalized (select_value (safe r) normalized mask) in
      if leb available (size mask) then mask else rest

-- The loop that fills up from the front: `room` is what is left of `available`.
unfoldable pub fill : ℕ → List Bool → List Bool
fill room [] = []
fill zero (b ∷ mask) = b ∷ mask
fill (suc room) (true ∷ mask) = true ∷ fill (suc room) mask
fill (suc room) (false ∷ mask) = true ∷ fill room mask

-- The selected values in their order.
unfoldable pub pick : List String → List Bool → List String
pick [] mask = []
pick (v ∷ vs) [] = []
pick (v ∷ vs) (true ∷ mask) = v ∷ pick vs mask
pick (v ∷ vs) (false ∷ mask) = pick vs mask

abbrev pub omitted_label : ℕ → String
omitted_label n = "[truncated] " <> (decimal n <> " additional failure entries omitted")

module _ (safe : String → String) where
  unfoldable pub bound_list_to :
      (limit : ℕ) (values retain : List String) (label : ℕ → String) → List String
  unfolding retain_loop fill pick no_selection size
  bound_list_to limit values retain label =
      let maximum = max 1 (min limit max_persisted_failures) in
      let normalized = map safe values in
      let available = maximum - 1 in
      let retained = retain_loop safe available retain normalized (no_selection normalized) in
      let mask = fill (available - size retained) retained in
      let kept = pick normalized mask in
      if leb (length normalized) maximum
      then normalized
      else kept ++ safe (label (length normalized - length kept)) ∷ []

  -- With the default options, as the executor calls it.
  unfoldable pub bound_diagnostic_list : (values retain : List String) → List String
  unfolding bound_list_to
  bound_diagnostic_list values retain =
      bound_list_to max_persisted_failures values retain omitted_label
