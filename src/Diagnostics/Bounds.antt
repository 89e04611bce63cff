-- ===== src/Diagnostics/Bounds.antt =====
-- A bounded list of diagnostics never has more entries than its maximum.
use opencode_alg.Base.{
  ℕ, zero, suc, ◌+◌, ◌-◌, ◌≤◌, String, Bool, true, false, ◌≡◌, refl, List, [], ◌∷◌, inl, inr, map,
  min, max, leb, length, length-append, arith, Bool-cases,
}
use opencode_alg.Diagnostics.{
  max_persisted_failures, size, no_selection, select_value, retain_loop, fill, pick, bound_list_to,
}

size-no_selection : (values : List String) → size (no_selection values) ≡ 0
unfolding size no_selection
size-no_selection [] = refl
size-no_selection (v ∷ values) = size-no_selection values

size-select_value :
    (r : String) (values : List String) (mask : List Bool)
    → size (select_value r values mask) ≤ suc (size mask)
unfolding size select_value
size-select_value r [] mask = omega arith
size-select_value r (v ∷ values) [] = omega arith
size-select_value r (v ∷ values) (true ∷ mask) = ground (arith, size-select_value r values mask)
size-select_value r (v ∷ values) (false ∷ mask) = ground (arith, size-select_value r values mask)

size-retain_loop :
    (safe : String → String) (available : ℕ) (retain normalized : List String) (mask : List Bool)
    → size mask ≤ available
    → size (retain_loop safe available retain normalized mask) ≤ available
unfolding retain_loop
size-retain_loop safe available [] normalized mask h = h
size-retain_loop safe available (r ∷ retain) normalized mask h =
    elim (Bool-cases (leb available (size mask))) [
      | inl full ↦ rw (full, retain_loop) h
      | inr room ↦
          rw (room, retain_loop)
            (size-retain_loop safe available retain normalized
              (select_value (safe r) normalized mask)
              (ground (arith, size-select_value (safe r) normalized mask)))
    ]

size-fill : (room : ℕ) (mask : List Bool) → size (fill room mask) ≤ size mask + room
unfolding size fill
size-fill zero [] = omega arith
size-fill (suc room) [] = omega arith
size-fill zero (b ∷ mask) = omega arith
size-fill (suc room) (true ∷ mask) = omega (arith, size-fill (suc room) mask)
size-fill (suc room) (false ∷ mask) = omega (arith, size-fill room mask)

length-pick : (values : List String) (mask : List Bool) → length (pick values mask) ≤ size mask
unfolding size pick
length-pick [] mask = omega arith
length-pick (v ∷ values) [] = omega arith
length-pick (v ∷ values) (true ∷ mask) = omega (arith, length-pick values mask)
length-pick (v ∷ values) (false ∷ mask) = omega (arith, length-pick values mask)

-- For any values, entries to retain, limit and marker, boundDiagnosticList returns at most as many
-- entries as its maximum: the limit, brought between 1 and 100.
pub length-bound_list_to :
    (safe : String → String) (limit : ℕ) (values retain : List String) (label : ℕ → String)
    → length (bound_list_to safe limit values retain label)
      ≤ max 1 (min limit max_persisted_failures)
unfolding bound_list_to
length-bound_list_to safe limit values retain label =
    let maximum = max 1 (min limit max_persisted_failures) in
    let normalized = map safe values in
    let available = maximum - 1 in
    let retained = retain_loop safe available retain normalized (no_selection normalized) in
    let mask = fill (available - size retained) retained in
    let kept = pick normalized mask in
    let marker = safe (label (length normalized - length kept)) ∷ [] in
    let start : size (no_selection normalized) ≤ available =
      ground (arith, size-no_selection normalized) in
    let few : size retained ≤ available =
      size-retain_loop safe available retain normalized (no_selection normalized) start in
    let filled = size-fill (available - size retained) retained in
    let picked = length-pick normalized mask in
    let joined = length-append kept marker in
    let positive : 1 ≤ maximum = omega arith in
    elim (Bool-cases (leb (length normalized) maximum)) [
      | inl fits ↦ rw (fits, bound_list_to) (ground (arith, fits))
      | inr longer ↦
          rw (longer, bound_list_to) (omega (arith, few, filled, picked, joined, positive))
    ]
