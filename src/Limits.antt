-- ===== src/Limits.antt =====
-- `truncateUtf8` of src/limits.ts, on a text as its UTF-16 units. `Buffer.byteLength` is a parameter.
pub mod Longest
use opencode_alg.Base.{ℕ, zero, suc, ◌+◌, ◌-◌, ◌/◌, ltb, leb, List, take, length, if◌then◌else◌}

module _ (utf8_bytes : List ℕ → ℕ) where
  -- The binary search between `low` and `high`, on fuel.
  unfoldable pub search_prefix : (fuel : ℕ) (value : List ℕ) (maximum low high : ℕ) → ℕ
  search_prefix zero value maximum low high = low
  search_prefix (suc fuel) value maximum low high =
      let middle = (low + high + 1) / 2 in
      let upper = search_prefix fuel value maximum middle high in
      let lower = search_prefix fuel value maximum low (middle - 1) in
      if ltb low high
      then (if leb (utf8_bytes (take middle value)) maximum then upper else lower)
      else low

  -- Each round of the search shrinks the range, so the length is fuel enough.
  unfoldable pub truncate_utf8 : (value : List ℕ) (maximum : ℕ) → List ℕ
  unfolding search_prefix
  truncate_utf8 value maximum =
      if leb (utf8_bytes value) maximum
      then value
      else take (search_prefix (length value) value maximum 0 (length value)) value
