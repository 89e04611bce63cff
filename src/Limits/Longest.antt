-- ===== src/Limits/Longest.antt =====
-- A truncated text is the longest prefix that fits.
use opencode_alg.Base.{
  ℕ, zero, suc, ◌+◌, ◌-◌, ◌/◌, ◌≤◌, ◌<◌, ltb, leb, List, [], ◌∷◌, take, length, Bool-cases, inl,
  inr, arith, ◌≡◌, refl, ap, sym,
}
use opencode_alg.Limits.{search_prefix, truncate_utf8}

-- A longer prefix of a text takes no fewer bytes, and the empty text takes none.
pub record IsMeasure (utf8_bytes : List ℕ → ℕ) : Type 0 where
  pub none_for_empty : utf8_bytes [] ≡ 0
  pub grows :
      (value : List ℕ) (m n : ℕ) → m ≤ n → utf8_bytes (take m value) ≤ utf8_bytes (take n value)

take-length {ℓ} : {A : Type ℓ} (xs : List A) → take (length xs) xs ≡ xs
take-length [] = refl
take-length (x ∷ xs) = ap (◌∷◌ x) (take-length xs)

module _ (utf8_bytes : List ℕ → ℕ) (measure : IsMeasure utf8_bytes) (value : List ℕ)
    (maximum : ℕ) where
  -- The number is at most the upper end, its prefix fits, and every longer one up to the end does not.
  abbrev pub IsLongest : (high k : ℕ) → Type 0
  IsLongest high k =
      (k ≤ high)
      × (utf8_bytes (take k value) ≤ maximum)
      × ((n : ℕ) → n ≤ high → utf8_bytes (take n value) ≤ maximum → n ≤ k)

  -- Where a prefix does not fit, the longest that is shorter is the longest of all.
  shorten :
      (low high middle k : ℕ)
      → middle ≤ high
      → (0 < middle) × (maximum < utf8_bytes (take middle value))
      → IsLongest (middle - 1) k
      → IsLongest high k
  shorten low high middle k le (positive, wide) (under, small, best) = (
    omega arith,
    small,
    λ n up fits. elim (Bool-cases (ltb n middle)) [
      | inl e ↦ best n (ground arith) fits
      | inr e ↦ absurd (ground (arith, measure.grows value middle n (ground arith)))
    ],
  )

  search_prefix-IsLongest :
      (fuel low high : ℕ)
      → high ≤ low + fuel
      → low ≤ high
      → utf8_bytes (take low value) ≤ maximum
      → IsLongest high (search_prefix utf8_bytes fuel value maximum low high)
  unfolding search_prefix
  search_prefix-IsLongest zero low high h le fits = (le, fits, λ n up small. omega arith)
  search_prefix-IsLongest (suc fuel) low high h le fits = elim (Bool-cases (ltb low high)) [
    | inl below ↦
        let middle = (low + high + 1) / 2 in
        elim (Bool-cases (leb (utf8_bytes (take middle value)) maximum)) [
          | inl e ↦
              rw (below, e)
                (search_prefix-IsLongest fuel middle high (ground arith) (ground arith)
                  (ground arith))
          | inr e ↦
              rw (below, e)
                (shorten low high middle
                  (search_prefix utf8_bytes fuel value maximum low (middle - 1)) (ground arith)
                  (ground arith)
                  (search_prefix-IsLongest fuel low (middle - 1) (ground arith) (ground arith)
                    fits))
        ]
    | inr met ↦ rw met (le, fits, λ n up small. ground arith)
  ]

length-take {ℓ} : {A : Type ℓ} (n : ℕ) (xs : List A) → n ≤ length xs → length (take n xs) ≡ n
length-take zero xs h = refl
length-take (suc n) [] h = absurd (omega arith)
length-take (suc n) (x ∷ xs) h = ap suc (length-take n xs (omega arith))

-- Where the byte length is 0 for the empty text and does not fall when a prefix grows, a truncated
-- text is a prefix of the text, its bytes are within the maximum, and no prefix whose bytes are
-- within the maximum is longer.
pub truncate_utf8-IsLongest :
    (utf8_bytes : List ℕ → ℕ) (value : List ℕ) (maximum n : ℕ)
    → IsMeasure utf8_bytes
    → n ≤ length value
    → utf8_bytes (take n value) ≤ maximum
    → let truncated = truncate_utf8 utf8_bytes value maximum in
      (truncated ≡ take (length truncated) value)
      × (utf8_bytes truncated ≤ maximum)
      × (n ≤ length truncated)
unfolding truncate_utf8
truncate_utf8-IsLongest utf8_bytes value maximum n measure le fits =
    elim (Bool-cases (leb (utf8_bytes value) maximum)) [
      | inl e ↦ rw e (sym (take-length value), ground arith, le)
      | inr e ↦
          let k = search_prefix utf8_bytes (length value) value maximum 0 (length value) in
          let (under, small, best) =
            search_prefix-IsLongest utf8_bytes measure value maximum (length value) 0 (length value)
              (omega arith) (omega arith) (ground (arith, measure.none_for_empty)) in
          let size : length (take k value) ≡ k = length-take k value under in
          rw (e, size) (refl, small, best n le fits)
    ]
