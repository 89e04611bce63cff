-- ===== src/Paths/SafeId.antt =====
-- `isSafeId` of src/paths.ts, over the code points of the identifier.
use opencode_alg.Base.{
  ℕ, ◌≤◌, ◌<◌, String, Bool, true, false, ◌≡◌, ◌≢◌, ◌&&◌, ◌||◌, not, List, [], ◌∷◌, map, nat_eq,
  leb, length, every, any, codes, codes_eq, All, is_digit, is_letter, to_lower, arith,
  if◌then◌else◌,
}

-- `SAFE_ID_PATTERN`: a letter or digit, and then up to 63 letters, digits, dots, lines and dashes.
abbrev is_id_char : ℕ → Bool
is_id_char c = is_letter c || is_digit c || nat_eq c b'.' || nat_eq c b'_' || nat_eq c b'-'

unfoldable pub matches_safe_id : List ℕ → Bool
matches_safe_id [] = false
matches_safe_id (c ∷ cs) = (is_letter c || is_digit c) && every is_id_char cs && leb (length cs) 63

abbrev pub reserved_ids : List String
reserved_ids =
    "__definegetter__" ∷ "__definesetter__" ∷ "__lookupgetter__" ∷ "__lookupsetter__" ∷ "__proto__"
    ∷ "constructor" ∷ "hasownproperty" ∷ "isprototypeof" ∷ "propertyisenumerable" ∷ "prototype"
    ∷ "tolocalestring" ∷ "tostring" ∷ "valueof" ∷ []

-- The names of `WINDOWS_DEVICE_ID`, without their extension.
unfoldable pub is_device_name : List ℕ → Bool
unfolding codes_eq
is_device_name (a ∷ b ∷ c ∷ n ∷ []) =
    let word = a ∷ b ∷ c ∷ [] in
    leb b'1' n && leb n b'9' && (codes_eq word (codes "com") || codes_eq word (codes "lpt"))
is_device_name name =
    any (λ d. codes_eq name (codes d)) ("con" ∷ "prn" ∷ "aux" ∷ "nul" ∷ "clock$" ∷ [])

-- The text before the first dot.
unfoldable pub before_dot : List ℕ → List ℕ
before_dot [] = []
before_dot (c ∷ cs) = let rest = c ∷ before_dot cs in if nat_eq c b'.' then [] else rest

-- `RESERVED_IDS.has(value.toLowerCase())`
unfoldable pub is_reserved : List ℕ → Bool
unfolding codes_eq
is_reserved lower = any (λ r. codes_eq lower (codes r)) reserved_ids

unfoldable pub is_safe_id : String → Bool
is_safe_id value =
    let cs = codes value in
    let lower = map to_lower cs in
    matches_safe_id cs
    && not (codes_eq cs (codes "."))
    && not (codes_eq cs (codes ".."))
    && not (is_reserved lower)
    && not (is_device_name (before_dot lower))

-- A character that stands in a safe identifier is no separator, no colon and no control character.
abbrev pub IsHarmless : ℕ → Type 0
IsHarmless c = (c ≢ b'/') × (c ≢ b'\\') × (c ≢ b':') × (32 < c) × (c < 127)

is_id_char-IsHarmless : (c : ℕ) → is_id_char c ≡ true → IsHarmless c
is_id_char-IsHarmless c h = ground arith

every-IsHarmless : (cs : List ℕ) → every is_id_char cs ≡ true → All IsHarmless cs
every-IsHarmless [] h = tt
every-IsHarmless (c ∷ cs) h =
    (is_id_char-IsHarmless c (ground arith), every-IsHarmless cs (ground arith))

matches_safe_id_lem :
    (cs : List ℕ)
    → matches_safe_id cs ≡ true
    → All IsHarmless cs × (0 < length cs) × (length cs ≤ 64)
unfolding matches_safe_id
matches_safe_id_lem [] h = cc
matches_safe_id_lem (c ∷ cs) h = (
  (is_id_char-IsHarmless c (ground arith), every-IsHarmless cs (ground arith)),
  omega arith,
  ground arith,
)

-- A safe identifier has 1 to 64 characters, none of which is a path separator, a colon, a space or
-- a control character, and it is no device name and no reserved name in any capitalisation.
pub is_safe_id-IsHarmless :
    (value : String)
    → is_safe_id value ≡ true
    → All IsHarmless (codes value)
      × (0 < length (codes value))
      × (length (codes value) ≤ 64)
      × (is_device_name (before_dot (map to_lower (codes value))) ≡ false)
      × (is_reserved (map to_lower (codes value)) ≡ false)
unfolding is_safe_id
is_safe_id-IsHarmless value h =
    let (harmless, pos, short) = matches_safe_id_lem (codes value) (ground arith) in
    (harmless, pos, short, ground arith, ground arith)
