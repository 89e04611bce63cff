-- ===== src/GraphSchema/Inputs.antt =====
-- `parseInputExpression` of src/schemas.ts. JSON.parse is the runtime's: `json_parse` stands for it,
-- with `none` for a text on which it throws.
use Prim.Native.Char.{code}
use text.Mathlib.Text.{starts_with}
use opencode_alg.Base.{
  ℕ, String, Bool, ◌&&◌, ◌||◌, not, Option, none, some, List, [], ◌∷◌, nat_eq, leb, length, every,
  codes, is_digit, is_letter, ◌==◌, if◌then◌else◌,
}
use opencode_alg.Run.Values.{Json}

pub data InputExpression : Type 0 where
  special : String → InputExpression
  literal : Json → InputExpression
  reference : (node : String) (path : List String) → InputExpression

-- `expr.split(".")`: the first part, and the parts after it.
unfoldable pub split_dots : String → String × List String
split_dots String.[] = (String.[], [])
split_dots (String.◌∷◌ c s) =
    let (part, parts) = split_dots s in
    if nat_eq (code c) b'.' then (String.[], part ∷ parts) else (String.◌∷◌ c part, parts)

unfoldable pub parse_input_expression : (String → Option Json) → String → InputExpression
unfolding split_dots
parse_input_expression json_parse expr =
    if starts_with expr "$" then special expr else elim (json_parse expr) [
      | some value ↦ literal value
      | none ↦ let (node, path) = split_dots expr in reference node path
    ]

-- `/^[A-Za-z0-9_-]{1,64}$/`
abbrev is_segment_char : ℕ → Bool
is_segment_char c = is_letter c || is_digit c || nat_eq c b'_' || nat_eq c b'-'

unfoldable pub is_segment : String → Bool
is_segment part =
    let cs = codes part in every is_segment_char cs && leb 1 (length cs) && leb (length cs) 64

-- A part of a field path that the schema admits and `getSafePath` follows.
unfoldable pub is_safe_part : String → Bool
unfolding is_segment
is_safe_part part =
    is_segment part && not (part == "__proto__" || part == "constructor" || part == "prototype")
