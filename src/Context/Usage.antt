-- ===== src/Context/Usage.antt =====
-- `estimateUsedTokens`: what the host measured, and the length of what came after. Bytes per token
-- are given in thousandths; the bytes of a message's parts are those of their serialization, zero
-- where it fails.
use opencode_alg.Base.{
  ℕ, ◌+◌, ◌-◌, ◌*◌, ◌/◌, max, Bool, true, false, ◌&&◌, ◌||◌, Option, none, some, List, [], ◌∷◌,
  ◌++◌, ltb, if◌then◌else◌, ◌≡◌, refl,
}

-- `info.tokens`, where a count that is missing or not positive is zero.
pub record UsageTokens : Type 0 where
  pub input : ℕ
  pub output : ℕ
  pub cache_read : ℕ
  pub cache_write : ℕ

pub record UsageMessage : Type 0 where
  pub assistant : Bool
  pub summary : Bool
  pub tokens : Option UsageTokens
  pub parts_bytes : ℕ

abbrev has_counts : Option UsageTokens → Bool
has_counts none = false
has_counts (some t) = ltb 0 t.input || ltb 0 t.output

-- Whether the search for the last measured message stops here.
unfoldable pub is_measured : UsageMessage → Bool
is_measured message = message.assistant && has_counts message.tokens

-- The last measured message, and those after it.
unfoldable pub last_measured : List UsageMessage → Option (UsageMessage × List UsageMessage)
unfolding is_measured
last_measured [] = none
last_measured (m ∷ messages) =
    let here = if is_measured m then some (m, messages) else none in
    elim (last_measured messages) [ some found ↦ some found | none ↦ here ]

unfoldable pub tail_bytes : List UsageMessage → ℕ
tail_bytes [] = 0
tail_bytes (m ∷ messages) = m.parts_bytes + tail_bytes messages

-- `Math.ceil(bytes / Math.max(1, bytesPerToken))`
unfoldable pub tokens_for : (bytes_per_token bytes : ℕ) → ℕ
tokens_for bytes_per_token bytes =
    let unit = max 1_000 bytes_per_token in (1_000 * bytes + (unit - 1)) / unit

abbrev pub prompt_tokens : (summary : Bool) → Option UsageTokens → ℕ
prompt_tokens true tokens = 0
prompt_tokens false none = 0
prompt_tokens false (some t) = t.input + t.cache_read + t.cache_write

abbrev pub output_tokens : Option UsageTokens → ℕ
output_tokens none = 0
output_tokens (some t) = t.output

unfoldable pub estimate_from :
    (bytes_per_token : ℕ) → List UsageMessage → Option (UsageMessage × List UsageMessage) → ℕ
unfolding tail_bytes tokens_for
estimate_from bytes_per_token messages none = tokens_for bytes_per_token (tail_bytes messages)
estimate_from bytes_per_token messages (some (m, later)) =
    prompt_tokens m.summary m.tokens
    + output_tokens m.tokens
    + tokens_for bytes_per_token (tail_bytes later)

unfoldable pub estimate_used_tokens : List UsageMessage → (bytes_per_token : ℕ) → Option ℕ
unfolding last_measured estimate_from
estimate_used_tokens [] bytes_per_token = none
estimate_used_tokens (m ∷ messages) bytes_per_token =
    some (estimate_from bytes_per_token (m ∷ messages) (last_measured (m ∷ messages)))

-- No message after the last measured one is measured.
last_measured-later :
    (m : UsageMessage) (later : List UsageMessage)
    → is_measured m ≡ true
    → last_measured later ≡ none
    → last_measured (m ∷ later) ≡ some (m, later)
unfolding last_measured
last_measured-later m later h n = rw (n, h) refl

last_measured-append :
    (earlier later : List UsageMessage) (found : UsageMessage × List UsageMessage)
    → last_measured later ≡ some found
    → last_measured (earlier ++ later) ≡ some found
unfolding last_measured
last_measured-append [] later found h = h
last_measured-append (e ∷ earlier) later found h =
    let again = last_measured-append earlier later found h in rw (again, last_measured) refl

-- A measured reply that no measured one follows counts for all that came before it: the estimate is
-- its own measure and the length of what came after it. Of a summary only the output counts.
pub estimate-measured :
    (earlier later : List UsageMessage) (m : UsageMessage) (bytes_per_token : ℕ)
    → is_measured m ≡ true
    → last_measured later ≡ none
    → estimate_used_tokens (earlier ++ m ∷ later) bytes_per_token
      ≡ some (
          prompt_tokens m.summary m.tokens
          + output_tokens m.tokens
          + tokens_for bytes_per_token (tail_bytes later))
unfolding estimate_used_tokens
estimate-measured [] later m bytes_per_token h n = rw (last_measured-later m later h n) refl
estimate-measured (e ∷ earlier) later m bytes_per_token h n =
    rw (last_measured-append (e ∷ earlier) (m ∷ later) (m, later) (last_measured-later m later h n))
      refl
