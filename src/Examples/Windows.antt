-- ===== src/Examples/Windows.antt =====
-- Texts cut to their bytes, and plans of small windows.
use opencode_alg.Base.{
  ℕ, zero, suc, ◌+◌, ◌-◌, ◌*◌, ◌/◌, ◌≤◌, min, none, some, true, false, List, [], ◌∷◌, ◌≡◌, refl,
  ltb, if◌then◌else◌, arith, length, take,
}
use opencode_alg.Limits.{truncate_utf8}
use opencode_alg.Limits.Longest.{IsMeasure, truncate_utf8-IsLongest}
use opencode_alg.Context.Plan.{
  ContextPart, run, skills, memory, environment, ContextBudgetOptions, ModelWindow, call,
  compaction_prompt, ContextPlan, share_bytes, physical_bytes, known_plan, spent_bytes, allow,
  spend, plan_context,
}
use opencode_alg.Context.Bounds.{plan_context-IsBounded}
use opencode_alg.Context.Spending.{finished, left_out, rendered, Renders-within}
use opencode_alg.Context.Usage.{
  UsageMessage, is_measured, last_measured, estimate_used_tokens, estimate-measured, prompt_tokens,
  output_tokens, tokens_for, tail_bytes,
}
use opencode_alg.Context.Windows.{
  message_hook, model_hook, serve_all, window, observe_messages, record_plan,
}
use opencode_alg.Context.Windows.Kept.{serve_all-IsSmall, window-record_plan}

-- The bytes of one unit outside the surrogate pairs.
abbrev width : ℕ → ℕ
width unit = if ltb unit 128 then 1 else if ltb unit 2_048 then 2 else 3

unfoldable byte_length : List ℕ → ℕ
byte_length [] = 0
byte_length (unit ∷ units) = width unit + byte_length units

byte_length-grows :
    (value : List ℕ) (m n : ℕ) → m ≤ n → byte_length (take m value) ≤ byte_length (take n value)
unfolding byte_length
byte_length-grows [] zero n h = omega arith
byte_length-grows [] (suc m) zero h = absurd (omega arith)
byte_length-grows [] (suc m) (suc n) h = omega arith
byte_length-grows (unit ∷ units) zero n h = omega arith
byte_length-grows (unit ∷ units) (suc m) zero h = absurd (omega arith)
byte_length-grows (unit ∷ units) (suc m) (suc n) h =
    omega (arith, byte_length-grows units m n (omega arith))

byte_length-IsMeasure : IsMeasure byte_length
unfolding byte_length
byte_length-IsMeasure = record { none_for_empty = refl; grows = byte_length-grows }

-- An umlaut among letters.
abbrev word : List ℕ
word = b'a' ∷ 252 ∷ b'b' ∷ b'c' ∷ []

truncate_utf8-IsLongest_example :
    let truncated = truncate_utf8 byte_length word 4 in
    (truncated ≡ take (length truncated) word)
    × (byte_length truncated ≤ 4)
    × (2 ≤ length truncated)
unfolding byte_length
truncate_utf8-IsLongest_example =
    truncate_utf8-IsLongest byte_length word 4 2 byte_length-IsMeasure (omega arith) (omega arith)

truncated : truncate_utf8 byte_length word 4 ≡ b'a' ∷ 252 ∷ b'b' ∷ []
unfolding truncate_utf8 byte_length
truncated = refl

abbrev default_shares : ContextPart → ℕ
default_shares run = 200
default_shares skills = 350
default_shares memory = 350
default_shares environment = 100

abbrev defaults : ContextBudgetOptions
defaults = record {
  per_call = 50;
  compaction = 50;
  normal = 50;
  of_available = 500;
  shares = default_shares;
  bytes_per_token = 3_000;
  floor_bytes = 1_536;
}

abbrev crowded : ModelWindow
crowded = record { context = some 8_001; output = some 6_000; used_tokens = some 3_900 }

abbrev crowded_plan : ContextPlan
crowded_plan = known_plan defaults 8_001 crowded call (run ∷ skills ∷ [])

crowded_numbers :
    (crowded_plan.total ≡ 1_200) × (crowded_plan.recovery ≡ 1_200) × (crowded_plan.normal ≡ 150)
unfolding known_plan
crowded_numbers = (refl, refl, refl)

plan_context-IsBounded_example :
    (crowded_plan.total ≤ share_bytes defaults 8_001 call)
    × (crowded_plan.total ≤ (8_001 - 3_900) * 3_000 / 1_000)
    × (crowded_plan.normal ≤ crowded_plan.total)
    × (min 1_536 (min (physical_bytes defaults 8_001 crowded) (share_bytes defaults 8_001 call))
        ≤ crowded_plan.total)
unfolding plan_context
plan_context-IsBounded_example =
    plan_context-IsBounded defaults crowded call (run ∷ skills ∷ []) 8_001 3_900 crowded_plan
      (omega arith) refl refl refl

abbrev roomy : ModelWindow
roomy = record { context = some 100_000; output = none; used_tokens = none }

abbrev roomy_plan : ContextPlan
roomy_plan = known_plan defaults 100_000 roomy call (run ∷ skills ∷ environment ∷ [])

-- The summary of the run leaves most of its share to the environment; the skills are not rendered.
Renders-within_example : spent_bytes ((run, 400) ∷ (environment, 4_000) ∷ []) ≤ roomy_plan.normal
unfolding plan_context known_plan allow spend
Renders-within_example =
    Renders-within defaults roomy call (run ∷ skills ∷ environment ∷ []) 100_000 roomy_plan
      ((run, 400) ∷ (environment, 4_000) ∷ []) refl refl
      (rendered 400 4_615 refl (omega arith)
        (left_out (rendered 4_000 6_522 refl (omega arith) finished)))

-- A question, its measured reply, and a question after it.
abbrev question : UsageMessage
question = record { assistant = false; summary = false; tokens = none; parts_bytes = 900 }

abbrev reply : UsageMessage
reply = record {
  assistant = true;
  summary = false;
  tokens = some (record { input = 1_000; output = 50; cache_read = 200; cache_write = 0 });
  parts_bytes = 5_000;
}

estimate-measured_example :
    estimate_used_tokens (question ∷ reply ∷ question ∷ []) 3_000
    ≡ some (
        prompt_tokens reply.summary reply.tokens
        + output_tokens reply.tokens
        + tokens_for 3_000 (tail_bytes (question ∷ [])))
unfolding is_measured last_measured
estimate-measured_example = estimate-measured (question ∷ []) (question ∷ []) reply 3_000 refl refl

estimated : estimate_used_tokens (question ∷ reply ∷ question ∷ []) 3_000 ≡ some 1_550
unfolding estimate_used_tokens
estimated = refl

serve_all-IsSmall_example :
    length (
      serve_all defaults 1
        (model_hook "a" (some (some 8_000, none)) ∷ message_hook "b" (question ∷ []) ∷ [])
        [])
    ≤ 1
serve_all-IsSmall_example =
    serve_all-IsSmall defaults 1
      (model_hook "a" (some (some 8_000, none)) ∷ message_hook "b" (question ∷ []) ∷ [])

window-record_plan_example :
    let after = record_plan 2 "a" compaction_prompt 70 (record_plan 2 "a" call 600 []) in
    (window defaults "a" after ≡ window defaults "a" [])
    × ((window defaults "a"
          (observe_messages defaults 2 "a" (question ∷ reply ∷ []) after)).used_tokens
        ≡ some (1_250 - tokens_for 3_000 600))
unfolding estimate_used_tokens
window-record_plan_example =
    window-record_plan defaults 2 "a" 600 70 1_250 (question ∷ reply ∷ []) [] refl
