-- ===== src/Context/Plan.antt =====
-- `planContext`. Tokens and bytes are whole numbers, and each fraction of the options is given in
-- thousandths, so that a product of two of them is in millionths; products are rounded down once.
use opencode_alg.Base.{
  ℕ, zero, suc, ◌+◌, ◌-◌, ◌*◌, ◌/◌, min, max, Bool, true, false, ◌||◌, Option, none, some, List, [],
  ◌∷◌, ltb, if◌then◌else◌, length,
}

pub data ContextPart : Type 0 where
  run skills memory environment : ContextPart

abbrev pub same_part : ContextPart → ContextPart → Bool
same_part run run = true
same_part skills skills = true
same_part memory memory = true
same_part environment environment = true
same_part _ _ = false

-- `parts.includes(part)`
abbrev pub includes : ContextPart → List ContextPart → Bool
includes part [] = false
includes part (p ∷ parts) = same_part p part || includes part parts

abbrev keep : Bool → ContextPart → List ContextPart → List ContextPart
keep true part parts = part ∷ parts
keep false part parts = parts

-- `CONTEXT_PARTS.filter(…)`
unfoldable pub active_parts : List ContextPart → List ContextPart
active_parts parts = keep (includes run parts) run (
    keep (includes skills parts) skills
      (keep (includes memory parts) memory (keep (includes environment parts) environment [])))

-- `ContextBudgetOptions`, fractions in thousandths.
pub record ContextBudgetOptions : Type 0 where
  pub per_call : ℕ
  pub compaction : ℕ
  pub normal : ℕ
  pub of_available : ℕ
  pub shares : ContextPart → ℕ
  pub bytes_per_token : ℕ
  pub floor_bytes : ℕ

pub record ModelWindow : Type 0 where
  pub context : Option ℕ
  pub output : Option ℕ
  pub used_tokens : Option ℕ

pub data CallKind : Type 0 where
  call compaction_prompt : CallKind

abbrev pub call_share : ContextBudgetOptions → CallKind → ℕ
call_share options compaction_prompt = options.compaction
call_share options call = options.per_call

-- `positive`
abbrev pub positive : Option ℕ → Option ℕ
positive none = none
positive (some zero) = none
positive (some (suc n)) = some (suc n)

-- Twice the tokens kept for the reply: at most half the window, which may be odd.
unfoldable pub double_reply : (context : ℕ) → (output : Option ℕ) → ℕ
double_reply context output = elim (positive output) [ none ↦ 0 | some n ↦ min (2 * n) context ]

unfoldable pub double_available : (context used : ℕ) → (output : Option ℕ) → ℕ
unfolding double_reply
double_available context used output = 2 * context - double_reply context output - 2 * used

-- The tokens of the plan, in units of a two thousandth.
unfoldable pub planned_tokens : ContextBudgetOptions → (context : ℕ) → ModelWindow → CallKind → ℕ
unfolding double_available
planned_tokens options context window kind =
    let shared = 2 * context * call_share options kind in
    elim window.used_tokens [
      | none ↦ shared
      | some used ↦
          let from_available = double_available context used window.output * options.of_available in
          if ltb from_available shared then from_available else shared
    ]

unfoldable pub ordinary_bytes : ContextBudgetOptions → (context : ℕ) → ModelWindow → CallKind → ℕ
unfolding planned_tokens
ordinary_bytes options context window kind =
    planned_tokens options context window kind * options.bytes_per_token / 2_000_000

abbrev pub free_tokens : (context : ℕ) → Option ℕ → ℕ
free_tokens context none = 0
free_tokens context (some used) = context - used

unfoldable pub physical_bytes : ContextBudgetOptions → (context : ℕ) → ModelWindow → ℕ
physical_bytes options context window =
    free_tokens context window.used_tokens * options.bytes_per_token / 1_000

unfoldable pub share_bytes : ContextBudgetOptions → (context : ℕ) → CallKind → ℕ
share_bytes options context kind =
    context * call_share options kind * options.bytes_per_token / 1_000_000

unfoldable pub recovery_bytes : ContextBudgetOptions → (context : ℕ) → ModelWindow → CallKind → ℕ
unfolding physical_bytes share_bytes
recovery_bytes options context window kind =
    min options.floor_bytes
      (min (physical_bytes options context window) (share_bytes options context kind))

unfoldable pub total_bytes : ContextBudgetOptions → (context : ℕ) → ModelWindow → CallKind → ℕ
unfolding ordinary_bytes recovery_bytes
total_bytes options context window kind =
    max (ordinary_bytes options context window kind) (recovery_bytes options context window kind)

unfoldable pub normal_bytes :
    ContextBudgetOptions → (context : ℕ) → ModelWindow → CallKind → List ContextPart → ℕ
unfolding ordinary_bytes
normal_bytes options context window kind active =
    let ordinary = ordinary_bytes options context window kind in
    if includes memory active
    then min ordinary (context * options.normal * options.bytes_per_token / 1_000_000)
    else ordinary

-- The sum of a number over the parts.
unfoldable pub sum_over : (ContextPart → ℕ) → List ContextPart → ℕ
sum_over f [] = 0
sum_over f (part ∷ parts) = f part + sum_over f parts

-- A part's entry of `base`.
unfoldable pub base_share :
    (shares : ContextPart → ℕ) → (normal : ℕ) → List ContextPart → ContextPart → ℕ
unfolding sum_over
base_share shares normal active part =
    let weights = sum_over shares active in
    if ltb 0 weights then normal * shares part / weights else normal / max 1 (length active)

-- The map `spent`, in the order of first insertion.
abbrev pub Spent : Type 0
Spent = List (ContextPart × ℕ)

unfoldable pub spent_on : ContextPart → Spent → Option ℕ
spent_on part [] = none
spent_on part ((p, bytes) ∷ spent) = if same_part p part then some bytes else spent_on part spent

abbrev pub or_zero : Option ℕ → ℕ
or_zero none = 0
or_zero (some n) = n

-- `spend`, of a number of bytes that is not negative.
unfoldable pub spend : ContextPart → ℕ → Spent → Spent
spend part bytes [] = (part, bytes) ∷ []
spend part bytes ((p, n) ∷ spent) =
    if same_part p part then (p, n + bytes) ∷ spent else (p, n) ∷ spend part bytes spent

unfoldable pub spent_bytes : Spent → ℕ
spent_bytes [] = 0
spent_bytes ((p, bytes) ∷ spent) = bytes + spent_bytes spent

abbrev carried_of : ℕ → Option ℕ → ℕ
carried_of base none = 0
carried_of base (some bytes) = base - bytes

-- The parts before the given one; `none` where it is not among them.
unfoldable pub earlier_parts : ContextPart → List ContextPart → Option (List ContextPart)
earlier_parts part [] = none
earlier_parts part (p ∷ parts) =
    let rest = earlier_parts part parts in
    if same_part p part then some [] else elim rest [ none ↦ none | some ps ↦ some (p ∷ ps) ]

module _ (base : ContextPart → ℕ) (spent : Spent) where
  unfoldable pub carried : List ContextPart → ℕ
  unfolding spent_on sum_over
  carried earlier = sum_over (λ p. carried_of (base p) (spent_on p spent)) earlier

  unfoldable pub overspent : List ContextPart → ℕ
  unfolding spent_on sum_over
  overspent earlier = sum_over (λ p. or_zero (spent_on p spent) - base p) earlier

  unfoldable pub allow : (active : List ContextPart) → ContextPart → Option ℕ
  unfolding carried overspent spent_on earlier_parts
  allow active part = elim (earlier_parts part active) [
    | none ↦ none
    | some earlier ↦
        some (base part + carried earlier - overspent earlier - or_zero (spent_on part spent))
  ]

unfoldable pub allow_required :
    (total : ℕ) → Spent → (active : List ContextPart) → ContextPart → Option ℕ
unfolding spent_bytes
allow_required total spent active part =
    if includes part active then some (total - spent_bytes spent) else none

-- What the plan fixes before anything is spent; `none` where the window is not known.
pub record ContextPlan : Type 0 where
  pub total : ℕ
  pub recovery : ℕ
  pub normal : ℕ
  pub active : List ContextPart
  pub base : ContextPart → ℕ

-- The plan for a window whose size is known.
unfoldable pub known_plan :
    ContextBudgetOptions → (context : ℕ) → ModelWindow → CallKind → List ContextPart → ContextPlan
unfolding active_parts total_bytes recovery_bytes normal_bytes base_share
known_plan options context window kind parts =
    let active = active_parts parts in
    let normal = normal_bytes options context window kind active in
    record {
      total = total_bytes options context window kind;
      recovery = recovery_bytes options context window kind;
      normal = normal;
      active = active;
      base = base_share options.shares normal active;
    }

unfoldable pub plan_context :
    ContextBudgetOptions → ModelWindow → CallKind → List ContextPart → Option ContextPlan
unfolding known_plan
plan_context options window kind parts = elim (positive window.context) [
  | none ↦ none
  | some context ↦ some (known_plan options context window kind parts)
]
