-- ===== src/Context/Bounds.antt =====
-- The bounds of a plan.
use opencode_alg.Base.{
  ℕ, ◌-◌, ◌*◌, ◌/◌, ◌≤◌, min, some, List, ◌≡◌, refl, sym, subst, if_ind, Option-cases, inl, inr,
  arith, ap, ◌∙◌,
}
use opencode_alg.Context.Plan.{
  ContextPart, ContextBudgetOptions, ModelWindow, CallKind, ContextPlan, call_share, positive,
  active_parts, double_available, planned_tokens, ordinary_bytes, free_tokens, physical_bytes,
  share_bytes, recovery_bytes, total_bytes, normal_bytes, plan_context, known_plan, memory,
  includes,
}
use native.Mathlib.Nat.{mul-le-mul, mul-le-mul_right, mul_assoc}

module _ (options : ContextBudgetOptions) (context : ℕ) (window : ModelWindow)
    (kind : CallKind) where
  planned_tokens-shared :
      planned_tokens options context window kind ≤ 2 * context * call_share options kind
  unfolding planned_tokens
  planned_tokens-shared = elim (Option-cases window.used_tokens) [
    | inl e ↦ rw (e, planned_tokens) (omega arith)
    | inr (used, e) ↦ rw (e, planned_tokens) (ground arith)
  ]

  planned_tokens-free :
      (used : ℕ)
      → window.used_tokens ≡ some used
      → options.of_available ≤ 1_000
      → planned_tokens options context window kind ≤ 2_000 * (context - used)
  unfolding planned_tokens double_available
  planned_tokens-free used e h =
      let free : double_available context used window.output ≤ 2 * (context - used) = omega arith in
      let most = mul-le-mul free h in rw (e, planned_tokens) (ground (arith, most))

  ordinary_bytes-share :
      ordinary_bytes options context window kind ≤ share_bytes options context kind
  unfolding ordinary_bytes share_bytes
  ordinary_bytes-share =
      let most = mul-le-mul_right options.bytes_per_token planned_tokens-shared in
      omega (
        arith,
        most,
        mul_assoc 2 (context * call_share options kind) options.bytes_per_token,
        mul_assoc 2 context (call_share options kind),
      )

  ordinary_bytes-physical :
      (used : ℕ)
      → window.used_tokens ≡ some used
      → options.of_available ≤ 1_000
      → ordinary_bytes options context window kind ≤ physical_bytes options context window
  unfolding ordinary_bytes physical_bytes
  ordinary_bytes-physical used e h =
      let most = mul-le-mul_right options.bytes_per_token (planned_tokens-free used e h) in
      let free : free_tokens context window.used_tokens * options.bytes_per_token
          ≡ (context - used) * options.bytes_per_token =
        ap (λ o. free_tokens context o * options.bytes_per_token) e in
      omega (arith, most, free, mul_assoc 2_000 (context - used) options.bytes_per_token)

pub plan_context-known :
    (options : ContextBudgetOptions) (window : ModelWindow) (kind : CallKind)
    (parts : List ContextPart) (context : ℕ) (plan : ContextPlan)
    → positive window.context ≡ some context
    → plan_context options window kind parts ≡ some plan
    → known_plan options context window kind parts ≡ plan
unfolding plan_context
plan_context-known options window kind parts context plan w p =
    let again : some (known_plan options context window kind parts) ≡ some plan =
      sym (rw (w, plan_context) refl) ∙ p in
    cc

abbrev IsBounded :
    ContextBudgetOptions → (context used : ℕ) → ModelWindow → CallKind → ContextPlan → Type 0
IsBounded options context used window kind plan =
    (plan.total ≤ share_bytes options context kind)
    × (plan.total ≤ (context - used) * options.bytes_per_token / 1_000)
    × (plan.normal ≤ plan.total)
    × (min options.floor_bytes
          (min (physical_bytes options context window) (share_bytes options context kind))
        ≤ plan.total)

known_plan-IsBounded :
    (options : ContextBudgetOptions) (window : ModelWindow) (kind : CallKind)
    (parts : List ContextPart) (context used : ℕ)
    → options.of_available ≤ 1_000
    → window.used_tokens ≡ some used
    → IsBounded options context used window kind (known_plan options context window kind parts)
unfolding known_plan total_bytes recovery_bytes normal_bytes
known_plan-IsBounded options window kind parts context used h u =
    let shared = ordinary_bytes-share options context window kind in
    let physical = ordinary_bytes-physical options context window kind used u h in
    let free : physical_bytes options context window
        ≡ (context - used) * options.bytes_per_token / 1_000 =
      rw (u, physical_bytes) refl in
    (
      omega (arith),
      omega (arith),
      if_ind (λ n. n ≤ total_bytes options context window kind)
          (includes memory (active_parts parts)) (λ _. omega arith) (λ _. omega arith),
      omega arith,
    )

-- Where at most all of what is free may be planned, a plan for a window of known size and use grants
-- no more than the share of the window and no more than its free tokens hold; the normal target
-- lies within it, and so does the recovery reserve, cut to the share and to the free tokens.
pub plan_context-IsBounded :
    (options : ContextBudgetOptions) (window : ModelWindow) (kind : CallKind)
    (parts : List ContextPart) (context used : ℕ) (plan : ContextPlan)
    → options.of_available ≤ 1_000
    → positive window.context ≡ some context
    → window.used_tokens ≡ some used
    → plan_context options window kind parts ≡ some plan
    → (plan.total ≤ share_bytes options context kind)
      × (plan.total ≤ (context - used) * options.bytes_per_token / 1_000)
      × (plan.normal ≤ plan.total)
      × (min options.floor_bytes
            (min (physical_bytes options context window) (share_bytes options context kind))
          ≤ plan.total)
plan_context-IsBounded options window kind parts context used plan h w u p =
    subst (IsBounded options context used window kind)
      (plan_context-known options window kind parts context plan w p)
      (known_plan-IsBounded options window kind parts context used h u)
