-- ===== src/Models/Effective.antt =====
-- Which model an agent gets, and configured models written as texts.
use opencode_alg.Base.{
  ℕ, true, Option, none, some, [], ◌∷◌, ◌++◌, nat_eq, ◌≤◌, ◌<◌, length, ◌≡◌, refl, arith, every,
  not,
}
use opencode_alg.Models.{
  Units, ModelAgent, of_agent, repair, implementer, ModelRef, AgentModelMap, Config, slash,
  split_slash, bounded_text, parse_ref, parse_parts, parse_configured_model, role_model,
  agent_names, configured_model_resolutions, model_snapshot, snapshot_model_resolutions, or_base,
  role_or_default, alg_project_override,
}

abbrev pub first_of : Option ModelRef → Option ModelRef → Option ModelRef
first_of none other = other
first_of (some model) other = some model

chosen :
    (trim : Units → Units) (project role default : Option ModelRef)
    → (or_base project alg_project_override (role_or_default trim role default)).model
      ≡ first_of project (first_of role default)
chosen trim (some p) r d = refl
chosen trim none (some r) d = refl
chosen trim none none (some d) = refl
chosen trim none none none = refl

-- Whatever the project selects and the host's configuration says, an agent gets the project's model,
-- else the model of its role, else the top-level one, else none of its own; repair attempts resolve
-- as the implementer does.
pub model_snapshot-effective :
    (trim : Units → Units) (project legacy : AgentModelMap) (config : Config) (agent : ModelAgent)
    → let resolutions =
        snapshot_model_resolutions project
          (some (configured_model_resolutions trim config))
          legacy in
      (model_snapshot resolutions agent
        ≡ first_of (project agent) (
            first_of
              (role_model trim config (agent_names trim agent))
              (parse_configured_model trim config.model)))
      × (resolutions repair ≡ resolutions (of_agent implementer))
unfolding model_snapshot snapshot_model_resolutions configured_model_resolutions
model_snapshot-effective trim project legacy config agent = (
  chosen trim (project agent) (role_model trim config (agent_names trim agent))
      (parse_configured_model trim config.model),
  refl,
)

-- No slash stands in the text.
abbrev pub IsPlain : Units → Type 0
IsPlain text = every (λ (c : ℕ). not (nat_eq c slash)) text ≡ true

split_slash-append :
    (provider model : Units)
    → IsPlain provider
    → split_slash (provider ++ slash ∷ model) ≡ some (provider, model)
unfolding split_slash
split_slash-append [] model plain = refl
split_slash-append (c ∷ provider) model plain = ground (arith, split_slash-append provider model)

bounded_text-bounded :
    (trim : Units → Units) (maximum : ℕ) (text : Units)
    → trim text ≡ text
    → 0 < length text
    → length text ≤ maximum
    → bounded_text trim maximum text ≡ some text
unfolding bounded_text
bounded_text-bounded trim maximum text e positive le = rw (e, bounded_text) (ground arith)

-- A model that is written as its provider, a slash and its name is read back, where the provider has
-- no slash, and both are trimmed and within their limits.
pub parse_configured_model-append :
    (trim : Units → Units) (provider model : Units)
    → IsPlain provider
    → trim provider ≡ provider
    → trim model ≡ model
    → 0 < length provider
    → length provider ≤ 128
    → 0 < length model
    → length model ≤ 256
    → parse_configured_model trim (some (provider ++ slash ∷ model))
      ≡ some (record { provider_id = provider; model_id = model; variant = none })
unfolding parse_configured_model
parse_configured_model-append trim provider model plain tp tm p0 p1 m0 m1 =
    rw (split_slash-append provider model plain) (parts provider model tp tm p0 p1 m0 m1)
  where
    parts :
        (provider model : Units)
        → trim provider ≡ provider
        → trim model ≡ model
        → 0 < length provider
        → length provider ≤ 128
        → 0 < length model
        → length model ≤ 256
        → parse_parts trim (some (provider, model))
          ≡ some (record { provider_id = provider; model_id = model; variant = none })
    parts [] model tp tm p0 p1 m0 m1 = absurd (omega arith)
    parts (c ∷ provider) [] tp tm p0 p1 m0 m1 = absurd (omega arith)
    parts (c ∷ provider) (d ∷ model) tp tm p0 p1 m0 m1 =
        rw
          (
            parse_ref,
            bounded_text-bounded trim 128 (c ∷ provider) tp p0 p1,
            bounded_text-bounded trim 256 (d ∷ model) tm m0 m1,
          )
          refl
