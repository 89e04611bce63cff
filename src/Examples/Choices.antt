-- ===== src/Examples/Choices.antt =====
-- A project that selects a model for its checker, over a host with a default model.
use opencode_alg.Base.{true, none, some, [], ◌∷◌, ◌++◌, ◌≡◌, refl, arith}
use opencode_alg.Models.{
  Units, explorer, checker, implementer, of_agent, repair, ModelRef, AgentModelMap, Config, slash,
  parse_configured_model, role_model, agent_names, configured_model_resolutions,
  snapshot_model_resolutions, model_snapshot,
}
use opencode_alg.Models.Settings.{
  ModelSettings, stored, saved, refused, changed_concurrently, load, parse_optional, table,
  set_agent_model,
}
use opencode_alg.Models.Settings.Saved.{set_agent_model-kept}
use opencode_alg.Models.Effective.{
  first_of, model_snapshot-effective, parse_configured_model-append,
}

-- Texts without spaces at their ends.
abbrev as_it_is : Units → Units
as_it_is text = text

abbrev provider : Units
provider = b'a' ∷ b'i' ∷ []

abbrev small : Units
small = b's' ∷ slash ∷ b'1' ∷ []

abbrev small_model : ModelRef
small_model = record { provider_id = provider; model_id = small; variant = none }

abbrev large_model : ModelRef
large_model = record { provider_id = provider; model_id = b'l' ∷ []; variant = none }

abbrev selections : AgentModelMap
selections checker = some large_model
selections _ = none

abbrev no_models : AgentModelMap
no_models _ = none

abbrev host : Config
host = record { model = some (provider ++ slash ∷ small); agent = λ name. none }

model_snapshot-effective_example :
    let resolutions =
      snapshot_model_resolutions selections
        (some (configured_model_resolutions as_it_is host))
        no_models in
    (model_snapshot resolutions explorer
      ≡ first_of none (
          first_of
            (role_model as_it_is host (agent_names as_it_is explorer))
            (parse_configured_model as_it_is host.model)))
    × (resolutions repair ≡ resolutions (of_agent implementer))
model_snapshot-effective_example =
    model_snapshot-effective as_it_is selections no_models host explorer

explored :
    model_snapshot
      (snapshot_model_resolutions selections
        (some (configured_model_resolutions as_it_is host))
        no_models)
      explorer
    ≡ some small_model
unfolding model_snapshot snapshot_model_resolutions configured_model_resolutions
explored = refl

parse_configured_model-append_example :
    parse_configured_model as_it_is (some (provider ++ slash ∷ small)) ≡ some small_model
parse_configured_model-append_example =
    parse_configured_model-append as_it_is provider small refl refl refl (omega arith) (omega arith)
      (omega arith) (omega arith)

-- Two selections of the third revision; the checker's is replaced.
abbrev current_settings : ModelSettings
current_settings = record {
  revision = 3;
  models = table as_it_is none none (some small_model) none;
}

abbrev next_settings : ModelSettings
next_settings = record {
  revision = 4;
  models = table as_it_is none none (some small_model) (some large_model);
}

set_agent_model-kept_example :
    (next_settings.revision ≡ 4)
    × (parse_optional as_it_is (current_settings.models implementer)
        ≡ saved (next_settings.models implementer))
unfolding load set_agent_model
set_agent_model-kept_example =
    set_agent_model-kept as_it_is true (stored current_settings) (stored current_settings) checker
      implementer (some large_model) (some 3) current_settings current_settings next_settings refl
      refl (omega arith, omega arith) (λ h. refl) refl refl

overtaken :
    set_agent_model as_it_is true (stored current_settings) (stored next_settings) checker none none
    ≡ refused changed_concurrently
unfolding set_agent_model
overtaken = refl
