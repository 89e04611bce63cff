-- ===== src/Models.antt =====
-- src/models.ts: which model each role of a run uses. A text is the list of its UTF-16 units, and
-- `trim` is a parameter; a table by roles is a function.
pub mod Effective
pub mod Settings
use opencode_alg.Base.{
  ℕ, String, Bool, true, false, ◌&&◌, Option, none, some, List, [], ◌∷◌, leb, ltb, nat_eq,
  if◌then◌else◌, length,
}

abbrev pub Units : Type 0
Units = List ℕ

pub data ModelAgent : Type 0 where
  explorer researcher implementer checker : ModelAgent

-- The roles that are no agents of a graph.
pub data ModelRole : Type 0 where
  of_agent : ModelAgent → ModelRole
  planner repair default_role : ModelRole

pub record ModelRef : Type 0 where
  pub provider_id : Units
  pub model_id : Units
  pub variant : Option Units

pub data ModelResolutionSource : Type 0 where
  alg_project_override opencode_role_config opencode_top_level_default inherited_sdk_default
        legacy_unknown :
      ModelResolutionSource

-- `ModelResolutionSchema` has both identifiers, neither of them empty, or none of them, and a variant
-- only with them: the three fields are one optional model.
pub record ModelResolution : Type 0 where
  pub source : ModelResolutionSource
  pub model : Option ModelRef

abbrev pub ModelResolutionMap : Type 0
ModelResolutionMap = ModelRole → ModelResolution

abbrev pub AgentModelMap : Type 0
AgentModelMap = ModelAgent → Option ModelRef

-- A value of the host's configuration: `none` where it is no string.
pub record AgentConfig : Type 0 where
  pub model : Option Units
  pub variant : Option Units

pub record Config : Type 0 where
  pub model : Option Units
  pub agent : String → Option AgentConfig

abbrev pub resolved : ModelRef → ModelResolutionSource → ModelResolution
resolved model source = record { source = source; model = some model }

abbrev pub inherited : ModelResolutionSource → ModelResolution
inherited source = record { source = source; model = none }

abbrev pub slash : ℕ
slash = b'/'

-- The parts before and after the first slash; `none` where there is none.
unfoldable pub split_slash : Units → Option (Units × Units)
split_slash [] = none
split_slash (c ∷ cs) =
    let rest = split_slash cs in
    if nat_eq c slash
    then some ([], cs)
    else elim rest [ none ↦ none | some (provider, model) ↦ some (c ∷ provider, model) ]

module _ (trim : Units → Units) where
  -- A trimmed text of 1 to `maximum` units.
  unfoldable pub bounded_text : (maximum : ℕ) → Units → Option Units
  bounded_text maximum text =
      let trimmed = trim text in
      if ltb 0 (length trimmed) && leb (length trimmed) maximum then some trimmed else none

  -- `ModelRefSchema`, without a variant.
  unfoldable pub parse_ref : (provider model : Units) → Option ModelRef
  unfolding bounded_text
  parse_ref provider model = do
    p ← bounded_text 128 provider
    m ← bounded_text 256 model
    some (record { provider_id = p; model_id = m; variant = none })
    where
      infixl 5 ◌>>=◌
      ◌>>=◌ : {A B : Type 0} → Option A → (A → Option B) → Option B
      none >>= f = none
      some a >>= f = f a

  abbrev pub parse_parts : Option (Units × Units) → Option ModelRef
  parse_parts none = none
  parse_parts (some ([], model)) = none
  parse_parts (some (provider, [])) = none
  parse_parts (some (c ∷ provider, d ∷ model)) = parse_ref (c ∷ provider) (d ∷ model)

  unfoldable pub parse_configured_model : Option Units → Option ModelRef
  unfolding split_slash parse_ref
  parse_configured_model none = none
  parse_configured_model (some value) = parse_parts (split_slash value)

  abbrev model_value : Option AgentConfig → Option Units
  model_value none = none
  model_value (some c) = c.model

  abbrev pub parsed_variant : Option Units → Option Units
  parsed_variant none = none
  parsed_variant (some text) = bounded_text 128 text

  abbrev pub variant_value : Option AgentConfig → Option Units
  variant_value none = none
  variant_value (some c) = parsed_variant c.variant

  -- The first of the names whose model parses.
  unfoldable pub role_model : Config → List String → Option ModelRef
  unfolding parse_configured_model bounded_text
  role_model config [] = none
  role_model config (name ∷ names) =
      let rest = role_model config names in
      elim (parse_configured_model (model_value (config.agent name))) [
        | none ↦ rest
        | some explicit ↦ some (record {
          provider_id = explicit.provider_id;
          model_id = explicit.model_id;
          variant = variant_value (config.agent name);
        })
      ]

  abbrev pub agent_names : ModelAgent → List String
  agent_names explorer = "explorer" ∷ []
  agent_names researcher = "researcher" ∷ []
  agent_names implementer = "implementer" ∷ []
  agent_names checker = "checker" ∷ []

  abbrev pub top_level : Option ModelRef → ModelResolution
  top_level none = inherited inherited_sdk_default
  top_level (some fallback) = resolved fallback opencode_top_level_default

  abbrev pub role_or_default : Option ModelRef → Option ModelRef → ModelResolution
  role_or_default (some explicit) fallback = resolved explicit opencode_role_config
  role_or_default none fallback = top_level fallback

  unfoldable pub agent_resolution : Config → List String → ModelResolution
  unfolding role_model parse_configured_model
  agent_resolution config names =
      role_or_default (role_model config names) (parse_configured_model config.model)

  -- Repair attempts are retries of the implementer, and use its selection.
  unfoldable pub configured_model_resolutions : Config → ModelResolutionMap
  unfolding agent_resolution
  configured_model_resolutions config planner =
      agent_resolution config ("planner" ∷ "orchestrator" ∷ [])
  configured_model_resolutions config (of_agent agent) = agent_resolution config (agent_names agent)
  configured_model_resolutions config repair = agent_resolution config (agent_names implementer)
  configured_model_resolutions config default_role = top_level (parse_configured_model config.model)

-- `modelSnapshotFromResolution`
unfoldable pub model_snapshot : ModelResolutionMap → AgentModelMap
model_snapshot resolutions agent = (resolutions (of_agent agent)).model

abbrev pub or_base : Option ModelRef → ModelResolutionSource → ModelResolution → ModelResolution
or_base none source base = base
or_base (some model) source base = resolved model source

-- A table over a base: models of agents stand over it, and repair follows the implementer.
unfoldable pub overlay :
    AgentModelMap → ModelResolutionSource → ModelResolutionMap → ModelResolutionMap
overlay models source base (of_agent agent) = or_base (models agent) source (base (of_agent agent))
overlay models source base planner = base planner
overlay models source base default_role = base default_role
overlay models source base repair =
    or_base (models implementer) source (base (of_agent implementer))

abbrev pub no_resolution : ModelResolutionSource → ModelResolutionMap
no_resolution source role = inherited source

-- The project's selections over the captured configuration, or over the models of older callers.
unfoldable pub snapshot_model_resolutions :
    (project : AgentModelMap)
    → (configured : Option ModelResolutionMap) → (legacy : AgentModelMap) → ModelResolutionMap
unfolding overlay
snapshot_model_resolutions project (some configured) legacy =
    overlay project alg_project_override configured
snapshot_model_resolutions project none legacy =
    overlay project alg_project_override
      (overlay legacy legacy_unknown (no_resolution inherited_sdk_default))

-- `modelResolutionsForRun`, of a run with the resolutions it stores, if any.
unfoldable pub model_resolutions_for_run :
    (stored : Option ModelResolutionMap) → (snapshot : AgentModelMap) → ModelResolutionMap
unfolding overlay
model_resolutions_for_run (some resolutions) snapshot = resolutions
model_resolutions_for_run none snapshot =
    overlay snapshot legacy_unknown (no_resolution legacy_unknown)
