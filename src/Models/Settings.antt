-- ===== src/Models/Settings.antt =====
-- The project's model settings: `loadModelSettings`, `saveModelSettings`, `setAgentModel` and
-- `setAgentModelVariant`. Between the two readings of an update another writer may save.
pub mod Saved
use opencode_alg.Base.{ℕ, suc, Bool, true, false, Option, none, some, nat_eq, if◌then◌else◌}
use opencode_alg.Models.{
  Units, ModelAgent, explorer, researcher, implementer, checker, ModelRef, AgentModelMap,
  bounded_text,
}

pub record ModelSettings : Type 0 where
  pub revision : ℕ
  pub models : AgentModelMap

pub data SettingsFile : Type 0 where
  absent corrupt : SettingsFile
  stored : ModelSettings → SettingsFile

pub data SettingsError : Type 0 where
  locked corrupt_settings invalid_model changed_concurrently no_selection : SettingsError

pub data SettingsResult (A : Type 0) : Type 0 where
  saved : A → SettingsResult A
  refused : SettingsError → SettingsResult A

infixl 5 ◌>>=◌
abbrev pub ◌>>=◌ : {A B : Type 0} → SettingsResult A → (A → SettingsResult B) → SettingsResult B
saved a >>= f = f a
refused e >>= f = refused e

abbrev pub or_refused : {A : Type 0} → Option A → SettingsError → SettingsResult A
or_refused none error = refused error
or_refused (some a) error = saved a

-- A file that does not parse is moved away, and the load fails.
unfoldable pub load : SettingsFile → SettingsResult ModelSettings
load absent = saved (record { revision = 0; models = λ agent. none })
load corrupt = refused corrupt_settings
load (stored settings) = saved settings

abbrev pub same_agent : ModelAgent → ModelAgent → Bool
same_agent explorer explorer = true
same_agent researcher researcher = true
same_agent implementer implementer = true
same_agent checker checker = true
same_agent _ _ = false

-- `{ ...models, [agent]: model }`, or without the agent.
unfoldable pub with_agent : ModelAgent → Option ModelRef → AgentModelMap → AgentModelMap
with_agent agent model models other = if same_agent agent other then model else models other

module _ (trim : Units → Units) where
  abbrev optional_text : Option Units → Option (Option Units)
  optional_text none = some none
  optional_text (some text) = elim (bounded_text trim 128 text) [
    | none ↦ none
    | some t ↦ some (some t)
  ]

  unfoldable pub parse_model : ModelRef → SettingsResult ModelRef
  unfolding bounded_text
  parse_model model = do
    p ← or_refused (bounded_text trim 128 model.provider_id) invalid_model
    m ← or_refused (bounded_text trim 256 model.model_id) invalid_model
    v ← or_refused (optional_text model.variant) invalid_model
    saved (record { provider_id = p; model_id = m; variant = v })

  unfoldable pub parse_optional : Option ModelRef → SettingsResult (Option ModelRef)
  unfolding parse_model
  parse_optional none = saved none
  parse_optional (some model) = do m ← parse_model model; saved (some m)

  abbrev pub table : (e r i c : Option ModelRef) → AgentModelMap
  table e r i c explorer = e
  table e r i c researcher = r
  table e r i c implementer = i
  table e r i c checker = c

  -- `AgentModelMapSchema`
  unfoldable pub parse_models : AgentModelMap → SettingsResult AgentModelMap
  unfolding parse_optional
  parse_models models = do
    e ← parse_optional (models explorer)
    r ← parse_optional (models researcher)
    i ← parse_optional (models implementer)
    c ← parse_optional (models checker)
    saved (table e r i c)

  abbrev is_expected : Option ℕ → ℕ → Bool
  is_expected none revision = true
  is_expected (some previous) revision = nat_eq revision previous

  abbrev pub require_expected : Option ℕ → ModelSettings → SettingsResult (Unit {0})
  require_expected expected previous =
      if is_expected expected previous.revision then saved tt else refused changed_concurrently

  abbrev pub require_free : Bool → SettingsResult (Unit {0})
  require_free free = if free then saved tt else refused locked

  unfoldable pub save_model_settings :
      (free : Bool)
      → SettingsFile
      → AgentModelMap
      → (expected : Option ℕ) → SettingsResult ModelSettings
  unfolding parse_models load
  save_model_settings free file models expected = do
    _ ← require_free free
    parsed ← parse_models models
    previous ← load file
    _ ← require_expected expected previous
    saved (record { revision = suc previous.revision; models = parsed })

  abbrev pub or_revision : Option ℕ → ℕ → Option ℕ
  or_revision none revision = some revision
  or_revision (some previous) revision = some previous

  -- The file is read first, and again under the lock.
  unfoldable pub set_agent_model :
      (free : Bool)
      → (before file : SettingsFile) → ModelAgent
      → Option ModelRef
      → (expected : Option ℕ) → SettingsResult ModelSettings
  unfolding load parse_optional with_agent save_model_settings
  set_agent_model free before file agent model expected = do
    current ← load before
    parsed ← parse_optional model
    save_model_settings free file (with_agent agent parsed current.models)
        (or_revision expected current.revision)

  unfoldable pub set_agent_model_variant :
      (free : Bool)
      → (before file : SettingsFile) → ModelAgent
      → Option Units
      → (expected : Option ℕ) → SettingsResult ModelSettings
  unfolding load parse_model with_agent save_model_settings
  set_agent_model_variant free before file agent variant expected = do
    current ← load before
    selected ← or_refused (current.models agent) no_selection
    parsed ← parse_model (record {
      provider_id = selected.provider_id;
      model_id = selected.model_id;
      variant = variant;
    })
    save_model_settings free file (with_agent agent (some parsed) current.models)
        (or_revision expected current.revision)
