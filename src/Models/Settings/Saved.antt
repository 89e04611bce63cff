-- ===== src/Models/Settings/Saved.antt =====
-- An update of one agent's model loses no update of another.
use opencode_alg.Base.{
  ℕ, suc, ◌≤◌, Bool, false, Option, none, some, nat_eq, ◌≡◌, refl, sym, ◌∙◌, ap, subst, arith,
  if_ind,
}
use opencode_alg.Models.{
  Units, ModelAgent, explorer, researcher, implementer, checker, ModelRef, AgentModelMap,
}
use opencode_alg.Models.Settings.{
  ModelSettings, SettingsFile, SettingsResult, saved, refused, ◌>>=◌, load, same_agent, with_agent,
  parse_optional, table, parse_models, require_expected, require_free, or_revision,
  save_model_settings, set_agent_model,
}

-- A result, where there is one, has a property.
abbrev Holds : {A : Type 0} → (A → Type 0) → SettingsResult A → Type 0
Holds P (saved a) = P a
Holds P (refused e) = Unit

Holds-bind :
    {A B : Type 0} (P : A → Type 0) (Q : B → Type 0) (r : SettingsResult A)
    (f : A → SettingsResult B)
    → Holds P r
    → ((a : A) → P a → Holds Q (f a))
    → Holds Q (r >>= f)
Holds-bind P Q (saved a) f h next = next a h
Holds-bind P Q (refused e) f h next = tt

Holds-weaken :
    {A : Type 0} (P Q : A → Type 0) (r : SettingsResult A)
    → Holds P r
    → ((a : A) → P a → Q a)
    → Holds Q r
Holds-weaken P Q (saved a) h next = next a h
Holds-weaken P Q (refused e) h next = tt

Holds-self : {A : Type 0} (r : SettingsResult A) → Holds (λ a. r ≡ saved a) r
Holds-self (saved a) = refl
Holds-self (refused e) = tt

module _ (trim : Units → Units) where
  -- Each agent's entry is parsed by itself.
  abbrev IsParsed : AgentModelMap → AgentModelMap → Type 0
  IsParsed models parsed =
      (agent : ModelAgent) → parse_optional trim (models agent) ≡ saved (parsed agent)

  parse_models-IsParsed :
      (models : AgentModelMap) → Holds (IsParsed models) (parse_models trim models)
  unfolding parse_models
  parse_models-IsParsed models =
      let Q = IsParsed models in
      let part = λ (a : ModelAgent). Holds-self (parse_optional trim (models a)) in
      Holds-bind (λ x. parse_optional trim (models explorer) ≡ saved x) Q
        (parse_optional trim (models explorer)) _ (part explorer)
        (λ e he.
          Holds-bind (λ x. parse_optional trim (models researcher) ≡ saved x) Q
            (parse_optional trim (models researcher)) _ (part researcher)
            (λ r hr.
              Holds-bind (λ x. parse_optional trim (models implementer) ≡ saved x) Q
                (parse_optional trim (models implementer)) _ (part implementer)
                (λ i hi.
                  Holds-bind (λ x. parse_optional trim (models checker) ≡ saved x) Q
                    (parse_optional trim (models checker)) _ (part checker)
                    (λ c hc. at e r i c he hr hi hc))))
    where
      at :
          (e r i c : Option ModelRef)
          → parse_optional trim (models explorer) ≡ saved e
          → parse_optional trim (models researcher) ≡ saved r
          → parse_optional trim (models implementer) ≡ saved i
          → parse_optional trim (models checker) ≡ saved c
          → IsParsed models (table trim e r i c)
      at e r i c he hr hi hc explorer = he
      at e r i c he hr hi hc researcher = hr
      at e r i c he hr hi hc implementer = hi
      at e r i c he hr hi hc checker = hc

  -- What a save that expects a revision has done.
  abbrev WasSaved : SettingsFile → AgentModelMap → (expected : ℕ) → ModelSettings → Type 0
  WasSaved file models expected next =
      (latest : ModelSettings) × (load file ≡ saved latest)
      × (latest.revision ≡ expected)
      × (next.revision ≡ suc latest.revision)
      × IsParsed models next.models

  Holds-expected :
      (expected : ℕ) (previous : ModelSettings)
      → Holds (λ u. previous.revision ≡ expected) (require_expected trim (some expected) previous)
  Holds-expected expected previous =
      if_ind (Holds (λ (u : Unit {0}). previous.revision ≡ expected))
        (nat_eq previous.revision expected) (λ e. ground arith) (λ _. tt)

  save_model_settings-WasSaved :
      (free : Bool) (file : SettingsFile) (models : AgentModelMap) (expected : ℕ)
      → Holds
          (WasSaved file models expected)
          (save_model_settings trim free file models (some expected))
  unfolding save_model_settings
  save_model_settings-WasSaved free file models expected =
      let Q = WasSaved file models expected in
      Holds-bind (λ u. require_free trim free ≡ saved u) Q (require_free trim free) _
        (Holds-self (require_free trim free))
        (λ _ _.
          Holds-bind (IsParsed models) Q (parse_models trim models) _ (parse_models-IsParsed models)
            (λ parsed all.
              Holds-bind (λ latest. load file ≡ saved latest) Q (load file) _
                (Holds-self (load file))
                (λ latest found.
                  Holds-bind (λ u. latest.revision ≡ expected) Q
                    (require_expected trim (some expected) latest) _
                    (Holds-expected expected latest) (λ _ same. (latest, found, same, refl, all)))))

  -- The revision that the save expects.
  abbrev pub expected_of : Option ℕ → ℕ → ℕ
  expected_of none revision = revision
  expected_of (some previous) revision = previous

  abbrev WasUpdated :
      (before file : SettingsFile) → (expected : Option ℕ) → ModelAgent → ModelSettings → Type 0
  WasUpdated before file expected agent next =
      (current : ModelSettings) × (parsed : Option ModelRef) × (load before ≡ saved current)
      × WasSaved file (with_agent agent parsed current.models)
          (expected_of expected current.revision) next

  save_expected-WasSaved :
      (free : Bool) (file : SettingsFile) (models : AgentModelMap) (expected : Option ℕ)
      (revision : ℕ)
      → Holds
          (WasSaved file models (expected_of expected revision))
          (save_model_settings trim free file models (or_revision trim expected revision))
  save_expected-WasSaved free file models none revision =
      save_model_settings-WasSaved free file models revision
  save_expected-WasSaved free file models (some previous) revision =
      save_model_settings-WasSaved free file models previous

  set_agent_model-WasUpdated :
      (free : Bool) (before file : SettingsFile) (agent : ModelAgent) (model : Option ModelRef)
      (expected : Option ℕ)
      → Holds
          (WasUpdated before file expected agent)
          (set_agent_model trim free before file agent model expected)
  unfolding set_agent_model
  set_agent_model-WasUpdated free before file agent model expected =
      let Q = WasUpdated before file expected agent in
      Holds-bind (λ current. load before ≡ saved current) Q (load before) _
        (Holds-self (load before))
        (λ current found.
          Holds-bind (λ p. parse_optional trim model ≡ saved p) Q (parse_optional trim model) _
            (Holds-self (parse_optional trim model))
            (λ parsed _.
              let chosen = with_agent agent parsed current.models in
              Holds-weaken (WasSaved file chosen (expected_of expected current.revision)) Q
                (save_model_settings trim free file chosen
                  (or_revision trim expected current.revision))
                (save_expected-WasSaved free file chosen expected current.revision)
                (λ next done. (current, parsed, found, done))))

unselected :
    (agent other : ModelAgent) (model : Option ModelRef) (models : AgentModelMap)
    → same_agent agent other ≡ false
    → with_agent agent model models other ≡ models other
unfolding with_agent
unselected agent other model models apart = rw apart refl

-- The revision that a caller expects, if any, is not above the one that is read first, and that one
-- not above the one that is found when the settings are written: revisions only grow.
abbrev pub IsGrown : Option ℕ → ℕ → ℕ → Type 0
IsGrown none first last = Unit
IsGrown (some expected) first last = (expected ≤ first) × (first ≤ last)

same_revision :
    (trim : Units → Units) (expected : Option ℕ) (first last : ℕ)
    → IsGrown expected first last
    → last ≡ expected_of trim expected first
    → last ≡ first
same_revision trim none first last grown e = e
same_revision trim (some previous) first last (low, high) e = omega arith

-- Where settings of the same revision select the same models, and a revision that the caller expects
-- is not above that of the settings read first, nor that above the one found when they are
-- written, setting an agent's model writes the next revision, in which every other agent keeps the
-- selection that the file held when it was written.
pub set_agent_model-kept :
    (trim : Units → Units) (free : Bool) (before file : SettingsFile) (agent other : ModelAgent)
    (model : Option ModelRef) (expected : Option ℕ) (current latest next : ModelSettings)
    → load before ≡ saved current
    → load file ≡ saved latest
    → IsGrown expected current.revision latest.revision
    → (latest.revision ≡ current.revision → latest.models ≡ current.models)
    → same_agent agent other ≡ false
    → set_agent_model trim free before file agent model expected ≡ saved next
    → (next.revision ≡ suc latest.revision)
      × (parse_optional trim (latest.models other) ≡ saved (next.models other))
set_agent_model-kept trim free before file agent other model expected current latest next b f growth
      honest apart h =
    let (current', parsed, b', (latest', f', same, grown, all)) =
      subst (Holds (WasUpdated trim before file expected agent)) h
        (set_agent_model-WasUpdated trim free before file agent model expected) in
    let first : saved current' ≡ saved current = sym b' ∙ b in
    let second : saved latest' ≡ saved latest = sym f' ∙ f in
    let one : current' ≡ current = cc in
    let two : latest' ≡ latest = cc in
    let revision : latest.revision ≡ current.revision =
      same_revision trim expected current.revision latest.revision growth (
        sym (ap (λ (x : ModelSettings). x.revision) two)
        ∙ same
        ∙ ap (λ (x : ModelSettings). expected_of trim expected x.revision) one) in
    let entry : with_agent agent parsed current'.models other ≡ latest.models other =
      unselected agent other parsed current'.models apart
      ∙ ap (λ (x : ModelSettings). x.models other) one
      ∙ sym (ap (λ (m : AgentModelMap). m other) (honest revision)) in
    (
      grown ∙ ap (λ (x : ModelSettings). suc x.revision) two,
      ap (parse_optional trim) (sym entry) ∙ all other,
    )
