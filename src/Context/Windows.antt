-- ===== src/Context/Windows.antt =====
-- `SessionWindows`: what is known of the windows of the sessions, a bounded map in insertion order.
pub mod Kept
use opencode_alg.Base.{
  ℕ, zero, suc, ◌+◌, ◌-◌, ◌≤◌, max, String, ◌==◌, Bool, true, false, Option, none, some, List, [],
  ◌∷◌, ◌++◌, ltb, leb, if◌then◌else◌, ◌≡◌, refl, ap, ◌∙◌, arith, Option-cases, Bool-cases, inl, inr,
  lookup, modify, length, if_ind, eq_iff, eq_refl, length-append, lookup-modify, drop,
}
use opencode_alg.Context.Plan.{
  ContextPart, ContextBudgetOptions, ModelWindow, CallKind, call, compaction_prompt, positive,
  or_zero,
}
use opencode_alg.Context.Usage.{UsageMessage, tokens_for, estimate_used_tokens}

-- An entry of the map. Of `last`, the summary of the last plan, only its kind is kept.
pub record SessionWindow : Type 0 where
  pub context : Option ℕ
  pub output : Option ℕ
  pub conversation_tokens : Option ℕ
  pub measured_added_bytes : Option ℕ
  pub added_bytes : Option ℕ
  pub last : Option CallKind

abbrev pub Windows : Type 0
Windows = List (String × SessionWindow)

abbrev new_window : SessionWindow
new_window = record {
  context = none;
  output = none;
  conversation_tokens = none;
  measured_added_bytes = none;
  added_bytes = none;
  last = none;
}

-- `entry`: the session's entry is there afterwards; at the maximum the oldest makes room.
unfoldable pub entry : (maximum : ℕ) → String → Windows → Windows
unfolding lookup
entry maximum session windows = elim (lookup session windows) [
  | some window ↦ windows
  | none ↦
      let room = if leb maximum (length windows) then drop 1 windows else windows in
      room ++ (session, new_window) ∷ []
]

-- An update of the entry that `entry` returns.
unfoldable pub update : (maximum : ℕ) → String → (SessionWindow → SessionWindow) → Windows → Windows
unfolding entry modify
update maximum session f windows = modify session f (entry maximum session windows)

abbrev pub with_measure : (used : ℕ) → SessionWindow → SessionWindow
with_measure used e = record e {
  conversation_tokens = some used;
  measured_added_bytes = some (or_zero e.added_bytes);
}

abbrev pub with_limits : (size : ℕ) → (output : Option ℕ) → SessionWindow → SessionWindow
with_limits size output e = record e { context = some size; output = positive output }

abbrev added_after : CallKind → ℕ → Option ℕ → Option ℕ
added_after call published added = some published
added_after compaction_prompt published added = added

abbrev pub with_publication : CallKind → (published : ℕ) → SessionWindow → SessionWindow
with_publication kind published e = record e {
  added_bytes = added_after kind published e.added_bytes;
  last = some kind;
}

unfoldable pub observe_messages :
    ContextBudgetOptions → (maximum : ℕ) → String → List UsageMessage → Windows → Windows
unfolding update estimate_used_tokens
observe_messages options maximum session messages windows =
    elim (estimate_used_tokens messages options.bytes_per_token) [
      | none ↦ windows
      | some used ↦ update maximum session (with_measure used) windows
    ]

-- The limits of a model are its context window and its output; `none` where none are given.
unfoldable pub observe_model :
    (maximum : ℕ) → String → (limit : Option (Option ℕ × Option ℕ)) → Windows → Windows
unfolding update
observe_model maximum session none windows = windows
observe_model maximum session (some (context, output)) windows = elim (positive context) [
  | none ↦ windows
  | some size ↦ update maximum session (with_limits size output) windows
]

unfoldable pub window_of : ContextBudgetOptions → SessionWindow → ModelWindow
unfolding tokens_for
window_of options e = record {
  context = e.context;
  output = e.output;
  used_tokens = elim e.conversation_tokens [
    | none ↦ none
    | some tokens ↦
        some (tokens - tokens_for options.bytes_per_token (or_zero e.measured_added_bytes))
  ];
}

unfoldable pub window : ContextBudgetOptions → String → Windows → ModelWindow
unfolding window_of lookup
window options session windows = elim (lookup session windows) [
  | none ↦ record { context = none; output = none; used_tokens = none }
  | some e ↦ window_of options e
]

unfoldable pub record_plan : (maximum : ℕ) → String → CallKind → (published : ℕ) → Windows → Windows
unfolding update
record_plan maximum session kind published windows =
    update maximum session (with_publication kind published) windows

unfoldable pub forget : String → Windows → Windows
forget session [] = []
forget session ((key, e) ∷ windows) =
    let rest = forget session windows in if key == session then windows else (key, e) ∷ rest

-- The hooks of a session.
pub data WindowCall : Type 0 where
  message_hook : String → List UsageMessage → WindowCall
  model_hook : String → Option (Option ℕ × Option ℕ) → WindowCall
  publication : String → CallKind → ℕ → WindowCall
  deletion : String → WindowCall

unfoldable pub serve : ContextBudgetOptions → (maximum : ℕ) → WindowCall → Windows → Windows
unfolding observe_messages observe_model record_plan forget
serve options maximum (message_hook session messages) windows =
    observe_messages options maximum session messages windows
serve options maximum (model_hook session limit) windows =
    observe_model maximum session limit windows
serve options maximum (publication session kind published) windows =
    record_plan maximum session kind published windows
serve options maximum (deletion session) windows = forget session windows

unfoldable pub serve_all :
    ContextBudgetOptions → (maximum : ℕ) → List WindowCall → Windows → Windows
unfolding serve
serve_all options maximum [] windows = windows
serve_all options maximum (c ∷ calls) windows =
    serve_all options maximum calls (serve options maximum c windows)
