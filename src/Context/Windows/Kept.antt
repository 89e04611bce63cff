-- ===== src/Context/Windows/Kept.antt =====
-- The map of windows stays small, and what is subtracted is what was published.
use opencode_alg.Base.{
  ℕ, suc, ◌-◌, ◌≤◌, max, String, Option, none, some, List, [], ◌∷◌, ◌++◌, leb, ◌≡◌, refl, ap, sym,
  ◌∙◌, arith, Option-cases, inl, inr, lookup, modify, length, if_ind, eq_refl, length-append,
  lookup-modify, drop,
}
use opencode_alg.Context.Plan.{ContextBudgetOptions, ModelWindow, call, compaction_prompt, positive}
use opencode_alg.Context.Usage.{UsageMessage, tokens_for, estimate_used_tokens}
use opencode_alg.Context.Windows.{
  SessionWindow, Windows, new_window, entry, update, observe_messages, observe_model, window_of,
  window, with_measure, with_limits, with_publication, record_plan, forget, WindowCall,
  message_hook, model_hook, publication, deletion, serve, serve_all,
}

length-modify {ℓ} :
    {V : Type ℓ} (k : String) (f : V → V) (m : List (String × V)) → length (modify k f m) ≡ length m
unfolding modify
length-modify k f [] = refl
length-modify k f ((j, v) ∷ m) = ap suc (length-modify k f m)

length-drop {ℓ} : {A : Type ℓ} (xs : List A) → length (drop 1 xs) ≡ length xs - 1
length-drop [] = refl
length-drop (x ∷ xs) = omega arith

module _ (maximum : ℕ) where
  abbrev pub IsSmall : Windows → Type 0
  IsSmall windows = length windows ≤ max 1 maximum

  entry-IsSmall :
      (s : String) (windows : Windows) → IsSmall windows → IsSmall (entry maximum s windows)
  unfolding entry
  entry-IsSmall s windows h = elim (Option-cases (lookup s windows)) [
    | inr (e, found) ↦ rw (found, entry) h
    | inl missing ↦
        rw (missing, entry)
          (if_ind (λ (room : Windows). IsSmall (room ++ (s, new_window) ∷ []))
            (leb maximum (length windows))
            (λ full.
              omega
                (arith, length-append (drop 1 windows) ((s, new_window) ∷ []), length-drop windows))
            (λ small. ground (arith, length-append windows ((s, new_window) ∷ []))))
  ]

  update-IsSmall :
      (s : String) (f : SessionWindow → SessionWindow) (windows : Windows)
      → IsSmall windows
      → IsSmall (update maximum s f windows)
  unfolding update
  update-IsSmall s f windows h =
      omega (arith, length-modify s f (entry maximum s windows), entry-IsSmall s windows h)

  length-forget : (s : String) (windows : Windows) → length (forget s windows) ≤ length windows
  unfolding forget
  length-forget s [] = omega arith
  length-forget s ((key, e) ∷ windows) = ground (arith, length-forget s windows)

  serve-IsSmall :
      (options : ContextBudgetOptions) (c : WindowCall) (windows : Windows)
      → IsSmall windows
      → IsSmall (serve options maximum c windows)
  unfolding serve observe_messages observe_model record_plan
  serve-IsSmall options (message_hook s messages) windows h =
      elim (Option-cases (estimate_used_tokens messages options.bytes_per_token)) [
        | inl e ↦ rw (e, observe_messages) h
        | inr (used, e) ↦ rw (e, observe_messages) (update-IsSmall s (with_measure used) windows h)
      ]
  serve-IsSmall options (model_hook s none) windows h = h
  serve-IsSmall options (model_hook s (some (context, output))) windows h =
      elim (Option-cases (positive context)) [
        | inl e ↦ rw (e, observe_model) h
        | inr (size, e) ↦
            rw (e, observe_model) (update-IsSmall s (with_limits size output) windows h)
      ]
  serve-IsSmall options (publication s kind published) windows h =
      update-IsSmall s (with_publication kind published) windows h
  serve-IsSmall options (deletion s) windows h = omega (arith, length-forget s windows)

  serve_all-from :
      (options : ContextBudgetOptions) (calls : List WindowCall) (windows : Windows)
      → IsSmall windows
      → IsSmall (serve_all options maximum calls windows)
  unfolding serve_all
  serve_all-from options [] windows h = h
  serve_all-from options (c ∷ calls) windows h =
      serve_all-from options calls (serve options maximum c windows)
        (serve-IsSmall options c windows h)

-- However many hooks are served, for whatever sessions, the windows kept are at most the maximum,
-- and at most one where the maximum is zero.
pub serve_all-IsSmall :
    (options : ContextBudgetOptions) (maximum : ℕ) (calls : List WindowCall)
    → length (serve_all options maximum calls []) ≤ max 1 maximum
serve_all-IsSmall options maximum calls = serve_all-from maximum options calls [] (omega arith)

lookup-drop :
    (s : String) (windows : Windows) → lookup s windows ≡ none → lookup s (drop 1 windows) ≡ none
unfolding lookup
lookup-drop s [] h = h
lookup-drop s ((key, e) ∷ windows) h = ground arith

lookup-append_new :
    (s : String) (e : SessionWindow) (windows : Windows)
    → lookup s windows ≡ none
    → lookup s (windows ++ (s, e) ∷ []) ≡ some e
unfolding lookup
lookup-append_new s e [] h = ground (arith, eq_refl s)
lookup-append_new s e ((key, f) ∷ windows) h = ground (arith, lookup-append_new s e windows)

abbrev or_new : Option SessionWindow → SessionWindow
or_new none = new_window
or_new (some e) = e

lookup-entry :
    (maximum : ℕ) (s : String) (windows : Windows)
    → lookup s (entry maximum s windows) ≡ some (or_new (lookup s windows))
unfolding entry
lookup-entry maximum s windows = elim (Option-cases (lookup s windows)) [
  | inr (e, found) ↦ rw (found, entry, found) refl
  | inl missing ↦
      rw (missing, entry)
        (if_ind (λ (room : Windows). lookup s (room ++ (s, new_window) ∷ []) ≡ some new_window)
          (leb maximum (length windows))
          (λ full. lookup-append_new s new_window (drop 1 windows) (lookup-drop s windows missing))
          (λ small. lookup-append_new s new_window windows missing))
]

lookup-update :
    (maximum : ℕ) (s : String) (f : SessionWindow → SessionWindow) (windows : Windows)
    → lookup s (update maximum s f windows) ≡ some (f (or_new (lookup s windows)))
unfolding update
lookup-update maximum s f windows =
    lookup-modify s s f (entry maximum s windows)
    ∙ rw (lookup-entry maximum s windows, eq_refl s) refl

window-or_new :
    (options : ContextBudgetOptions) (s : String) (windows : Windows)
    → window options s windows ≡ window_of options (or_new (lookup s windows))
unfolding window
window-or_new options s windows = elim (Option-cases (lookup s windows)) [
  | inl missing ↦ rw (missing, window) refl
  | inr (e, found) ↦
      let kept : window options s windows ≡ window_of options e = rw (found, window) refl in
      kept ∙ ap (λ o. window_of options (or_new o)) (sym found)
]

-- The entry of a session after it published a call and then a compaction prompt.
lookup-published :
    (maximum : ℕ) (s : String) (published compacted : ℕ) (windows : Windows)
    → lookup s (
        record_plan maximum s compaction_prompt compacted
          (record_plan maximum s call published windows))
      ≡ some (
          with_publication compaction_prompt compacted
            (with_publication call published (or_new (lookup s windows))))
unfolding record_plan
lookup-published maximum s published compacted windows =
    let once = lookup-update maximum s (with_publication call published) windows in
    lookup-update maximum s (with_publication compaction_prompt compacted)
      (update maximum s (with_publication call published) windows)
    ∙ rw once refl

-- What a call adds is subtracted once, from the next measure that includes it: publishing leaves the
-- window of the session as it was, and the next conversation that is measured is reduced by exactly
-- the bytes that the call published, whatever compaction prompt was published in between.
pub window-record_plan :
    (options : ContextBudgetOptions) (maximum : ℕ) (s : String) (published compacted used : ℕ)
    (messages : List UsageMessage) (windows : Windows)
    → estimate_used_tokens messages options.bytes_per_token ≡ some used
    → let after =
        record_plan maximum s compaction_prompt compacted
          (record_plan maximum s call published windows) in
      (window options s after ≡ window options s windows)
      × ((window options s (observe_messages options maximum s messages after)).used_tokens
          ≡ some (used - tokens_for options.bytes_per_token published))
unfolding window_of observe_messages
window-record_plan options maximum s published compacted used messages windows h =
    let after =
      record_plan maximum s compaction_prompt compacted
        (record_plan maximum s call published windows) in
    let seen = lookup-published maximum s published compacted windows in
    let measured = lookup-update maximum s (with_measure used) after in
    (
      window-or_new options s after
          ∙ ap (λ o. window_of options (or_new o)) seen
          ∙ sym (window-or_new options s windows),
      rw (h, observe_messages)
          (ap (λ (m : ModelWindow). m.used_tokens)
            (window-or_new options s (update maximum s (with_measure used) after)
              ∙ ap (λ o. window_of options (or_new o))
                  (measured ∙ ap (λ o. some (with_measure used (or_new o))) seen))),
    )
