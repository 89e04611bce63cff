-- ===== src/Turns/Whole.antt =====
-- A completed turn holds the steps of one user message up to its end, and no others.
use opencode_alg.Base.{
  String, Bool, true, false, not, Option, none, some, List, [], ◌∷◌, ◌==◌, find, filter, Elem,
  find-eq-some, Elem-filter, ◌↔◌, ◌⊎◌, ◌≡◌, refl, sym, ◌∙◌, arith, and_split, not-false,
  Option-cases, Bool-cases, inl, inr, eq_iff, All, All_intro, subst,
}
use opencode_alg.Turns.{
  Message, same_text, is_completed_user_turn, is_legacy_turn, is_step, insert, sort, Turn,
  is_user_of, turn_of, turn_from, accepts, completed_by, unique_messages, completed_turn,
}

module _ (locale_le : Option String → Option String → Bool) where
  Elem-insert :
      (a m : Message) (ms : List Message) → Elem a (insert locale_le m ms) ↔ ((a ≡ m) ⊎ Elem a ms)
  unfolding insert
  Elem-insert a m [] = ground arith
  Elem-insert a m (x ∷ xs) = ground (arith, Elem-insert a m xs)

  Elem-sort : (a : Message) (ms : List Message) → Elem a (sort locale_le ms) ↔ Elem a ms
  unfolding sort
  Elem-sort a [] = ground arith
  Elem-sort a (m ∷ ms) = ground (arith, Elem-sort a ms, Elem-insert a m (sort locale_le ms))

same_text-eq : (a b : Option String) → same_text a b ≡ true → a ≡ b
same_text-eq none none h = refl
same_text-eq none (some b) h = cc
same_text-eq (some a) none h = cc
same_text-eq (some a) (some b) h = rw ((eq_iff a b).0 h) refl

same_text_self : (a : Option String) → same_text a a ≡ true
same_text_self none = refl
same_text_self (some a) = (eq_iff a a).1 refl

-- What a step of a turn is: an answer to the same user message in the same session, no summary, and
-- completed no later than the terminal message.
pub record IsStepOf (terminal : Message) (session : String) (m : Message) : Type 0 where
  pub assistant : m.role ≡ "assistant"
  pub here : m.session_id ≡ session
  pub answers : m.parent_id ≡ terminal.parent_id
  pub plain : m.summary ≡ false
  pub earlier : completed_by terminal.completed m.completed ≡ true

is_step-IsStepOf :
    (terminal : Message) (session : String) (m : Message)
    → is_step terminal session m ≡ true
    → IsStepOf terminal session m
unfolding is_step
is_step-IsStepOf terminal session m h =
    let (most, time) = and_split _ (completed_by terminal.completed m.completed) h in
    let (start, plain) = and_split _ (not m.summary) most in
    let (first, parent) = and_split _ (same_text m.parent_id terminal.parent_id) start in
    let (role, place) = and_split (m.role == "assistant") (m.session_id == session) first in
    record {
      assistant = (eq_iff m.role "assistant").0 role;
      here = (eq_iff m.session_id session).0 place;
      answers = same_text-eq m.parent_id terminal.parent_id parent;
      plain = not-false m.summary plain;
      earlier = time;
    }

-- A terminal message that is accepted is a step of its own turn.
accepts-is_step :
    (locale_le : Option String → Option String → Bool) (legacy : Bool) (session : String)
    (terminal : Message)
    → accepts locale_le legacy session terminal ≡ true
    → is_step terminal session terminal ≡ true
unfolding accepts is_step is_completed_user_turn is_legacy_turn
accepts-is_step locale_le legacy session terminal h =
    ground (arith, same_text_self terminal.parent_id)

module _ (locale_le : Option String → Option String → Bool) (session : String) where
  -- What a turn is made of.
  abbrev pub IsWhole : (message : String) → Turn → Type 0
  IsWhole message turn =
      (turn.terminal.id ≡ some message)
      × Elem turn.terminal turn.steps
      × All (IsStepOf turn.terminal session) turn.steps
      × (turn.user.id ≡ turn.terminal.parent_id)
      × (turn.user.role ≡ "user")
      × (turn.user.session_id ≡ session)

  turn_of-IsWhole :
      (unique : List Message) (message : String) (terminal user : Message)
      → Elem terminal unique
      → terminal.id ≡ some message
      → is_step terminal session terminal ≡ true
      → is_user_of terminal user ≡ true
      → user.session_id ≡ session
      → IsWhole message (turn_of locale_le unique session terminal user)
  turn_of-IsWhole unique message terminal user member named step owner place =
      let (parent, role) =
        and_split (same_text user.id terminal.parent_id) (user.role == "user") owner in
      let steps = filter (is_step terminal session) unique in
      (
        named,
        (Elem-sort locale_le terminal steps).1
            ((Elem-filter (is_step terminal session) terminal unique).1 (member, step)),
        All_intro (IsStepOf terminal session) (sort locale_le steps) (λ m e.
            is_step-IsStepOf terminal session m
              ((Elem-filter (is_step terminal session) m unique).0
                ((Elem-sort locale_le m steps).0 e)).1),
        same_text-eq user.id terminal.parent_id parent,
        (eq_iff user.role "user").0 role,
        place,
      )

  turn_from-IsWhole :
      (unique : List Message) (message : String) (terminal : Message) (turn : Turn)
      → Elem terminal unique
      → terminal.id ≡ some message
      → is_step terminal session terminal ≡ true
      → turn_from locale_le unique session terminal ≡ some turn
      → IsWhole message turn
  unfolding turn_from
  turn_from-IsWhole unique message terminal turn member named step h =
      elim (Option-cases (find (is_user_of terminal) unique)) [
        | inl e ↦ absurd (let n : none ≡ some turn = sym (rw (e, turn_from) refl) ∙ h in cc)
        | inr (user, e) ↦ elim (Bool-cases (user.session_id == session)) [
          | inr b ↦ absurd (let n : none ≡ some turn = sym (rw (e, b, turn_from) refl) ∙ h in cc)
          | inl b ↦
              let made : some (turn_of locale_le unique session terminal user) ≡ some turn =
                sym (rw (e, b, turn_from) refl) ∙ h in
              let same : turn_of locale_le unique session terminal user ≡ turn = cc in
              let (found, owner) = find-eq-some (is_user_of terminal) user unique e in
              subst (IsWhole message) same (
                turn_of-IsWhole unique message terminal user member named step owner
                  ((eq_iff user.session_id session).0 b))
        ]
      ]

-- The turn of a message ends with that message and has it among its steps; all its steps are answers
-- to the same user message in the session, no summaries, and completed no later.
pub completed_turn-IsWhole :
    (locale_le : Option String → Option String → Bool) (messages : List Message)
    (session message : String) (legacy : Bool) (turn : Turn)
    → completed_turn locale_le messages session message legacy ≡ some turn
    → (turn.terminal.id ≡ some message)
      × Elem turn.terminal turn.steps
      × All (IsStepOf turn.terminal session) turn.steps
      × (turn.user.id ≡ turn.terminal.parent_id)
      × (turn.user.role ≡ "user")
      × (turn.user.session_id ≡ session)
unfolding completed_turn
completed_turn-IsWhole locale_le messages session message legacy turn h =
    let unique = unique_messages messages in
    let chosen = λ (m : Message). same_text m.id (some message) in
    elim (Option-cases (find chosen unique)) [
      | inl e ↦ absurd (let n : none ≡ some turn = sym (rw (e, completed_turn) refl) ∙ h in cc)
      | inr (terminal, e) ↦ elim (Bool-cases (accepts locale_le legacy session terminal)) [
        | inr b ↦ absurd (let n : none ≡ some turn = sym (rw (e, b, completed_turn) refl) ∙ h in cc)
        | inl b ↦
            let (member, named) = find-eq-some chosen terminal unique e in
            turn_from-IsWhole locale_le session unique message terminal turn member
              (same_text-eq terminal.id (some message) named)
              (accepts-is_step locale_le legacy session terminal b)
              (sym (rw (e, b, completed_turn) refl) ∙ h)
      ]
    ]
