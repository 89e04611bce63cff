-- ===== src/Examples/Dialogue.antt =====
-- A dialogue whose answer has two steps; an earlier copy of the second is unfinished.
use opencode_alg.Base.{ℕ, String, false, Option, none, some, List, [], ◌∷◌, ◌≡◌, refl, All, Elem}
use opencode_alg.Turns.{Message, Turn, completed_turn, same_text}
use opencode_alg.Turns.Whole.{IsStepOf, completed_turn-IsWhole}

abbrev answer : String → ℕ → (finish : Option String) → (completed : Option ℕ) → Message
answer id created finish completed = record {
  id = some id;
  role = "assistant";
  session_id = "s";
  parent_id = some "u";
  summary = false;
  error = false;
  finish = finish;
  created = created;
  completed = completed;
  parts = id ∷ [];
}

abbrev user_message : Message
user_message = record {
  id = some "u";
  role = "user";
  session_id = "s";
  parent_id = none;
  summary = false;
  error = false;
  finish = none;
  created = 1;
  completed = none;
  parts = [];
}

abbrev dialogue : List Message
dialogue =
    user_message
    ∷ answer "b" 4 none none
    ∷ answer "a" 2 (some "tool-calls") (some 3)
    ∷ answer "c" 8 (some "stop") (some 9)
    ∷ answer "b" 4 (some "stop") (some 6)
    ∷ []

abbrev whole_turn : Turn
whole_turn = record {
  terminal = answer "b" 4 (some "stop") (some 6);
  user = user_message;
  steps = answer "a" 2 (some "tool-calls") (some 3) ∷ answer "b" 4 (some "stop") (some 6) ∷ [];
  parts = "a" ∷ "b" ∷ [];
}

completed_turn-IsWhole_example :
    (whole_turn.terminal.id ≡ some "b")
    × Elem whole_turn.terminal whole_turn.steps
    × All (IsStepOf whole_turn.terminal "s") whole_turn.steps
    × (whole_turn.user.id ≡ whole_turn.terminal.parent_id)
    × (whole_turn.user.role ≡ "user")
    × (whole_turn.user.session_id ≡ "s")
unfolding completed_turn
completed_turn-IsWhole_example =
    completed_turn-IsWhole (λ a b. same_text a b) dialogue "s" "b" false whole_turn refl
