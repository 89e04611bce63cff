-- ===== src/Turns.antt =====
-- src/turn-boundary.ts: which messages of a session make up one completed turn. A message without
-- `info` is left out, since nothing selects it; a time is a natural number.
pub mod Whole
use opencode_alg.Base.{
  ℕ, String, Bool, true, false, ◌&&◌, ◌||◌, not, Option, none, some, List, [], ◌∷◌, ◌++◌, ltb, leb,
  nat_eq, ◌==◌, if◌then◌else◌, find, filter,
}

pub record Message : Type 0 where
  pub id : Option String
  pub role : String
  pub session_id : String
  pub parent_id : Option String
  pub summary : Bool
  pub error : Bool
  pub finish : Option String
  pub created : ℕ
  pub completed : Option ℕ
  pub parts : List String

abbrev pub same_text : Option String → Option String → Bool
same_text none none = true
same_text (some a) (some b) = a == b
same_text _ _ = false

abbrev pub is_some : {A : Type 0} → Option A → Bool
is_some none = false
is_some (some a) = true

unfoldable pub is_completed_user_turn : Message → Bool
is_completed_user_turn m =
    m.role == "assistant"
    && not m.summary
    && not m.error
    && same_text m.finish (some "stop")
    && is_some m.completed

-- The condition for hosts that give no reason for the end.
unfoldable pub is_legacy_turn : Message → Bool
is_legacy_turn m =
    same_text m.finish none
    && m.role == "assistant"
    && not m.summary
    && not m.error
    && is_some m.completed

-- `new Map(…)`: a later message takes the place of an earlier one with its id.
unfoldable pub put : Message → List Message → List Message
put m [] = m ∷ []
put m (x ∷ xs) = let rest = x ∷ put m xs in if same_text x.id m.id then m ∷ xs else rest

unfoldable pub put_all : List Message → List Message → List Message
unfolding put
put_all [] seen = seen
put_all (m ∷ messages) seen = put_all messages (put m seen)

unfoldable pub unique_messages : List Message → List Message
unfolding put_all
unique_messages messages = put_all messages []

abbrev pub completed_by : (limit message : Option ℕ) → Bool
completed_by (some limit) (some time) = leb time limit
completed_by _ _ = false

unfoldable pub is_step : (terminal : Message) → (session : String) → Message → Bool
is_step terminal session m =
    m.role == "assistant"
    && m.session_id == session
    && same_text m.parent_id terminal.parent_id
    && not m.summary
    && completed_by terminal.completed m.completed

unfoldable pub all_parts : List Message → List String
all_parts [] = []
all_parts (m ∷ ms) = m.parts ++ all_parts ms

pub record Turn : Type 0 where
  pub terminal : Message
  pub user : Message
  pub steps : List Message
  pub parts : List String

abbrev pub is_user_of : Message → Message → Bool
is_user_of terminal m = same_text m.id terminal.parent_id && m.role == "user"

-- The order of `localeCompare` on the ids, not after, is a parameter.
module _ (locale_le : Option String → Option String → Bool) where
  unfoldable pub goes_before : Message → Message → Bool
  goes_before a b = ltb a.created b.created || nat_eq a.created b.created && locale_le a.id b.id

  unfoldable pub insert : Message → List Message → List Message
  unfolding goes_before
  insert m [] = m ∷ []
  insert m (x ∷ xs) = let rest = x ∷ insert m xs in if goes_before m x then m ∷ x ∷ xs else rest

  -- `sort`
  unfoldable pub sort : List Message → List Message
  unfolding insert
  sort [] = []
  sort (m ∷ ms) = insert m (sort ms)

  abbrev pub turn_of : List Message → String → Message → Message → Turn
  turn_of unique session terminal user =
      let steps = sort (filter (is_step terminal session) unique) in
      record { terminal = terminal; user = user; steps = steps; parts = all_parts steps }

  unfoldable pub turn_from : List Message → (session : String) → Message → Option Turn
  unfolding is_step sort all_parts
  turn_from unique session terminal = elim (find (is_user_of terminal) unique) [
    | none ↦ none
    | some user ↦
        if user.session_id == session then some (turn_of unique session terminal user) else none
  ]

  unfoldable pub accepts : (legacy : Bool) → (session : String) → Message → Bool
  unfolding is_completed_user_turn is_legacy_turn
  accepts legacy session m =
      m.session_id == session && (is_completed_user_turn m || legacy && is_legacy_turn m)

  unfoldable pub completed_turn :
      List Message → (session message : String) → (legacy : Bool) → Option Turn
  unfolding unique_messages accepts turn_from
  completed_turn messages session message legacy =
      let unique = unique_messages messages in
      elim (find (λ (m : Message). same_text m.id (some message)) unique) [
        | none ↦ none
        | some terminal ↦
            if accepts legacy session terminal then turn_from unique session terminal else none
      ]
