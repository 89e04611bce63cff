-- ===== src/Run.antt =====
-- src/types.ts: the durable data of a run. The model keeps what the executor and the store's
-- checks read. Timestamps, host fields and the references to externalized sidecars are left out:
-- the state is the hydrated one, in which every attempt and output stands in place.
pub mod Status
pub mod Values
use opencode_alg.Base.{ℕ, String, Bool, Option, List}
use Status.{AlgAgent, NodeStatus, RunStatus, GateKind, AttemptOutcome, Mode}
use Values.{Json}

pub record NodeLoop : Type 0 where
  pub max_attempts : ℕ
  pub gate : GateKind

pub record ShellGateDef : Type 0 where
  pub cmd : String
  pub cwd : Option String
  pub timeout_ms : Option ℕ

pub record NodeDef : Type 0 where
  pub id : String
  pub agent : AlgAgent
  pub depends_on : List String
  pub inputs : Option (List (String × String))
  pub description : Option String
  pub loop : Option NodeLoop
  pub shell_gate : Option ShellGateDef
  pub isolated_check : Bool
  pub feedback_to : Option String

pub record GraphDef : Type 0 where
  pub name : String
  pub description : Option String
  pub nodes : List NodeDef
  pub max_global_attempts : ℕ
  pub max_concurrency : ℕ

-- `none` stands for a field that is absent. A `feedback_applied` that is absent reads as false.
pub record NodeAttempt : Type 0 where
  pub attempt : ℕ
  pub status : NodeStatus
  pub session_id : Option String
  pub output : Option Json
  pub failures : List String
  pub score : Option ℕ
  pub shell_ok : Option Bool
  pub schema_ok : Option Bool
  pub error : Option String
  pub feedback_applied : Bool
  pub outcome : Option AttemptOutcome

pub record NodeState : Type 0 where
  pub id : String
  pub agent : AlgAgent
  pub status : NodeStatus
  pub attempts : List NodeAttempt
  pub current_attempt : ℕ
  pub output : Option Json
  pub last_failures : List String

-- `Record<string, NodeState>`
abbrev pub Nodes : Type 0
Nodes = List (String × NodeState)

pub record OwnerTransfer : Type 0 where
  pub from_session_id : String
  pub to_session_id : String
  pub by_session_id : String

pub record RunState : Type 0 where
  pub revision : ℕ
  pub run_id : String
  pub owner_session_id : String
  pub parent_session_id : String
  pub owner_transfers : List OwnerTransfer
  pub goal : String
  pub criteria : List String
  pub criteria_locked : Bool
  pub graph : GraphDef
  pub status : RunStatus
  pub phase : String
  pub nodes : Nodes
  pub global_attempts : ℕ
  pub mode : Mode

-- `node.loop?.max_attempts ?? 1` and `node.loop?.gate ?? "schema"`
unfoldable pub max_attempts : NodeDef → ℕ
max_attempts d = elim d.loop [ Option.none ↦ 1 | Option.some l ↦ l.max_attempts ]

unfoldable pub gate : NodeDef → GateKind
gate d = elim d.loop [ Option.none ↦ GateKind.schema | Option.some l ↦ l.gate ]
