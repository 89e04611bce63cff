-- ===== src/Executor/Reopened.antt =====
-- What becomes of the nodes of a run that is resumed or closed, by what they were before.
use opencode_alg.Base.{
  ◌≡◌, String, Bool, true, false, ◌&&◌, ◌||◌, not, none, some, List, leb, last?, length,
}
use opencode_alg.Run.{NodeDef, NodeAttempt, NodeState, max_attempts}
use opencode_alg.Run.Status.{is_done, is_failed, is_running, is_skipped}
use opencode_alg.Executor.Reserve.{last_done}

-- The node has failed or been interrupted and has no attempt left.
abbrev pub is_exhausted : NodeDef → NodeState → Bool
is_exhausted d s =
    (is_running s.status || is_failed s.status) && leb (max_attempts d) s.current_attempt

abbrev pub last_running : NodeState → Bool
last_running s = elim (last? s.attempts) [ none ↦ false | some a ↦ is_running a.status ]

-- A resumed node: success stays, a node without attempts left has failed, every other one waits.
-- No attempt is added or forgotten, and that of an interrupted node has ended.
pub record IsResumed (d : NodeDef) (s s' : NodeState) : Type 0 where
  pub done_stays : is_done s'.status ≡ is_done s.status
  pub failed_exhausted : is_failed s'.status ≡ is_exhausted d s
  pub not_running : is_running s'.status ≡ false
  pub not_skipped : is_skipped s'.status ≡ false
  pub same_count : s'.current_attempt ≡ s.current_attempt
  pub same_length : length s'.attempts ≡ length s.attempts
  pub same_success : last_done s' ≡ last_done s
  pub ended : is_running s.status ≡ true → last_running s' ≡ false

-- A closed node: success stays, a waiting node that had passed before is skipped, all else fails.
pub record IsClosed (d : NodeDef) (s s' : NodeState) : Type 0 where
  pub done_stays : is_done s'.status ≡ is_done s.status
  pub skipped_passed :
      is_skipped s'.status ≡ (not (is_done s.status) && not (is_exhausted d s) && last_done s)
  pub failed_otherwise :
      is_failed s'.status ≡ (not (is_done s.status) && (is_exhausted d s || not (last_done s)))
  pub same_count : s'.current_attempt ≡ s.current_attempt
  pub same_length : length s'.attempts ≡ length s.attempts

module _ (safe : String → String) where
  abbrev ends_running : List NodeAttempt → Bool
  ends_running attempts = elim (last? attempts) [ none ↦ false | some a ↦ is_running a.status ]

  abbrev ends_done : List NodeAttempt → Bool
  ends_done attempts = elim (last? attempts) [ none ↦ false | some a ↦ is_done a.status ]
