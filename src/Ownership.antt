-- ===== src/Ownership.antt =====
-- src/ownership.ts: who may look up, change and hand over a run. The store's part is a parameter:
-- taking the lease, loading a run and persisting it.
pub mod Transfer
use opencode_alg.Base.{
  ℕ, String, Bool, true, false, ◌&&◌, ◌||◌, not, Option, none, some, List, [], ◌∷◌, ◌++◌, ltb,
  length, codes, ◌==◌, if◌then◌else◌,
}
use opencode_alg.Run.{OwnerTransfer, RunState}

-- The store's operations on a state of the project: `acquireRunLock` of a run for a session, which
-- throws or gives the state under the lease; `findLatestRunForSession` and `loadRunForOwner`, where a
-- throw counts as no run; `persistRunFenced`, which throws or gives the run as written, and the state
-- behind it; and the lease's `release`.
pub record Store (W : Type 0) : Type 0 where
  pub acquire : (run_id session_id : String) → W → Option W
  pub latest : (session_id : String) → W → Option RunState
  pub load : (run_id session_id : String) → W → Option RunState
  pub persist : RunState → W → Option RunState × W
  pub release : W → W

unfoldable pub owns : RunState → String → Bool
owns run session_id = run.owner_session_id == session_id

-- `null` is a value of resolveOwnedRun, and an OwnershipError is not.
pub data Resolved : Type 0 where
  found : RunState → Resolved
  nothing foreign : Resolved

-- An empty identifier is no identifier.
unfoldable pub resolve_owned_run :
    {W : Type 0} → Store W → (session_id run_id : String) → W → Resolved
unfolding owns
resolve_owned_run store session_id run_id w =
    if run_id == ""
    then elim (store.latest session_id w) [ none ↦ nothing | some run ↦ found run ]
    else elim (store.load run_id session_id w) [
      | none ↦ nothing
      | some run ↦ if owns run session_id then found run else foreign
    ]

-- The changed run, or the step that threw.
pub data Mutation : Type 0 where
  saved : RunState → Mutation
  locked missing not_owner unsaved : Mutation

abbrev pub saved_or : Option RunState → Mutation
saved_or none = unsaved
saved_or (some run) = saved run

-- The check of the owner, the change and the write, from the state under the lease.
unfoldable pub mutate_loaded :
    {W : Type 0} → Store W → String → (RunState → RunState) → Option RunState → W → Mutation × W
unfolding owns
mutate_loaded store session_id mutate none held = (missing, held)
mutate_loaded store session_id mutate (some fresh) held =
    if owns fresh session_id
    then (let (written, w) = store.persist (mutate fresh) held in (saved_or written, w))
    else (not_owner, held)

-- The lease is released however the change ends.
unfoldable pub mutate_owned_run :
    {W : Type 0} → Store W → (run_id session_id : String) → (RunState → RunState) → W → Mutation × W
unfolding mutate_loaded
mutate_owned_run store run_id session_id mutate w = elim (store.acquire run_id session_id w) [
  | none ↦ (locked, w)
  | some held ↦
      let (ended, w') =
        mutate_loaded store session_id mutate (store.load run_id session_id held) held in
      (ended, store.release w')
]

-- The assignment of `transferTarget`; the time of the transfer is left out.
abbrev pub hand_over : (current target : String) → RunState → RunState
hand_over current target fresh = record fresh {
  owner_transfers =
      fresh.owner_transfers
      ++ record { from_session_id = current; to_session_id = target; by_session_id = current } ∷ [];
  owner_session_id = target;
}

pub data TransferResult : Type 0 where
  invalid_target same_owner : TransferResult
  transferred : Mutation → TransferResult

-- `trim` and `units` are the method and the length of the language's strings.
unfoldable pub transfer_run_ownership :
    {W : Type 0} (trim : String → String) (units : String → ℕ)
    → Store W
    → (run_id current new_session : String) → W
    → TransferResult × W
unfolding mutate_owned_run
transfer_run_ownership trim units store run_id current new_session w =
    let target = trim new_session in
    if target == "" || ltb 256 (units target)
    then (invalid_target, w)
    else if target == current
    then (same_owner, w)
    else (let (ended, w') = mutate_owned_run store run_id current (hand_over current target) w in
        (transferred ended, w'))
