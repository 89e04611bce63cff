-- ===== src/FilesystemMutex/Acquire.antt =====
-- `acquireTakeoverClaim` and `acquireFilesystemMutex`.
use opencode_alg.Base.{
  ℕ, zero, suc, ◌+◌, String, Bool, false, ◌||◌, not, Option, none, some, ltb, ◌==◌, ◌<>◌,
  if◌then◌else◌,
}
use opencode_alg.FilesystemMutex.Files.{
  MutexRecord, LockFile, World, Process, tick, claim_path, read_verified, MutexDisposition, held,
  takeover, unverifiable, mutex_disposition, confirms, still_created_file,
}

-- What is thrown: a contention error with the record that was seen, or another error. A claim that
-- is found stale again and again keeps its loop running.
pub data MutexError : Type 0 where
  contention : Option MutexRecord → MutexError
  failure spinning : MutexError

-- `heldOrUnverifiableError`
unfoldable pub refusal : MutexDisposition → Option MutexRecord → MutexError
refusal held observed = contention observed
refusal _ observed = failure

pub data ClaimResult : Type 0 where
  claimed : (identity : ℕ) → World → ClaimResult
  unclaimed : MutexError → World → ClaimResult

abbrev pub with_claim : World → Option LockFile → World
with_claim w file = record { step = w.step; disk = record { mutex = w.disk.mutex; claim = file } }

abbrev pub with_mutex : World → Option LockFile → World
with_mutex w file = record { step = w.step; disk = record { mutex = file; claim = w.disk.claim } }

-- The lease that a success holds, with the identity of its file.
pub data AcquireResult : Type 0 where
  acquired : MutexRecord → (identity : ℕ) → World → AcquireResult
  refused : MutexError → World → AcquireResult

module _ (process : Process) where
  abbrev pub claim_record : String → World → MutexRecord
  claim_record token w = record {
    owner = "stale-takeover:" <> process.path;
    token = token;
    pid = process.pid;
    host = process.host;
    resource = claim_path process;
    acquired_at = process.clock w.step;
    expires_at = process.clock w.step + 5_000;
  }

  -- The stale claim is moved away, and the loop goes on.
  unfoldable pub remove_claim : (World → ClaimResult) → World → ClaimResult
  remove_claim next w = elim w.disk.claim [
    | none ↦ unclaimed failure w
    | some file ↦ next (with_claim w none)
  ]

  unfoldable pub take_claim :
      (World → ClaimResult) → MutexRecord → MutexDisposition → World → ClaimResult
  unfolding tick confirms remove_claim refusal
  take_claim next observed takeover w =
      let w' = tick process w in
      if confirms process (claim_path process) (process.clock w'.step) observed w'.disk.claim
      then remove_claim next (tick process w')
      else unclaimed failure w'
  take_claim next observed held w = unclaimed (refusal held none) w
  take_claim next observed unverifiable w = unclaimed (refusal unverifiable none) w

  -- What follows where the claim file exists.
  unfoldable pub inspect_claim : (World → ClaimResult) → World → ClaimResult
  unfolding read_verified mutex_disposition take_claim
  inspect_claim next w = elim (read_verified (claim_path process) w.disk.claim) [
    | none ↦ unclaimed failure w
    | some observed ↦
        take_claim next observed (mutex_disposition process (process.clock w.step) observed) w
  ]

  -- The loop of `acquireTakeoverClaim`, on fuel: exclusive creation, or a look at the file there is.
  unfoldable pub claim_loop : ℕ → (token : String) → World → ClaimResult
  unfolding tick inspect_claim
  claim_loop zero token w = unclaimed spinning w
  claim_loop (suc fuel) token w =
      let w' = tick process w in
      elim w'.disk.claim [
        | none ↦ claimed (process.identity_at w'.step) (
            with_claim w' (
              some (record {
                identity = process.identity_at w'.step;
                content = some (claim_record token w');
              })))
        | some file ↦ inspect_claim (claim_loop fuel token) (tick process w')
      ]

  abbrev has_token : String → Option MutexRecord → Bool
  has_token token none = false
  has_token token (some r) = r.token == token

  -- Whether the file is the one that was created, or else holds the token.
  unfoldable pub is_own : String → (created : ℕ) → (token : String) → Option LockFile → Bool
  unfolding still_created_file read_verified
  is_own path created token file = elim (still_created_file created file) [
    | some same ↦ same
    | none ↦ has_token token (read_verified path file)
  ]

  -- The function that `acquireTakeoverClaim` returns.
  unfoldable pub release_claim : (created : ℕ) → (token : String) → World → World
  unfolding tick is_own
  release_claim created token w =
      let w' = tick process w in
      if is_own (claim_path process) created token w'.disk.claim then with_claim w' none else w'

  abbrev pub lease_record : (owner token : String) (lease_ms : ℕ) → World → MutexRecord
  lease_record owner token lease_ms w = record {
    owner = owner;
    token = token;
    pid = process.pid;
    host = process.host;
    resource = process.path;
    acquired_at = process.clock w.step;
    expires_at = process.clock w.step + lease_ms;
  }

  module _ (owner token claim_token : String) (lease_ms : ℕ) where
    -- `writeExclusive` of the lease.
    unfoldable pub write_lease : World → AcquireResult
    unfolding tick
    write_lease w =
        let w' = tick process w in
        let lease = lease_record owner token lease_ms w' in
        let created = process.identity_at w'.step in
        elim w'.disk.mutex [
          | some file ↦ refused failure w'
          | none ↦
              acquired lease created
                (with_mutex w' (some (record { identity = created; content = some lease })))
        ]

    -- The stale lease is moved away.
    unfoldable pub replace_lease : World → AcquireResult
    unfolding write_lease
    replace_lease w = elim w.disk.mutex [
      | none ↦ refused failure w
      | some file ↦ write_lease (with_mutex w none)
    ]

    unfoldable pub take_lease : MutexRecord → MutexDisposition → World → AcquireResult
    unfolding tick confirms replace_lease refusal
    take_lease observed takeover w =
        let w' = tick process w in
        if confirms process process.path (process.clock w'.step) observed w'.disk.mutex
        then replace_lease (tick process w')
        else refused failure w'
    take_lease observed held w = refused (refusal held (some observed)) w
    take_lease observed unverifiable w = refused (refusal unverifiable (some observed)) w

    -- Under the claim: an absent lease is written, and a stale one is taken over.
    unfoldable pub under_claim : World → AcquireResult
    unfolding tick read_verified mutex_disposition write_lease take_lease
    under_claim w =
        let w' = tick process w in
        elim w'.disk.mutex [
          | none ↦ write_lease w'
          | some file ↦ elim (read_verified process.path (some file)) [
            | none ↦ refused failure w'
            | some observed ↦
                take_lease observed (mutex_disposition process (process.clock w'.step) observed) w'
          ]
        ]

    -- `finally`: the claim is given back.
    unfoldable pub finally : (created : ℕ) → AcquireResult → AcquireResult
    unfolding release_claim
    finally created (acquired lease identity w) =
        acquired lease identity (release_claim created claim_token w)
    finally created (refused error w) = refused error (release_claim created claim_token w)

    unfoldable pub after_claim : ClaimResult → AcquireResult
    unfolding under_claim finally tick
    after_claim (claimed created w) = finally created (under_claim w)
    after_claim (unclaimed error w) =
        let w' = tick process w in
        elim w'.disk.mutex [ none ↦ refused error w' | some file ↦ refused (contention none) w' ]

    -- The first look, without the claim: a verified lease that is not stale is refused.
    unfoldable pub seen_first : World → Option MutexError
    unfolding read_verified mutex_disposition refusal
    seen_first w = elim (read_verified process.path w.disk.mutex) [
      | none ↦ none
      | some observed ↦ elim (mutex_disposition process (process.clock w.step) observed) [
        | takeover ↦ none
        | held ↦ some (refusal held (some observed))
        | unverifiable ↦ some (refusal unverifiable (some observed))
      ]
    ]

    -- `acquireFilesystemMutex`, behind the checks of its numbers.
    unfoldable pub acquire_from : (fuel : ℕ) → World → AcquireResult
    unfolding tick seen_first claim_loop after_claim
    acquire_from fuel w =
        let w' = tick process w in
        elim (seen_first w') [
          | some error ↦ refused error w'
          | none ↦ after_claim (claim_loop fuel claim_token w')
        ]

    -- The lease and the heartbeat are bounded first.
    unfoldable pub acquire_filesystem_mutex :
        (heartbeat_ms : ℕ) → (fuel : ℕ) → World → AcquireResult
    unfolding acquire_from
    acquire_filesystem_mutex heartbeat_ms fuel w =
        if ltb lease_ms 100
          || ltb 60_000 lease_ms
          || ltb heartbeat_ms 10
          || not (ltb heartbeat_ms lease_ms)
        then refused failure w
        else acquire_from fuel w
