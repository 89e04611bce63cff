-- ===== src/Replication/Attempt.antt =====
-- `replicateEnvironmentMemory` with its retries, and `restoreEnvironmentMemory`. The engine is the
-- local database, as far as one call sees it.
use opencode_alg.Base.{
  ℕ, zero, suc, ◌-◌, min, String, Bool, true, false, ◌&&◌, ◌||◌, not, Option, none, some, List, [],
  ◌∷◌, ◌++◌, ltb, nat_eq, ◌==◌, ◌<>◌, if◌then◌else◌, length, find,
}
use opencode_alg.Replication.Data.{
  ReplicationErrorCode, conflict, corruption, remote_unavailable, EventBatch, Snapshot,
  SnapshotReference, BatchReference, Manifest, Codec, Remote, Outcome, done, failed, Action, ◌>>=◌,
  require, given, same_hash,
}
use opencode_alg.Replication.Chain.{verify_event_chain}
use opencode_alg.Replication.Parsing.{max_manifest_batches}
use opencode_alg.Replication.Remote.{
  throw_if_aborted, read_manifest, put_immutable, publish_manifest, validate_manifest_contents,
}

-- What `eventsSince` gives: a batch, nothing newer, or the news that the cursor is not retained.
pub data RetainedEvents : Type 0 where
  retained : EventBatch → RetainedEvents
  unretained nothing_newer : RetainedEvents

pub record Engine : Type 0 where
  pub namespace : String
  pub revision : ℕ
  pub event_hash : Option String
  pub export_snapshot : Snapshot
  pub events_since : (revision limit : ℕ) → RetainedEvents

pub record Receipt : Type 0 where
  pub local_revision : ℕ
  pub highest_replicated : ℕ
  pub pending_lag : ℕ
  pub generation : ℕ
  pub uploaded : ℕ

-- What an attempt is about to publish, and the cursor it reaches.
pub record Plan : Type 0 where
  pub manifest : Manifest
  pub expected : Option ℕ
  pub uploaded : ℕ

module _ {Bytes : Type 0} (codec : Codec Bytes) (remote : Remote Bytes) (engine : Engine) where
  -- Whether the local journal has the remote head among its receipts.
  unfoldable pub is_ancestor : Snapshot → Option (ℕ × Option String) → Bool
  is_ancestor s none = true
  is_ancestor s (some (revision, hash)) =
      nat_eq revision 0
      || elim (find (λ (receipt : ℕ × String). nat_eq receipt.0 revision) s.receipts) [
        | none ↦ false
        | some receipt ↦ same_hash (some receipt.1) hash
      ]

  abbrev pub snapshot_reference : Snapshot → SnapshotReference
  snapshot_reference s =
      let digest = codec.hash_bytes (codec.encode_snapshot s) in
      record {
        key = "objects/sha256/" <> (digest <> ".snapshot.json");
        sha256 = digest;
        revision = s.revision;
        event_hash = s.event_hash;
      }

  -- A snapshot that the schema refuses counts as corrupt; no such error is tried again.
  unfoldable pub upload_checkpoint :
      Option (ℕ × Option String) → Action Bytes (SnapshotReference × ℕ)
  unfolding is_ancestor put_immutable
  upload_checkpoint ancestor = do
    let s = engine.export_snapshot
    _ ← require (codec.is_snapshot s) corruption
    _ ←
        require (nat_eq s.revision engine.revision && same_hash s.event_hash engine.event_hash)
          conflict
    _ ← require (s.namespace == engine.namespace) corruption
    _ ← require (is_ancestor s ancestor) conflict
    uploaded ← put_immutable codec remote (snapshot_reference s).key (codec.encode_snapshot s)
    done (snapshot_reference s, uploaded)

  abbrev pub next_manifest :
      (generation revision : ℕ)
      → (hash predecessor : Option String) → SnapshotReference
      → List BatchReference
      → Manifest
  next_manifest generation revision hash predecessor s batches = record {
    namespace = engine.namespace;
    generation = generation;
    revision = revision;
    event_hash = hash;
    predecessor = predecessor;
    snapshot = s;
    batches = batches;
  }

  unfoldable pub plan_first : Action Bytes Plan
  unfolding upload_checkpoint
  plan_first = do
    (s, uploaded) ← upload_checkpoint none
    done (record {
      manifest = next_manifest 1 engine.revision engine.event_hash none s [];
      expected = none;
      uploaded = uploaded;
    })

  abbrev pub batch_reference : EventBatch → (revision : ℕ) → BatchReference
  batch_reference batch revision =
      let digest = codec.hash_bytes (codec.encode_batch batch) in
      record {
        key = "objects/sha256/" <> (digest <> ".events.json");
        sha256 = digest;
        from_revision = batch.from_revision;
        to_revision = revision;
        previous_hash = batch.previous_hash;
      }

  module _ (current : Manifest) (version : ℕ) (hash : String) where
    -- A segment that continues the remote head is appended to it.
    unfoldable pub plan_append : EventBatch → Action Bytes Plan
    unfolding verify_event_chain put_immutable
    plan_append batch = do
      (revision, head) ←
          given
            (verify_event_chain codec engine.namespace batch current.revision current.event_hash)
            corruption
      let r = batch_reference batch revision
      uploaded ← put_immutable codec remote r.key (codec.encode_batch batch)
      done (record {
        manifest =
            next_manifest (suc current.generation) revision head (some hash) current.snapshot
              (current.batches ++ r ∷ []);
        expected = some version;
        uploaded = uploaded;
      })

    -- A complete snapshot takes the place of the remote head that it descends from.
    unfoldable pub plan_replace : Action Bytes Plan
    unfolding upload_checkpoint
    plan_replace = do
      (s, uploaded) ← upload_checkpoint (some (current.revision, current.event_hash))
      done (record {
        manifest =
            next_manifest (suc current.generation) engine.revision engine.event_hash (some hash) s
              [];
        expected = some version;
        uploaded = uploaded;
      })

    unfoldable pub plan_from : RetainedEvents → Action Bytes Plan
    unfolding plan_append plan_replace
    plan_from (retained batch) = plan_append batch
    plan_from unretained = plan_replace
    plan_from nothing_newer = λ w. failed corruption w

    unfoldable pub plan_next : (event_limit : ℕ) → Action Bytes Plan
    unfolding plan_from plan_replace
    plan_next event_limit =
        if ltb (length current.batches) max_manifest_batches
        then plan_from (
            engine.events_since current.revision
              (min event_limit (engine.revision - current.revision)))
        else plan_replace

    -- Nothing to do where the cursors are the same.
    unfoldable pub unchanged_receipt : Receipt
    unchanged_receipt = record {
      local_revision = engine.revision;
      highest_replicated = current.revision;
      pending_lag = 0;
      generation = current.generation;
      uploaded = 0;
    }

  unfoldable pub receipt_of : Plan → Receipt
  receipt_of plan = record {
    local_revision = engine.revision;
    highest_replicated = plan.manifest.revision;
    pending_lag = engine.revision - plan.manifest.revision;
    generation = plan.manifest.generation;
    uploaded = plan.uploaded;
  }

  unfoldable pub publish_plan : Plan → Action Bytes Receipt
  unfolding publish_manifest receipt_of
  publish_plan plan = do
    _ ← publish_manifest codec remote plan.manifest plan.expected
    done (receipt_of plan)

  -- What follows once the remote contents are verified.
  unfoldable pub advance : (event_limit : ℕ) → Manifest → ℕ → String → Action Bytes Receipt
  unfolding plan_next publish_plan unchanged_receipt
  advance event_limit current version hash =
      if ltb engine.revision current.revision
      then (λ w. failed conflict w)
      else if not (nat_eq current.revision engine.revision)
      then plan_next current version hash event_limit >>= publish_plan
      else if same_hash current.event_hash engine.event_hash
      then done (unchanged_receipt current version hash)
      else (λ w. failed conflict w)

  unfoldable pub replicate_over : (event_limit : ℕ) → Manifest → ℕ → String → Action Bytes Receipt
  unfolding validate_manifest_contents advance
  replicate_over event_limit current version hash = do
    _ ← validate_manifest_contents codec remote engine.namespace current
    advance event_limit current version hash

  unfoldable pub replicate_onto :
      (event_limit : ℕ) → Option (Manifest × ℕ × String) → Action Bytes Receipt
  unfolding plan_first publish_plan replicate_over
  replicate_onto event_limit none = plan_first >>= publish_plan
  replicate_onto event_limit (some (current, version, hash)) =
      replicate_over event_limit current version hash

  unfoldable pub replicate_attempt : (event_limit : ℕ) → Action Bytes Receipt
  unfolding read_manifest replicate_onto
  replicate_attempt event_limit =
      read_manifest codec remote engine.namespace >>= replicate_onto event_limit

  abbrev pub is_retried : ReplicationErrorCode → Bool
  is_retried remote_unavailable = true
  is_retried conflict = true
  is_retried _ = false

  abbrev pub on_failure :
      (ReplicationErrorCode → Action Bytes Receipt) → Outcome Bytes Receipt → Outcome Bytes Receipt
  on_failure again (done receipt w) = done receipt w
  on_failure again (failed code w) = again code w

  -- The loop over the attempts, of which `more` come after this one.
  unfoldable pub replicate : (event_limit more : ℕ) → Action Bytes Receipt
  unfolding throw_if_aborted replicate_attempt
  replicate event_limit zero = do _ ← throw_if_aborted codec remote; replicate_attempt event_limit
  replicate event_limit (suc more) = do
    _ ← throw_if_aborted codec remote
    λ w.
        on_failure
          (λ code w'. if is_retried code then replicate event_limit more w' else failed code w')
          (replicate_attempt event_limit w)

  -- What recovery hands to the engine in one transaction.
  unfoldable pub restore : Action Bytes (Snapshot × List EventBatch)
  unfolding read_manifest validate_manifest_contents throw_if_aborted
  restore = do
    head ← read_manifest codec remote engine.namespace
    (m, _, _) ← given head corruption
    contents ← validate_manifest_contents codec remote engine.namespace m
    _ ← throw_if_aborted codec remote
    done contents
