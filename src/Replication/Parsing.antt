-- ===== src/Replication/Parsing.antt =====
-- What the bytes of a manifest, a snapshot and a segment must be.
use opencode_alg.Base.{
  ℕ, String, ◌&&◌, not, Option, none, some, ltb, leb, nat_eq, ◌==◌, if◌then◌else◌, length, every,
  Bool,
}
use opencode_alg.Replication.Data.{
  corruption, capacity, EventBatch, Snapshot, SnapshotReference, BatchReference, Manifest, Codec,
  done, Action, ◌>>=◌, require, given, same_hash, is_sha256, is_sha256_or_null,
}
use opencode_alg.Replication.Chain.{verify_event_chain}

abbrev pub manifest_max_bytes : ℕ
manifest_max_bytes = 1_048_576

abbrev pub max_manifest_batches : ℕ
max_manifest_batches = 64

abbrev pub max_recovery_bytes : ℕ
max_recovery_bytes = 67_108_864

module _ {Bytes : Type 0} (codec : Codec Bytes) where
  unfoldable pub is_batch_reference : BatchReference → Bool
  unfolding is_sha256
  is_batch_reference r =
      is_sha256 r.sha256 && ltb r.from_revision r.to_revision && is_sha256_or_null r.previous_hash

  -- The fields of the manifest itself.
  unfoldable pub has_fields : Manifest → Bool
  unfolding is_sha256
  has_fields m =
      not (m.namespace == "")
      && ltb 0 m.generation
      && is_sha256_or_null m.event_hash
      && is_sha256_or_null m.predecessor

  unfoldable pub is_snapshot_reference : SnapshotReference → Bool
  unfolding is_sha256
  is_snapshot_reference r = is_sha256 r.sha256 && is_sha256_or_null r.event_hash

  unfoldable pub parse_manifest : Bytes → Action Bytes Manifest
  unfolding has_fields is_snapshot_reference is_batch_reference
  parse_manifest bytes = do
    _ ← require (leb (codec.size bytes) manifest_max_bytes) capacity
    m ← given (codec.decode_manifest bytes) corruption
    _ ← require (has_fields m) corruption
    _ ← require (is_snapshot_reference m.snapshot) corruption
    _ ← require (leb (length m.batches) max_manifest_batches) capacity
    _ ← require (every is_batch_reference m.batches) corruption
    done m

  module _ (namespace : String) where
    -- What a segment's bytes must be, and the cursor at its end.
    unfoldable pub check_batch :
        BatchReference
        → (revision : ℕ) → (hash : Option String) → Bytes
        → Option (EventBatch × (ℕ × Option String))
    unfolding verify_event_chain
    check_batch r revision hash bytes = elim (codec.decode_batch bytes) [
      | none ↦ none
      | some batch ↦
          if nat_eq batch.from_revision r.from_revision
            && nat_eq batch.to_revision r.to_revision
            && same_hash batch.previous_hash r.previous_hash
          then elim (verify_event_chain codec namespace batch revision hash) [
            | none ↦ none
            | some head ↦ some (batch, head)
          ]
          else none
    ]

    unfoldable pub check_snapshot : SnapshotReference → Bytes → Option Snapshot
    check_snapshot r bytes = elim (codec.decode_snapshot bytes) [
      | none ↦ none
      | some s ↦
          if s.namespace == namespace
            && nat_eq s.revision r.revision
            && same_hash s.event_hash r.event_hash
          then some s
          else none
    ]
