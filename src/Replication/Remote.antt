-- ===== src/Replication/Remote.antt =====
-- Accesses of the store: readManifest, putImmutable, publishManifest, readVerifiedObject and
-- validateManifestContents. Each access first lets the other writers act.
use opencode_alg.Base.{
  ℕ, suc, ◌+◌, String, Bool, true, false, ◌&&◌, Option, none, some, List, [], ◌∷◌, leb, nat_eq,
  ◌==◌, if◌then◌else◌, lookup,
}
use opencode_alg.Replication.Data.{
  conflict, corruption, remote_unavailable, cancelled, capacity, namespace_mismatch, EventBatch,
  Snapshot, BatchReference, Manifest, Codec, World, Remote, done, failed, Action, ◌>>=◌, require,
  given, same_hash,
}
use opencode_alg.Replication.Parsing.{
  manifest_max_bytes, max_recovery_bytes, parse_manifest, check_batch, check_snapshot,
}

module _ {Bytes : Type 0} (codec : Codec Bytes) (remote : Remote Bytes) where
  unfoldable pub tick : World Bytes → World Bytes
  tick w = record { step = suc w.step; store = remote.others w.step w.store }

  -- An access that the store answers.
  unfoldable pub reach : Action Bytes (Unit {0})
  unfolding tick
  reach w =
      let w' = tick w in
      if remote.aborted w'.step
      then failed cancelled w'
      else if remote.answers w'.step
      then done tt w'
      else failed remote_unavailable w'

  -- `throwIfAborted`
  unfoldable pub throw_if_aborted : Action Bytes (Unit {0})
  throw_if_aborted w = if remote.aborted w.step then failed cancelled w else done tt w

  -- The manifest with its version and the hash of its bytes; `none` where there is none yet.
  abbrev pub RemoteHead : Type 0
  RemoteHead = Option (Manifest × ℕ × String)

  unfoldable pub parse_head : (namespace : String) → Option (Bytes × ℕ) → Action Bytes RemoteHead
  unfolding parse_manifest
  parse_head namespace none = done none
  parse_head namespace (some (bytes, version)) = do
    m ← parse_manifest codec bytes
    _ ← require (m.namespace == namespace) namespace_mismatch
    done (some (m, version, codec.hash_bytes bytes))

  unfoldable pub read_manifest : (namespace : String) → Action Bytes RemoteHead
  unfolding throw_if_aborted reach parse_head
  read_manifest namespace = do
    _ ← throw_if_aborted
    _ ← reach
    λ w. parse_head namespace w.store.head w

  unfoldable pub store_object : (key : String) → Bytes → Option Bytes → Action Bytes ℕ
  store_object key bytes (some present) w =
      if codec.same_bytes present bytes then done 0 w else failed corruption w
  store_object key bytes none w = done 1 (record {
    step = w.step;
    store = record { objects = (key, bytes) ∷ w.store.objects; head = w.store.head };
  })

  -- The number of objects that were created: a key that holds the same bytes already is a success.
  unfoldable pub put_immutable : (key : String) → Bytes → Action Bytes ℕ
  unfolding reach store_object lookup
  put_immutable key bytes = do
    _ ← require (leb (codec.size bytes) remote.max_object_bytes) capacity
    _ ← reach
    λ w. store_object key bytes (lookup key w.store.objects) w

  abbrev pub version_of : Option (Bytes × ℕ) → Option ℕ
  version_of none = none
  version_of (some (bytes, version)) = some version

  abbrev pub same_version : Option ℕ → Option ℕ → Bool
  same_version none none = true
  same_version (some a) (some b) = nat_eq a b
  same_version _ _ = false

  -- `replaceManifest`: a compare-and-swap on the version.
  unfoldable pub replace_manifest : Bytes → (expected : Option ℕ) → Action Bytes (Unit {0})
  replace_manifest bytes expected w =
      if same_version (version_of w.store.head) expected
      then done tt (record {
        step = w.step;
        store = record { objects = w.store.objects; head = some (bytes, remote.version_at w.step) };
      })
      else failed conflict w

  unfoldable pub publish_manifest : Manifest → (expected : Option ℕ) → Action Bytes (Unit {0})
  unfolding reach replace_manifest
  publish_manifest m expected = do
    let bytes = codec.encode_manifest m
    _ ←
        require
          (leb (codec.size bytes) manifest_max_bytes
            && leb (codec.size bytes) remote.max_object_bytes)
          capacity
    _ ← reach
    replace_manifest bytes expected

  unfoldable pub read_verified_object : (key sha256 : String) → Action Bytes Bytes
  unfolding reach lookup
  read_verified_object key sha256 = do
    _ ← reach
    bytes ← λ w. given (lookup key w.store.objects) corruption w
    _ ← require (leb (codec.size bytes) remote.max_object_bytes) capacity
    _ ← require (codec.hash_bytes bytes == sha256) corruption
    done bytes

  module _ (namespace : String) where
    -- The loop over the references; `total` counts the bytes read.
    unfoldable pub validate_batches :
        List BatchReference
        → (revision : ℕ) → (hash : Option String) → (total : ℕ)
        → Action Bytes (List EventBatch × (ℕ × Option String))
    unfolding throw_if_aborted read_verified_object check_batch
    validate_batches [] revision hash total = done ([], (revision, hash))
    validate_batches (r ∷ refs) revision hash total = do
      _ ← throw_if_aborted
      _ ← require (nat_eq r.from_revision revision && same_hash r.previous_hash hash) corruption
      bytes ← read_verified_object r.key r.sha256
      _ ← require (leb (total + codec.size bytes) max_recovery_bytes) capacity
      (batch, (revision', hash')) ←
          given (check_batch codec namespace r revision hash bytes) corruption
      (batches, head) ← validate_batches refs revision' hash' (total + codec.size bytes)
      done (batch ∷ batches, head)

    -- The snapshot and the segments of a manifest, whose chain ends at the manifest's own cursor.
    unfoldable pub validate_manifest_contents : Manifest → Action Bytes (Snapshot × List EventBatch)
    unfolding read_verified_object check_snapshot validate_batches
    validate_manifest_contents m = do
      bytes ← read_verified_object m.snapshot.key m.snapshot.sha256
      s ← given (check_snapshot codec namespace m.snapshot bytes) corruption
      (batches, (revision, hash)) ←
          validate_batches m.batches s.revision s.event_hash (codec.size bytes)
      _ ← require (nat_eq revision m.revision && same_hash hash m.event_hash) corruption
      done (s, batches)
