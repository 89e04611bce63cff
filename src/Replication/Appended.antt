-- ===== src/Replication/Appended.antt =====
-- A segment that continues the remote head keeps the manifest backed.
use opencode_alg.Base.{
  true, ℕ, ◌+◌, String, ◌&&◌, Option, none, some, List, [], ◌∷◌, ◌++◌, nat_eq, ◌==◌, ◌≡◌, refl, sym,
  arith, and_split, ◌∙◌, Bool-cases, inl, inr,
}
use opencode_alg.Replication.Data.{
  EventBatch, BatchReference, Manifest, Codec, World, Remote, corruption, same_hash,
}
use opencode_alg.Replication.Chain.{verify_event_chain, verify_events, ends_at}
use opencode_alg.Replication.Parsing.{check_batch}
use opencode_alg.Replication.Remote.{put_immutable}
use opencode_alg.Replication.Attempt.{Engine, batch_reference, plan_append}
use opencode_alg.Replication.Backed.{
  Objects, IsImmutable, Ends, after-Ends, after-given, same_hash-eq, same_hash_self, IsStored,
  Chained, ended, linked, IsBacked-Keeps,
}
use opencode_alg.Replication.Published.{
  IsFaithful, WasPlanned, if_true, and_intro, nat_eq_self, Standing, WasStored, put_immutable-Ends,
}

module _ {Bytes : Type 0} (codec : Codec Bytes) (namespace : String) where
  pub ends_at-same :
      (to_revision : ℕ) (end : Option (ℕ × Option String)) (head : ℕ × Option String)
      → ends_at codec namespace to_revision end ≡ some head
      → (end ≡ some head) × (to_revision ≡ head.0)
  unfolding ends_at
  ends_at-same to_revision none head h = cc
  ends_at-same to_revision (some (revision, hash)) head h = ground arith

  -- A verified batch starts at the cursor, and ends at the revision that it names.
  pub verify_event_chain-cursor :
      (batch : EventBatch) (revision : ℕ) (hash : Option String) (head : ℕ × Option String)
      → verify_event_chain codec namespace batch revision hash ≡ some head
      → (batch.from_revision ≡ revision)
        × (batch.previous_hash ≡ hash)
        × (batch.to_revision ≡ head.0)
  unfolding verify_event_chain
  verify_event_chain-cursor batch revision hash head h =
      elim (Bool-cases (
        batch.namespace == namespace
        && nat_eq batch.from_revision revision
        && same_hash batch.previous_hash hash)) [
          | inr e ↦
              absurd (let n : none ≡ some head = sym (rw (e, verify_event_chain) refl) ∙ h in cc)
          | inl e ↦
              let opened : ends_at codec namespace batch.to_revision
                    (verify_events codec namespace revision hash (batch.first ∷ batch.more))
                  ≡ some head =
                sym (if_true _ none e) ∙ h in
              let (most, previous) =
                and_split (batch.namespace == namespace && nat_eq batch.from_revision revision)
                  (same_hash batch.previous_hash hash) e in
              let (same, from) =
                and_split (batch.namespace == namespace) (nat_eq batch.from_revision revision)
                  most in
              let (found, to) =
                ends_at-same batch.to_revision
                  (verify_events codec namespace revision hash (batch.first ∷ batch.more)) head
                  opened in
              (ground arith, same_hash-eq batch.previous_hash hash previous, to)
        ]

module _ {Bytes : Type 0} (codec : Codec Bytes) (maximum : ℕ) (namespace : String)
    (objects : Objects Bytes) where
  -- A chain goes on by one more segment, if that stands in the store too.
  Chained-append :
      (refs : List BatchReference) (revision : ℕ) (hash : Option String) (batches : List EventBatch)
      (middle head : ℕ × Option String) (total : ℕ) (r : BatchReference) (batch : EventBatch)
      (bytes : Bytes)
      → Chained codec maximum namespace objects refs revision hash batches middle total
      → IsStored codec maximum objects r.key r.sha256 bytes
      → (r.from_revision ≡ middle.0) × (r.previous_hash ≡ middle.1)
      → check_batch codec namespace r middle.0 middle.1 bytes ≡ some (batch, head)
      → (total' : ℕ) × Chained codec maximum namespace objects
          (refs ++ r ∷ [])
          revision
          hash
          (batches ++ batch ∷ [])
          head
          total'
  Chained-append _ revision hash _ _ head _ r batch bytes ended stored cursor checked =
      (codec.size bytes + 0, linked bytes head.0 head.1 stored cursor checked ended)
  Chained-append (r' ∷ refs) revision hash (b ∷ batches) middle head _ r batch bytes
        (linked earlier revision' hash' place start passed more) stored cursor checked =
      let (rest, chained) =
        Chained-append refs revision' hash' batches middle head _ r batch bytes more stored cursor
          checked in
      (codec.size earlier + rest, linked earlier revision' hash' place start passed chained)

module _ {Bytes : Type 0} (codec : Codec Bytes) (faithful : IsFaithful codec)
    (remote : Remote Bytes) (immutable : IsImmutable remote) (engine : Engine) (current : Manifest)
    (version : ℕ) (hash : String) where
  check_batch-new :
      (batch : EventBatch) (revision : ℕ) (head : Option String)
      → codec.is_batch batch ≡ true
      → verify_event_chain codec engine.namespace batch current.revision current.event_hash
        ≡ some (revision, head)
      → check_batch codec engine.namespace
          (batch_reference codec remote engine batch revision)
          current.revision
          current.event_hash
          (codec.encode_batch batch)
        ≡ some (batch, (revision, head))
  unfolding check_batch
  check_batch-new batch revision head fits h =
      let (from, previous, to) =
        verify_event_chain-cursor codec engine.namespace batch current.revision current.event_hash
          (revision, head) h in
      rw (faithful.batch_read batch fits, check_batch)
        (if_true _ none (
            and_intro (and_intro (nat_eq_self batch.from_revision) (ground arith))
              (same_hash_self batch.previous_hash))
          ∙ rw h refl)

  pub plan_append-Ends :
      (batch : EventBatch) (w : World Bytes)
      → codec.is_batch batch ≡ true
      → Standing codec faithful remote immutable engine w.store.objects current
      → Ends
          (WasPlanned codec faithful remote immutable engine w)
          (plan_append codec remote engine current version hash batch w)
  unfolding plan_append
  plan_append-Ends batch w fits (s, batches, total, backed) =
      let Q = WasPlanned codec faithful remote immutable engine w in
      after-given Q
        (verify_event_chain codec engine.namespace batch current.revision current.event_hash)
        corruption w _
        (λ (revision, head) verified.
          let r = batch_reference codec remote engine batch revision in
          let (from, previous, to) =
            verify_event_chain-cursor codec engine.namespace batch current.revision
              current.event_hash (revision, head) verified in
          after-Ends Q
            (λ n w'.
              WasStored codec faithful remote immutable w r.key (codec.encode_batch batch) w')
            (put_immutable codec remote r.key (codec.encode_batch batch) w) _
            (put_immutable-Ends codec faithful remote immutable r.key (codec.encode_batch batch) w)
            (λ n w' (later, stored).
              let kept =
                IsBacked-Keeps codec remote.max_object_bytes engine.namespace w.store.objects
                  w'.store.objects current s batches total later backed in
              let (rest, chained) =
                Chained-append codec remote.max_object_bytes engine.namespace w'.store.objects
                  current.batches s.revision s.event_hash batches
                  (current.revision, current.event_hash) (revision, head) kept.tail_total r batch
                  (codec.encode_batch batch) kept.chained stored (from, previous)
                  (check_batch-new batch revision head fits verified) in
              (
                later,
                (
                  s,
                  batches ++ batch ∷ [],
                  codec.size kept.snapshot_bytes + rest,
                  record {
                    snapshot_bytes = kept.snapshot_bytes;
                    snapshot_stored = kept.snapshot_stored;
                    snapshot_checked = kept.snapshot_checked;
                    tail_total = rest;
                    chained = chained;
                    whole = refl;
                  },
                ),
              )))
