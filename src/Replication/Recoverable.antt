-- ===== src/Replication/Recoverable.antt =====
-- What a replication publishes can be recovered.
use opencode_alg.Base.{
  ℕ, suc, ◌<◌, length-append, min, ◌-◌, String, true, not, Option, none, some, List, [], ◌∷◌, ◌++◌,
  ltb, length, every, ◌≡◌, refl, sym, arith, and_split, if_ind, ap, subst, ◌∙◌,
}
use opencode_alg.Replication.Data.{
  EventBatch, SnapshotReference, BatchReference, Manifest, Codec, World, Remote, corruption, Action,
  is_sha256, is_sha256_or_null,
}
use opencode_alg.Replication.Chain.{verify_event_chain}
use opencode_alg.Replication.Parsing.{
  max_manifest_batches, has_fields, is_snapshot_reference, is_batch_reference,
}
use opencode_alg.Replication.Remote.{put_immutable}
use opencode_alg.Replication.Attempt.{
  Engine, Plan, upload_checkpoint, next_manifest, plan_first, batch_reference, plan_append,
  plan_replace, plan_from, plan_next, RetainedEvents, retained, unretained, nothing_newer,
}
use opencode_alg.Replication.Backed.{IsImmutable, Ends, Ends-any, after-Ends, after-given}
use opencode_alg.Replication.Published.{IsFaithful, and_intro, WasUploaded, upload_checkpoint-Ends}
use opencode_alg.Replication.Appended.{verify_event_chain-cursor}
use opencode_alg.Replication.Recovered.{IsWellFormed}
use opencode_alg.Replication.Formed.{IsNamed, verify_event_chain-end}

every-append :
    {Bytes : Type 0} (codec : Codec Bytes) (refs : List BatchReference) (r : BatchReference)
    → every (is_batch_reference codec) refs ≡ true
    → is_batch_reference codec r ≡ true
    → every (is_batch_reference codec) (refs ++ r ∷ []) ≡ true
every-append codec [] r h e = rw e refl
every-append codec (x ∷ refs) r h e =
    let (first, rest) =
      and_split (is_batch_reference codec x) (every (is_batch_reference codec) refs) h in
    and_intro first (every-append codec refs r rest e)

module _ {Bytes : Type 0} (codec : Codec Bytes) (faithful : IsFaithful codec)
    (remote : Remote Bytes) (immutable : IsImmutable remote) (engine : Engine)
    (named : IsNamed engine) where
  -- The manifest of the plan has its fields in order, and is the engine's.
  abbrev pub IsFormed : Plan → World Bytes → Type 0
  IsFormed plan w = IsWellFormed codec plan.manifest × (plan.manifest.namespace ≡ engine.namespace)

  checkpoint-IsWellFormed :
      (generation : ℕ) (predecessor : Option String) (w w' : World Bytes)
      (uploaded : SnapshotReference × ℕ)
      → 0 < generation
      → is_sha256_or_null predecessor ≡ true
      → WasUploaded codec faithful remote immutable engine w uploaded w'
      → IsWellFormed codec (
          next_manifest codec remote engine generation engine.revision engine.event_hash predecessor
            uploaded.0 [])
  unfolding has_fields is_snapshot_reference
  checkpoint-IsWellFormed generation predecessor w w' uploaded positive digest
        (stored, reference, same, head, place, fits) =
      record {
        fields =
            and_intro (and_intro (and_intro (ap not named.named) (ground arith)) named.digest)
              digest;
        snapshot =
            subst (λ (r : SnapshotReference). is_snapshot_reference codec r ≡ true) (sym reference)
              (and_intro (faithful.digest (codec.encode_snapshot engine.export_snapshot))
                (ap is_sha256_or_null head ∙ named.digest));
        few = ground arith;
        references = refl;
      }

  pub plan_first-IsFormed : (w : World Bytes) → Ends IsFormed (plan_first codec remote engine w)
  unfolding plan_first
  plan_first-IsFormed w =
      after-Ends IsFormed (WasUploaded codec faithful remote immutable engine w)
        (upload_checkpoint codec remote engine none w) _
        (upload_checkpoint-Ends codec faithful remote immutable engine none w)
        (λ uploaded w' up.
          (checkpoint-IsWellFormed 1 none w w' uploaded (omega arith) refl up, refl))

  module _ (current : Manifest) (version : ℕ) (hash : String) (formed : IsWellFormed codec current)
      (digest : is_sha256 hash ≡ true) where
    plan_replace-IsFormed :
        (w : World Bytes) → Ends IsFormed (plan_replace codec remote engine current version hash w)
    unfolding plan_replace
    plan_replace-IsFormed w =
        let ancestor = some (current.revision, current.event_hash) in
        after-Ends IsFormed (WasUploaded codec faithful remote immutable engine w)
          (upload_checkpoint codec remote engine ancestor w) _
          (upload_checkpoint-Ends codec faithful remote immutable engine ancestor w)
          (λ uploaded w' up. (
            checkpoint-IsWellFormed (suc current.generation) (some hash) w w' uploaded (omega arith)
                digest up,
            refl,
          ))

    plan_append-IsFormed :
        (batch : EventBatch) (w : World Bytes)
        → length current.batches < max_manifest_batches
        → Ends IsFormed (plan_append codec remote engine current version hash batch w)
    unfolding plan_append has_fields is_batch_reference
    plan_append-IsFormed batch w room =
        after-given IsFormed
          (verify_event_chain codec engine.namespace batch current.revision current.event_hash)
          corruption w _
          (λ (revision, head) verified.
            let r = batch_reference codec remote engine batch revision in
            let (from, previous, to) =
              verify_event_chain-cursor codec engine.namespace batch current.revision
                current.event_hash (revision, head) verified in
            let (grown, sha) =
              verify_event_chain-end codec faithful engine.namespace batch current.revision
                current.event_hash (revision, head) verified in
            let (most, old) = and_split _ (is_sha256_or_null current.predecessor) formed.fields in
            let (start, link) = and_split _ (is_sha256_or_null current.event_hash) most in
            let reference : is_batch_reference codec r ≡ true =
              and_intro (and_intro (faithful.digest (codec.encode_batch batch)) (ground arith))
                (ap is_sha256_or_null previous ∙ link) in
            after-Ends IsFormed (λ n w'. Unit {0})
              (put_immutable codec remote r.key (codec.encode_batch batch) w) _
              (Ends-any (put_immutable codec remote r.key (codec.encode_batch batch) w))
              (λ n w' _. (
                record {
                  fields =
                      and_intro (and_intro (and_intro (ap not named.named) (ground arith)) sha)
                        digest;
                  snapshot = formed.snapshot;
                  few = omega (arith, room, length-append current.batches (r ∷ []));
                  references = every-append codec current.batches r formed.references reference;
                },
                refl,
              )))

    plan_from-IsFormed :
        (events : RetainedEvents) (w : World Bytes)
        → length current.batches < max_manifest_batches
        → Ends IsFormed (plan_from codec remote engine current version hash events w)
    unfolding plan_from
    plan_from-IsFormed (retained batch) w room = plan_append-IsFormed batch w room
    plan_from-IsFormed unretained w room = plan_replace-IsFormed w
    plan_from-IsFormed nothing_newer w room = tt

    pub plan_next-IsFormed :
        (event_limit : ℕ) (w : World Bytes)
        → Ends IsFormed (plan_next codec remote engine current version hash event_limit w)
    unfolding plan_next
    plan_next-IsFormed event_limit w =
        if_ind (λ (act : Action Bytes Plan). Ends IsFormed (act w))
          (ltb (length current.batches) max_manifest_batches)
          (λ room.
            plan_from-IsFormed
              (engine.events_since current.revision
                (min event_limit (engine.revision - current.revision)))
              w (ground arith))
          (λ _. plan_replace-IsFormed w)
