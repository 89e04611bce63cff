-- ===== src/Replication/Replicated.antt =====
-- A plan's manifest is backed by the store.
use opencode_alg.Base.{true, ℕ, suc, min, ◌-◌, String, none, some, ltb, length, ◌≡◌, refl, if_ind}
use opencode_alg.Replication.Data.{EventBatch, Manifest, Codec, World, Remote, Action}
use opencode_alg.Replication.Parsing.{max_manifest_batches}
use opencode_alg.Replication.Attempt.{
  Engine, Plan, upload_checkpoint, plan_first, plan_replace, plan_from, plan_next, RetainedEvents,
  retained, unretained, nothing_newer,
}
use opencode_alg.Replication.Backed.{Objects, IsImmutable, Ends, after-Ends}
use opencode_alg.Replication.Published.{
  IsFaithful, WasPlanned, Standing, WasUploaded, upload_checkpoint-Ends, checkpoint-Backs,
}
use opencode_alg.Replication.Appended.{plan_append-Ends}

-- The batches that the engine hands out are such as the schema accepts.
abbrev pub Emits : {Bytes : Type 0} → Codec Bytes → Engine → Type 0
Emits codec engine =
    (revision limit : ℕ) (b : EventBatch)
    → engine.events_since revision limit ≡ retained b
    → codec.is_batch b ≡ true

module _ {Bytes : Type 0} (codec : Codec Bytes) (faithful : IsFaithful codec)
    (remote : Remote Bytes) (immutable : IsImmutable remote) (engine : Engine) where
  abbrev Planned : World Bytes → Plan → World Bytes → Type 0
  Planned = WasPlanned codec faithful remote immutable engine

  abbrev Stands : Objects Bytes → Manifest → Type 0
  Stands = Standing codec faithful remote immutable engine

  pub plan_first-Ends : (w : World Bytes) → Ends (Planned w) (plan_first codec remote engine w)
  unfolding plan_first
  plan_first-Ends w =
      after-Ends (Planned w) (WasUploaded codec faithful remote immutable engine w)
        (upload_checkpoint codec remote engine none w) _
        (upload_checkpoint-Ends codec faithful remote immutable engine none w)
        (λ uploaded w' up.
          (up.0.0, checkpoint-Backs codec faithful remote immutable engine 1 none w w' uploaded up))

  module _ (current : Manifest) (version : ℕ) (hash : String) where
    plan_replace-Ends :
        (w : World Bytes)
        → Ends (Planned w) (plan_replace codec remote engine current version hash w)
    unfolding plan_replace
    plan_replace-Ends w =
        let ancestor = some (current.revision, current.event_hash) in
        after-Ends (Planned w) (WasUploaded codec faithful remote immutable engine w)
          (upload_checkpoint codec remote engine ancestor w) _
          (upload_checkpoint-Ends codec faithful remote immutable engine ancestor w)
          (λ uploaded w' up. (
            up.0.0,
            checkpoint-Backs codec faithful remote immutable engine (suc current.generation)
                (some hash) w w' uploaded up,
          ))

    plan_from-Ends :
        (events : RetainedEvents) (w : World Bytes)
        → ((b : EventBatch) → events ≡ retained b → codec.is_batch b ≡ true)
        → Stands w.store.objects current
        → Ends (Planned w) (plan_from codec remote engine current version hash events w)
    unfolding plan_from
    plan_from-Ends (retained batch) w fits h =
        plan_append-Ends codec faithful remote immutable engine current version hash batch w
          (fits batch refl) h
    plan_from-Ends unretained w fits h = plan_replace-Ends w
    plan_from-Ends nothing_newer w fits h = tt

    pub plan_next-Ends :
        (event_limit : ℕ) (w : World Bytes)
        → Emits codec engine
        → Stands w.store.objects current
        → Ends (Planned w) (plan_next codec remote engine current version hash event_limit w)
    unfolding plan_next
    plan_next-Ends event_limit w emits h =
        if_ind (λ (act : Action Bytes Plan). Ends (Planned w) (act w))
          (ltb (length current.batches) max_manifest_batches)
          (λ _.
            plan_from-Ends
              (engine.events_since current.revision
                (min event_limit (engine.revision - current.revision)))
              w (emits current.revision (min event_limit (engine.revision - current.revision))) h)
          (λ _. plan_replace-Ends w)
