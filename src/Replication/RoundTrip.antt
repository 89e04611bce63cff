-- ===== src/Replication/RoundTrip.antt =====
-- What a replication publishes is what recovery reads.
use opencode_alg.Base.{◌⊎◌, ℕ, some, List, ◌≡◌}
use opencode_alg.Replication.Data.{EventBatch, Snapshot, Manifest, Codec, World, Remote}
use opencode_alg.Replication.Attempt.{Engine, Plan, Receipt}
use opencode_alg.Replication.Backed.{IsImmutable, IsBacked}
use opencode_alg.Replication.Attempt.{restore}
use opencode_alg.Replication.Published.{IsFaithful, Standing, WasPlanned}
use opencode_alg.Replication.Recovered.{Passes, IsWellFormed}
use opencode_alg.Replication.Formed.{IsNamed}
use opencode_alg.Replication.Sole.{IsSole}
use opencode_alg.Replication.Replicated.{Emits}
use opencode_alg.Replication.Recoverable.{IsFormed}

module _ {Bytes : Type 0} (codec : Codec Bytes) (faithful : IsFaithful codec)
    (remote : Remote Bytes) (immutable : IsImmutable remote) (engine : Engine)
    (named : IsNamed engine) (emits : Emits codec engine) where
  -- The manifest that the store's head holds is well formed, is the engine's, and is backed.
  abbrev IsPublished : Receipt → World Bytes → Type 0
  IsPublished receipt w =
      (m : Manifest) × (version : ℕ) × IsWellFormed codec m
      × (m.namespace ≡ engine.namespace)
      × (w.store.head ≡ some (codec.encode_manifest m, version))
      × (m.revision ≡ receipt.highest_replicated)
      × (m.generation ≡ receipt.generation)
      × Standing codec faithful remote immutable engine w.store.objects m

  -- A receipt without uploads may also speak of the manifest that was found at the engine's cursor: it
  -- is still the head where no other writer replaces it.
  abbrev IsSettled : Receipt → World Bytes → Type 0
  IsSettled receipt w =
      IsPublished receipt w ⊎ ((receipt.uploaded ≡ 0) × (IsSole remote → IsPublished receipt w))

  abbrev Ready : World Bytes → Plan → World Bytes → Type 0
  Ready w plan w' =
      WasPlanned codec faithful remote immutable engine w plan w'
      × IsFormed codec faithful remote immutable engine named plan w'

-- What a settled replication leaves, with what recovery finds there.
abbrev pub IsRecoverable :
    {Bytes : Type 0}
    → Codec Bytes
    → (remote calm : Remote Bytes) → (fresh : Engine) → Receipt
    → World Bytes
    → Type 0
IsRecoverable codec remote calm fresh receipt w =
    (m : Manifest) × (version : ℕ) × (s : Snapshot) × (batches : List EventBatch) × (total : ℕ)
    × (w.store.head ≡ some (codec.encode_manifest m, version))
    × (m.revision ≡ receipt.highest_replicated)
    × (m.generation ≡ receipt.generation)
    × IsBacked codec remote.max_object_bytes fresh.namespace w.store.objects m s batches total
    × Passes (λ found w'. found ≡ (s, batches)) (restore codec calm fresh w)
