-- ===== src/Replication/Chain.antt =====
-- `verifyEventChainAsync`: the events of a batch continue a cursor, each with the hash of the last.
use opencode_alg.Base.{
  ℕ, suc, String, Bool, ◌&&◌, Option, none, some, List, [], ◌∷◌, nat_eq, ◌==◌, if◌then◌else◌,
}
use opencode_alg.Replication.Data.{MemoryEvent, EventBatch, Codec, same_hash}

module _ {Bytes : Type 0} (codec : Codec Bytes) (namespace : String) where
  unfoldable pub continues : (revision : ℕ) → (previous : Option String) → MemoryEvent → Bool
  continues revision previous event =
      codec.is_event event
      && event.namespace == namespace
      && nat_eq event.revision (suc revision)
      && same_hash event.previous_hash previous
      && event.content_hash == codec.content_digest event
      && event.event_hash == codec.head_digest event

  -- The loop over the events, to the cursor at its end.
  unfoldable pub verify_events :
      (revision : ℕ) → (previous : Option String) → List MemoryEvent → Option (ℕ × Option String)
  unfolding continues
  verify_events revision previous [] = some (revision, previous)
  verify_events revision previous (event ∷ events) =
      let rest = verify_events event.revision (some event.event_hash) events in
      if continues revision previous event then rest else none

  unfoldable pub ends_at : ℕ → Option (ℕ × Option String) → Option (ℕ × Option String)
  ends_at to_revision none = none
  ends_at to_revision (some (revision, hash)) =
      if nat_eq to_revision revision then some (revision, hash) else none

  unfoldable pub verify_event_chain :
      EventBatch → (revision : ℕ) → (hash : Option String) → Option (ℕ × Option String)
  unfolding verify_events ends_at
  verify_event_chain batch revision hash =
      if batch.namespace == namespace
        && nat_eq batch.from_revision revision
        && same_hash batch.previous_hash hash
      then ends_at batch.to_revision (verify_events revision hash (batch.first ∷ batch.more))
      else none
