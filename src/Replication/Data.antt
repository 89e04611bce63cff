-- ===== src/Replication/Data.antt =====
-- The records of src/environment-memory/replication.ts and schemas.ts, and the object store with its
-- other writers. Serialization, schemas and SHA-256 are a parameter, `Codec`.
use opencode_alg.Base.{
  ℕ, String, Bool, true, false, ◌&&◌, ◌||◌, Option, none, some, List, leb, nat_eq, ◌==◌, codes,
  is_digit, length, every,
}

pub data ReplicationErrorCode : Type 0 where
  conflict corruption remote_unavailable cancelled capacity namespace_mismatch :
      ReplicationErrorCode

-- `content` stands for the timestamp, the idempotency key and the operation.
pub record MemoryEvent : Type 0 where
  pub namespace : String
  pub revision : ℕ
  pub previous_hash : Option String
  pub content : String
  pub content_hash : String
  pub event_hash : String

-- A batch holds at least one event.
pub record EventBatch : Type 0 where
  pub namespace : String
  pub from_revision : ℕ
  pub to_revision : ℕ
  pub previous_hash : Option String
  pub first : MemoryEvent
  pub more : List MemoryEvent

-- `receipts` are the revisions and event hashes of `idempotency`; `facts` stands for the rest.
pub record Snapshot : Type 0 where
  pub namespace : String
  pub revision : ℕ
  pub event_hash : Option String
  pub receipts : List (ℕ × String)
  pub facts : String

pub record SnapshotReference : Type 0 where
  pub key : String
  pub sha256 : String
  pub revision : ℕ
  pub event_hash : Option String

pub record BatchReference : Type 0 where
  pub key : String
  pub sha256 : String
  pub from_revision : ℕ
  pub to_revision : ℕ
  pub previous_hash : Option String

pub record Manifest : Type 0 where
  pub namespace : String
  pub generation : ℕ
  pub revision : ℕ
  pub event_hash : Option String
  pub predecessor : Option String
  pub snapshot : SnapshotReference
  pub batches : List BatchReference

-- Canonical JSON with the schemas, and digests. A reading fails where the bytes are no JSON, break
-- the schema, or are not canonical; `is_snapshot` and `is_batch` are what SnapshotSchema and
-- EventBatchSchema accept.
pub record Codec (Bytes : Type 0) : Type 0 where
  pub size : Bytes → ℕ
  pub same_bytes : Bytes → Bytes → Bool
  pub hash_bytes : Bytes → String
  pub encode_snapshot : Snapshot → Bytes
  pub decode_snapshot : Bytes → Option Snapshot
  pub encode_batch : EventBatch → Bytes
  pub decode_batch : Bytes → Option EventBatch
  pub encode_manifest : Manifest → Bytes
  pub decode_manifest : Bytes → Option Manifest
  pub is_snapshot : Snapshot → Bool
  pub is_batch : EventBatch → Bool
  pub is_event : MemoryEvent → Bool
  pub content_digest : MemoryEvent → String
  pub head_digest : MemoryEvent → String

-- The objects by their keys, and the manifest with its version.
pub record Store (Bytes : Type 0) : Type 0 where
  pub objects : List (String × Bytes)
  pub head : Option (Bytes × ℕ)

-- The store after the given number of accesses.
pub record World (Bytes : Type 0) : Type 0 where
  pub step : ℕ
  pub store : Store Bytes

-- The store as this caller reaches it: at each access whether the signal is aborted and the store
-- answers, the version that a replacement gets, and what other writers do in between.
pub record Remote (Bytes : Type 0) : Type 0 where
  pub max_object_bytes : ℕ
  pub aborted : ℕ → Bool
  pub answers : ℕ → Bool
  pub version_at : ℕ → ℕ
  pub others : ℕ → Store Bytes → Store Bytes

pub data Outcome (Bytes A : Type 0) : Type 0 where
  done : A → World Bytes → Outcome Bytes A
  failed : ReplicationErrorCode → World Bytes → Outcome Bytes A

abbrev pub Action : Type 0 → Type 0 → Type 0
Action Bytes A = World Bytes → Outcome Bytes A

module _ {Bytes A B : Type 0} where
  abbrev pub after : Outcome Bytes A → (A → Action Bytes B) → Outcome Bytes B
  after (done a w) f = f a w
  after (failed code w) f = failed code w

  infixl 5 ◌>>=◌
  abbrev pub ◌>>=◌ : Action Bytes A → (A → Action Bytes B) → Action Bytes B
  (c >>= f) w = after (c w) f

module _ {Bytes : Type 0} where
  abbrev pub require : Bool → ReplicationErrorCode → Action Bytes (Unit {0})
  require true code w = done tt w
  require false code w = failed code w

  abbrev pub given : {A : Type 0} → Option A → ReplicationErrorCode → Action Bytes A
  given none code w = failed code w
  given (some a) code w = done a w

-- `===` on hashes that may be null.
abbrev pub same_hash : Option String → Option String → Bool
same_hash none none = true
same_hash (some a) (some b) = a == b
same_hash _ _ = false

abbrev is_hex : ℕ → Bool
is_hex c = is_digit c || leb b'a' c && leb c b'f'

-- `isSha256`
unfoldable pub is_sha256 : String → Bool
is_sha256 s = nat_eq (length (codes s)) 64 && every is_hex (codes s)

abbrev pub is_sha256_or_null : Option String → Bool
is_sha256_or_null none = true
is_sha256_or_null (some s) = is_sha256 s
