-- ===== src/Examples/Replicas.antt =====
-- A journal of two events, replicated in three steps and recovered.
use opencode_alg.Base.{
  ℕ, zero, suc, String, Bool, true, false, Option, none, some, List, [], ◌∷◌, ◌≡◌, refl, ltb, leb,
  length,
}
use opencode_alg.Replication.Data.{
  MemoryEvent, EventBatch, Snapshot, Manifest, Codec, World, Remote, Outcome, done, failed,
  capacity, is_sha256,
}
use opencode_alg.Replication.Attempt.{
  Engine, Receipt, RetainedEvents, retained, nothing_newer, replicate, restore,
}

-- The bytes of a document are the document.
data Document : Type 0 where
  of_snapshot : Snapshot → Document
  of_batch : EventBatch → Document
  of_manifest : Manifest → Document

-- A digest that tells small numbers apart.
unfoldable mark : ℕ → String
mark zero = "0000000000000000000000000000000000000000000000000000000000000000"
mark (suc zero) = "0000000000000000000000000000000000000000000000000000000000000001"
mark (suc (suc n)) = "0000000000000000000000000000000000000000000000000000000000000002"

abbrev number : Document → ℕ
number (of_snapshot s) = s.revision
number (of_batch b) = b.to_revision
number (of_manifest m) = m.revision

abbrev as_snapshot : Document → Option Snapshot
as_snapshot (of_snapshot s) = some s
as_snapshot _ = none

abbrev as_batch : Document → Option EventBatch
as_batch (of_batch b) = some b
as_batch _ = none

abbrev as_manifest : Document → Option Manifest
as_manifest (of_manifest m) = some m
as_manifest _ = none

-- Snapshots and segments take the given size; no two documents count as the same.
abbrev size_of : ℕ → Document → ℕ
size_of size (of_manifest m) = 1
size_of size _ = size

abbrev documents : (size : ℕ) → Codec Document
documents size = record {
  size = size_of size;
  same_bytes = λ a b. false;
  hash_bytes = λ d. mark (number d);
  encode_snapshot = of_snapshot;
  decode_snapshot = as_snapshot;
  encode_batch = of_batch;
  decode_batch = as_batch;
  encode_manifest = of_manifest;
  decode_manifest = as_manifest;
  is_snapshot = λ (s : Snapshot). leb (length s.receipts) 512;
  is_batch = λ (b : EventBatch). ltb b.from_revision b.to_revision;
  is_event = λ e. true;
  content_digest = λ e. mark 0;
  head_digest = λ (e : MemoryEvent). mark e.revision;
}

abbrev alone : Remote Document
alone = record {
  max_object_bytes = 67_108_864;
  aborted = λ step. false;
  answers = λ step. true;
  version_at = λ step. step;
  others = λ step store. store;
}

abbrev event_at : ℕ → Option String → MemoryEvent
event_at revision previous = record {
  namespace = "env";
  revision = revision;
  previous_hash = previous;
  content = "upsert";
  content_hash = mark 0;
  event_hash = mark revision;
}

abbrev segment : (from to : ℕ) → Option String → EventBatch
segment from to previous = record {
  namespace = "env";
  from_revision = from;
  to_revision = to;
  previous_hash = previous;
  first = event_at to previous;
  more = [];
}

abbrev empty_snapshot : Snapshot
empty_snapshot = record {
  namespace = "env";
  revision = 0;
  event_hash = none;
  receipts = [];
  facts = "";
}

abbrev engine_at : ℕ → Option String → RetainedEvents → Engine
engine_at revision hash events = record {
  namespace = "env";
  revision = revision;
  event_hash = hash;
  export_snapshot = empty_snapshot;
  events_since = λ from limit. events;
}

abbrev new_engine : Engine
new_engine = engine_at 0 none nothing_newer

abbrev first_engine : Engine
first_engine = engine_at 1 (some (mark 1)) (retained (segment 0 1 none))

abbrev second_engine : Engine
second_engine = engine_at 2 (some (mark 2)) (retained (segment 1 2 (some (mark 1))))

abbrev empty_world : World Document
empty_world = record { step = 0; store = record { objects = []; head = none } }

abbrev world_after : {A : Type 0} → Outcome Document A → World Document
world_after (done a w) = w
world_after (failed code w) = w

unfoldable replicated_world : (size : ℕ) → Engine → World Document → World Document
unfolding replicate
replicated_world size engine w = world_after (replicate (documents size) alone engine 128 1 w)

unfoldable started : World Document
unfolding replicated_world
started = replicated_world 10 new_engine empty_world

unfoldable continued : World Document
unfolding replicated_world started
continued = replicated_world 10 first_engine started

abbrev first_receipt : Receipt
first_receipt = record {
  local_revision = 1;
  highest_replicated = 1;
  pending_lag = 0;
  generation = 2;
  uploaded = 1;
}

-- What a fresh engine gets.
abbrev restored :
    Outcome Document (Snapshot × List EventBatch) → Option (Snapshot × List EventBatch)
restored (done found w) = some found
restored (failed code w) = none

recovered :
    restored (restore (documents 10) alone new_engine continued)
    ≡ some (empty_snapshot, segment 0 1 none ∷ [])
unfolding restore continued mark is_sha256
recovered = refl

-- Objects of 30 MiB each: the third is published, and neither recovery nor replication gets past it.
abbrev large : ℕ
large = 31_457_280

unfoldable oversized : World Document
unfolding replicated_world
oversized =
    replicated_world large second_engine
      (replicated_world large first_engine (replicated_world large new_engine empty_world))

abbrev revision_in : Option (Document × ℕ) → ℕ
revision_in none = 0
revision_in (some (d, version)) = number d

abbrev refused_for_size : {A : Type 0} → Outcome Document A → Bool
refused_for_size (failed capacity w) = true
refused_for_size _ = false

oversized_published : revision_in oversized.store.head ≡ 2
unfolding oversized mark is_sha256
oversized_published = refl

oversized_stuck :
    (refused_for_size (restore (documents large) alone new_engine oversized) ≡ true)
    × (refused_for_size
          (replicate (documents large) alone (engine_at 3 none nothing_newer) 128 1 oversized)
        ≡ true)
unfolding oversized restore replicate mark is_sha256
oversized_stuck = (refl, refl)
