-- ===== src/Replication/Sound.antt =====
-- A validated manifest is backed, and so is what a replication publishes.
use opencode_alg.Base.{
  ℕ, ◌+◌, String, ◌&&◌, Option, List, [], ◌∷◌, leb, nat_eq, ◌≡◌, refl, arith, and_split, subst,
}
use opencode_alg.Replication.Data.{
  EventBatch, Snapshot, BatchReference, Manifest, Codec, World, Remote, corruption, capacity,
  same_hash,
}
use opencode_alg.Replication.Parsing.{check_batch, check_snapshot, max_recovery_bytes}
use opencode_alg.Replication.Remote.{
  throw_if_aborted, read_verified_object, validate_batches, validate_manifest_contents,
}
use opencode_alg.Replication.Backed.{
  Objects, IsImmutable, Ends, after-Ends, after-given, after-require, same_hash-eq, IsStored,
  Chained, ended, linked, IsBacked, IsLater, throw_if_aborted-Ends, read_verified_object-Ends,
}

pub pair-eq :
    {n m : ℕ} {a b : Option String} → n ≡ m → a ≡ b → Path (ℕ × Option String) (n, a) (m, b)
pair-eq p q = rw (p, q) refl

module _ {Bytes : Type 0} (codec : Codec Bytes) (remote : Remote Bytes)
    (immutable : IsImmutable remote) (namespace : String) where
  abbrev WasChained :
      World Bytes
      → List BatchReference
      → ℕ
      → Option String
      → List EventBatch × (ℕ × Option String)
      → World Bytes
      → Type 0
  WasChained w refs revision hash found w' =
      IsLater codec remote immutable w w'
      × (total : ℕ) × Chained codec remote.max_object_bytes namespace w'.store.objects refs revision
          hash found.0 found.1 total

  validate_batches-Ends :
      (refs : List BatchReference) (revision : ℕ) (hash : Option String) (total : ℕ)
      (w : World Bytes)
      → Ends
          (WasChained w refs revision hash)
          (validate_batches codec remote namespace refs revision hash total w)
  unfolding validate_batches
  validate_batches-Ends [] revision hash total w = (λ key bytes h. h, 0, ended)
  validate_batches-Ends (r ∷ refs) revision hash total w =
      let Q = WasChained w (r ∷ refs) revision hash in
      let later = IsLater codec remote immutable in
      after-Ends Q (λ _ w1. later w w1) (throw_if_aborted codec remote w) _
        (throw_if_aborted-Ends codec remote immutable w)
        (λ _ w1 one.
          after-require Q (nat_eq r.from_revision revision && same_hash r.previous_hash hash)
            corruption w1 _
            (λ cursor.
              let (from, previous) =
                and_split (nat_eq r.from_revision revision) (same_hash r.previous_hash hash)
                  cursor in
              after-Ends Q
                (λ bytes w2.
                  later w1 w2
                  × IsStored codec remote.max_object_bytes w2.store.objects r.key r.sha256 bytes)
                (read_verified_object codec remote r.key r.sha256 w1) _
                (read_verified_object-Ends codec remote immutable r.key r.sha256 w1)
                (λ bytes w2 (two, stored).
                  after-require Q (leb (total + codec.size bytes) max_recovery_bytes) capacity w2 _
                    (λ small.
                      after-given Q (check_batch codec namespace r revision hash bytes) corruption
                        w2 _
                        (λ (batch, (revision', hash')) checked.
                          after-Ends Q (WasChained w2 refs revision' hash')
                            (validate_batches codec remote namespace refs revision' hash'
                              (total + codec.size bytes) w2)
                            _
                            (validate_batches-Ends refs revision' hash' (total + codec.size bytes)
                              w2)
                            (λ (batches, head) w3 (three, rest, chained).
                              let (place, hashed, fits) = stored in
                              (
                                λ key b h. three key b (two key b (one key b h)),
                                codec.size bytes + rest,
                                linked bytes revision' hash' (three r.key bytes place, hashed, fits)
                                    (ground arith, same_hash-eq r.previous_hash hash previous)
                                    checked chained,
                              )))))))

  -- Some snapshot and segments stand behind the manifest.
  abbrev pub Backs : Objects Bytes → Manifest → Type 0
  Backs objects m =
      (s : Snapshot) × (batches : List EventBatch) × (total : ℕ) × IsBacked codec
        remote.max_object_bytes namespace objects m s batches total

  abbrev WasBacked : World Bytes → Manifest → Snapshot × List EventBatch → World Bytes → Type 0
  WasBacked w m found w' =
      IsLater codec remote immutable w w'
      × (total : ℕ) × IsBacked codec remote.max_object_bytes namespace w'.store.objects m found.0
          found.1 total

  pub validate_manifest_contents-Ends :
      (m : Manifest) (w : World Bytes)
      → Ends (WasBacked w m) (validate_manifest_contents codec remote namespace m w)
  unfolding validate_manifest_contents
  validate_manifest_contents-Ends m w =
      let Q = WasBacked w m in
      let later = IsLater codec remote immutable in
      after-Ends Q
        (λ bytes w1.
          later w w1
          × IsStored codec remote.max_object_bytes w1.store.objects m.snapshot.key m.snapshot.sha256
              bytes)
        (read_verified_object codec remote m.snapshot.key m.snapshot.sha256 w) _
        (read_verified_object-Ends codec remote immutable m.snapshot.key m.snapshot.sha256 w)
        (λ bytes w1 (one, stored).
          after-given Q (check_snapshot codec namespace m.snapshot bytes) corruption w1 _
            (λ s checked.
              after-Ends Q (WasChained w1 m.batches s.revision s.event_hash)
                (validate_batches codec remote namespace m.batches s.revision s.event_hash
                  (codec.size bytes) w1)
                _ (validate_batches-Ends m.batches s.revision s.event_hash (codec.size bytes) w1)
                (λ (batches, (revision, hash)) w2 (two, rest, chained).
                  after-require Q (nat_eq revision m.revision && same_hash hash m.event_hash)
                    corruption w2 _
                    (λ cursor.
                      let (same, head) =
                        and_split (nat_eq revision m.revision) (same_hash hash m.event_hash)
                          cursor in
                      let end : Path (ℕ × Option String) (revision, hash)
                          (m.revision, m.event_hash) =
                        pair-eq (ground arith) (same_hash-eq hash m.event_hash head) in
                      let (place, hashed, fits) = stored in
                      (
                        λ key b h. two key b (one key b h),
                        codec.size bytes + rest,
                        record {
                          snapshot_bytes = bytes;
                          snapshot_stored = (two m.snapshot.key bytes place, hashed, fits);
                          snapshot_checked = checked;
                          tail_total = rest;
                          chained =
                              subst
                                (λ (e : ℕ × Option String).
                                  Chained codec remote.max_object_bytes namespace w2.store.objects
                                    m.batches s.revision s.event_hash batches e rest)
                                end chained;
                          whole = refl;
                        },
                      )))))
