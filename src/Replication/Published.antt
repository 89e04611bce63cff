-- ===== src/Replication/Published.antt =====
-- What a replication publishes stands in the store.
use opencode_alg.Base.{
  ℕ, ◌+◌, ◌≤◌, String, Bool, true, ◌&&◌, Option, none, some, [], ◌∷◌, leb, nat_eq, ◌==◌, ◌≡◌, refl,
  sym, lookup, arith, and_split, if_ind, eq_iff, ap, subst, ◌∙◌, if◌then◌else◌, eq_refl,
  Option-cases, inl, inr,
}
use opencode_alg.Replication.Data.{
  MemoryEvent, EventBatch, Snapshot, SnapshotReference, Manifest, Codec, World, Remote, corruption,
  capacity, conflict, same_hash, is_sha256,
}
use opencode_alg.Replication.Parsing.{check_snapshot}
use opencode_alg.Replication.Remote.{reach, store_object, put_immutable}
use opencode_alg.Replication.Attempt.{
  Engine, Plan, is_ancestor, snapshot_reference, upload_checkpoint, next_manifest,
}
use opencode_alg.Replication.Backed.{
  Objects, Keeps, IsImmutable, Ends, weaken, after-Ends, after-require, same_hash-eq,
  same_hash_self, IsStored, Chained, ended, IsLater, reach-Ends,
}
use opencode_alg.Replication.Sound.{pair-eq, Backs}

-- What a schema accepts is read back as it was written, a manifest has one text, equal bytes are one,
-- and digests are 64 hexadecimal digits.
pub record IsFaithful {Bytes : Type 0} (codec : Codec Bytes) : Type 0 where
  pub snapshot_read :
      (s : Snapshot)
      → codec.is_snapshot s ≡ true
      → codec.decode_snapshot (codec.encode_snapshot s) ≡ some s
  pub batch_read :
      (b : EventBatch)
      → codec.is_batch b ≡ true
      → codec.decode_batch (codec.encode_batch b) ≡ some b
  pub manifest_read : (m : Manifest) → codec.decode_manifest (codec.encode_manifest m) ≡ some m
  pub manifest_canonical :
      (bytes : Bytes) (m : Manifest)
      → codec.decode_manifest bytes ≡ some m
      → codec.encode_manifest m ≡ bytes
  pub same_is_equal : (a b : Bytes) → codec.same_bytes a b ≡ true → a ≡ b
  pub digest : (bytes : Bytes) → is_sha256 (codec.hash_bytes bytes) ≡ true
  pub event_digest : (e : MemoryEvent) → is_sha256 (codec.head_digest e) ≡ true

pub if_true {ℓ} : {A : Type ℓ} {b : Bool} (x y : A) → b ≡ true → (if b then x else y) ≡ x
if_true x y h = rw h refl

pub and_intro : {a b : Bool} → a ≡ true → b ≡ true → (a && b) ≡ true
and_intro p q = rw (p, q) refl

pub nat_eq_self : (n : ℕ) → nat_eq n n ≡ true
nat_eq_self n = ground arith

lookup_self :
    {Bytes : Type 0} (key : String) (bytes : Bytes) (objects : Objects Bytes)
    → lookup key ((key, bytes) ∷ objects) ≡ some bytes
unfolding lookup
lookup_self key bytes objects = rw (eq_refl key) refl

lookup-new :
    {Bytes : Type 0} (key : String) (bytes : Bytes) (objects : Objects Bytes)
    → lookup key objects ≡ none
    → Keeps objects ((key, bytes) ∷ objects)
unfolding lookup
lookup-new key bytes objects fresh other b h = ground (arith, eq_iff key other)

module _ {Bytes : Type 0} (codec : Codec Bytes) (faithful : IsFaithful codec)
    (remote : Remote Bytes) (immutable : IsImmutable remote) where
  abbrev pub WasStored : World Bytes → String → Bytes → World Bytes → Type 0
  WasStored w key bytes w' =
      IsLater codec remote immutable w w'
      × IsStored codec remote.max_object_bytes w'.store.objects key (codec.hash_bytes bytes) bytes

  store_object-Ends :
      (key : String) (bytes : Bytes) (w : World Bytes)
      → codec.size bytes ≤ remote.max_object_bytes
      → Ends
          (λ n w'. WasStored w key bytes w')
          (store_object codec remote key bytes (lookup key w.store.objects) w)
  unfolding store_object
  store_object-Ends key bytes w small = elim (Option-cases (lookup key w.store.objects)) [
    | inl fresh ↦
        rw (fresh, store_object)
          (
            lookup-new key bytes w.store.objects fresh,
            (lookup_self key bytes w.store.objects, refl, small),
          )
    | inr (present, found) ↦
        rw (found, store_object)
          (if_ind (Ends (λ (n : ℕ) w'. WasStored w key bytes w')) (codec.same_bytes present bytes)
            (λ same. (
              λ k b h. h,
              (found ∙ ap some (faithful.same_is_equal present bytes same), refl, small),
            ))
            (λ _. tt))
  ]

  pub put_immutable-Ends :
      (key : String) (bytes : Bytes) (w : World Bytes)
      → Ends (λ n w'. WasStored w key bytes w') (put_immutable codec remote key bytes w)
  unfolding put_immutable
  put_immutable-Ends key bytes w =
      let Q = λ (n : ℕ) (w' : World Bytes). WasStored w key bytes w' in
      after-require Q (leb (codec.size bytes) remote.max_object_bytes) capacity w _ (λ small.
        after-Ends Q (λ _ w'. IsLater codec remote immutable w w') (reach codec remote w) _
          (reach-Ends codec remote immutable w)
          (λ _ w' later.
            weaken (λ n w''. WasStored w' key bytes w'') Q
              (store_object codec remote key bytes (lookup key w'.store.objects) w')
              (store_object-Ends key bytes w' (ground arith))
              (λ n w'' (kept, stored). (λ k b h. kept k b (later k b h), stored))))

  module _ (engine : Engine) where
    abbrev pub exported : Snapshot
    exported = engine.export_snapshot

    -- The engine's snapshot is stored, and is the one that its status promised.
    abbrev pub WasUploaded : World Bytes → SnapshotReference × ℕ → World Bytes → Type 0
    WasUploaded w uploaded w' =
        WasStored w (snapshot_reference codec remote engine exported).key
          (codec.encode_snapshot exported) w'
        × (uploaded.0 ≡ snapshot_reference codec remote engine exported)
        × (exported.revision ≡ engine.revision)
        × (exported.event_hash ≡ engine.event_hash)
        × (exported.namespace ≡ engine.namespace)
        × (codec.is_snapshot exported ≡ true)

    pub upload_checkpoint-Ends :
        (ancestor : Option (ℕ × Option String)) (w : World Bytes)
        → Ends (WasUploaded w) (upload_checkpoint codec remote engine ancestor w)
    unfolding upload_checkpoint
    upload_checkpoint-Ends ancestor w =
        let Q = WasUploaded w in
        let s = exported in
        let key = (snapshot_reference codec remote engine s).key in
        after-require Q (codec.is_snapshot s) corruption w _ (λ fits.
          after-require Q
            (nat_eq s.revision engine.revision && same_hash s.event_hash engine.event_hash) conflict
            w _
            (λ cursor.
              let (same, head) =
                and_split (nat_eq s.revision engine.revision)
                  (same_hash s.event_hash engine.event_hash) cursor in
              after-require Q (s.namespace == engine.namespace) corruption w _ (λ place.
                after-require Q (is_ancestor codec remote engine s ancestor) conflict w _ (λ old.
                  after-Ends Q (λ n w'. WasStored w key (codec.encode_snapshot s) w')
                    (put_immutable codec remote key (codec.encode_snapshot s) w) _
                    (put_immutable-Ends key (codec.encode_snapshot s) w)
                    (λ n w' stored. (
                      stored,
                      refl,
                      ground arith,
                      same_hash-eq s.event_hash engine.event_hash head,
                      (eq_iff s.namespace engine.namespace).0 place,
                      fits,
                    ))))))

    abbrev pub Standing : Objects Bytes → Manifest → Type 0
    Standing objects m = Backs codec remote immutable engine.namespace objects m

    pub checkpoint-Backs :
        (generation : ℕ) (predecessor : Option String) (w w' : World Bytes)
        (uploaded : SnapshotReference × ℕ)
        → WasUploaded w uploaded w'
        → Standing w'.store.objects (
            next_manifest codec remote engine generation engine.revision engine.event_hash
              predecessor uploaded.0 [])
    unfolding check_snapshot
    checkpoint-Backs generation predecessor w w' uploaded
          (stored, reference, same, head, place, fits) =
        let s = exported in
        let end : Path (ℕ × Option String) (s.revision, s.event_hash)
            (engine.revision, engine.event_hash) =
          pair-eq same head in
        let checked : check_snapshot codec engine.namespace
              (snapshot_reference codec remote engine s) (codec.encode_snapshot s)
            ≡ some s =
          rw (faithful.snapshot_read s fits, check_snapshot)
            (if_true (some s) none (
              and_intro
                (and_intro ((eq_iff s.namespace engine.namespace).1 place) (nat_eq_self s.revision))
                (same_hash_self s.event_hash))) in
        let made : Standing w'.store.objects (
            next_manifest codec remote engine generation engine.revision engine.event_hash
              predecessor (snapshot_reference codec remote engine s) []) =
          (
            s,
            [],
            codec.size (codec.encode_snapshot s) + 0,
            record {
              snapshot_bytes = codec.encode_snapshot s;
              snapshot_stored = stored.1;
              snapshot_checked = checked;
              tail_total = 0;
              chained =
                  subst
                    (λ (e : ℕ × Option String).
                      Chained codec remote.max_object_bytes engine.namespace w'.store.objects []
                        s.revision s.event_hash [] e 0)
                    end ended;
              whole = refl;
            },
          ) in
        subst
          (λ (r : SnapshotReference). Standing w'.store.objects (
            next_manifest codec remote engine generation engine.revision engine.event_hash
              predecessor r []))
          (sym reference) made

    -- A plan whose manifest stands in the store.
    abbrev pub WasPlanned : World Bytes → Plan → World Bytes → Type 0
    WasPlanned w plan w' =
        IsLater codec remote immutable w w' × Standing w'.store.objects plan.manifest
