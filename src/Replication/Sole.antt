-- ===== src/Replication/Sole.antt =====
-- Where no other writer replaces the manifest, reading the store leaves it as it was.
use opencode_alg.Base.{
  ℕ, ◌+◌, String, ◌&&◌, Option, List, [], ◌∷◌, leb, nat_eq, ◌==◌, ◌≡◌, refl, ◌∙◌, lookup, if_ind,
}
use opencode_alg.Replication.Data.{
  EventBatch, Snapshot, BatchReference, Manifest, Codec, Store, World, Remote, corruption, capacity,
  Outcome, same_hash,
}
use opencode_alg.Replication.Parsing.{check_batch, check_snapshot, max_recovery_bytes}
use opencode_alg.Replication.Remote.{
  tick, reach, throw_if_aborted, read_verified_object, validate_batches, validate_manifest_contents,
}
use opencode_alg.Replication.Backed.{Ends, after-Ends, after-given, after-require}

-- Other writers leave the head alone; they may add objects.
abbrev pub IsSole : {Bytes : Type 0} → Remote Bytes → Type 0
IsSole {Bytes = Bytes} remote =
    (step : ℕ) (store : Store Bytes) → (remote.others step store).head ≡ store.head

module _ {Bytes : Type 0} (codec : Codec Bytes) (remote : Remote Bytes) (sole : IsSole remote) where
  abbrev Stays : {A : Type 0} → World Bytes → Outcome Bytes A → Type 0
  Stays w o = Ends (λ a w'. w'.store.head ≡ w.store.head) o

  reach-Stays : (w : World Bytes) → Stays w (reach codec remote w)
  unfolding reach tick
  reach-Stays w =
      let w' = tick codec remote w in
      if_ind (Stays w) (remote.aborted w'.step) (λ _. tt)
        (λ _. if_ind (Stays w) (remote.answers w'.step) (λ _. sole w.step w.store) (λ _. tt))

  throw_if_aborted-Stays : (w : World Bytes) → Stays w (throw_if_aborted codec remote w)
  unfolding throw_if_aborted
  throw_if_aborted-Stays w = if_ind (Stays w) (remote.aborted w.step) (λ _. tt) (λ _. refl)

  read_verified_object-Stays :
      (key sha256 : String) (w : World Bytes)
      → Stays w (read_verified_object codec remote key sha256 w)
  unfolding read_verified_object
  read_verified_object-Stays key sha256 w =
      let Q = λ (bytes : Bytes) (w' : World Bytes). w'.store.head ≡ w.store.head in
      after-Ends Q (λ _ w'. w'.store.head ≡ w.store.head) (reach codec remote w) _ (reach-Stays w)
        (λ _ w' same. after-given Q (lookup key w'.store.objects) corruption w' _ (λ bytes found.
          after-require Q (leb (codec.size bytes) remote.max_object_bytes) capacity w' _ (λ small.
            after-require Q (codec.hash_bytes bytes == sha256) corruption w' _ (λ hashed. same))))

  validate_batches-Stays :
      (namespace : String) (refs : List BatchReference) (revision : ℕ) (hash : Option String)
      (total : ℕ) (w : World Bytes)
      → Stays w (validate_batches codec remote namespace refs revision hash total w)
  unfolding validate_batches
  validate_batches-Stays namespace [] revision hash total w = refl
  validate_batches-Stays namespace (r ∷ refs) revision hash total w =
      let Q = λ (found : List EventBatch × (ℕ × Option String)) (w' : World Bytes).
        w'.store.head ≡ w.store.head in
      after-Ends Q (λ _ w1. w1.store.head ≡ w.store.head) (throw_if_aborted codec remote w) _
        (throw_if_aborted-Stays w)
        (λ _ w1 one.
          after-require Q (nat_eq r.from_revision revision && same_hash r.previous_hash hash)
            corruption w1 _
            (λ _.
              after-Ends Q (λ _ w2. w2.store.head ≡ w1.store.head)
                (read_verified_object codec remote r.key r.sha256 w1) _
                (read_verified_object-Stays r.key r.sha256 w1)
                (λ bytes w2 two.
                  after-require Q (leb (total + codec.size bytes) max_recovery_bytes) capacity w2 _
                    (λ _.
                      after-given Q (check_batch codec namespace r revision hash bytes) corruption
                        w2 _
                        (λ (batch, (revision', hash')) _.
                          after-Ends Q (λ _ w3. w3.store.head ≡ w2.store.head)
                            (validate_batches codec remote namespace refs revision' hash'
                              (total + codec.size bytes) w2)
                            _
                            (validate_batches-Stays namespace refs revision' hash'
                              (total + codec.size bytes) w2)
                            (λ _ w3 three. three ∙ two ∙ one))))))

  pub validate_manifest_contents-Stays :
      (namespace : String) (m : Manifest) (w : World Bytes)
      → Stays w (validate_manifest_contents codec remote namespace m w)
  unfolding validate_manifest_contents
  validate_manifest_contents-Stays namespace m w =
      let Q =
        λ (found : Snapshot × List EventBatch) (w' : World Bytes). w'.store.head ≡ w.store.head in
      after-Ends Q (λ _ w1. w1.store.head ≡ w.store.head)
        (read_verified_object codec remote m.snapshot.key m.snapshot.sha256 w) _
        (read_verified_object-Stays m.snapshot.key m.snapshot.sha256 w)
        (λ bytes w1 one.
          after-given Q (check_snapshot codec namespace m.snapshot bytes) corruption w1 _ (λ s _.
            after-Ends Q (λ _ w2. w2.store.head ≡ w1.store.head)
              (validate_batches codec remote namespace m.batches s.revision s.event_hash
                (codec.size bytes) w1)
              _
              (validate_batches-Stays namespace m.batches s.revision s.event_hash (codec.size bytes)
                w1)
              (λ (batches, (revision, hash)) w2 two.
                after-require Q (nat_eq revision m.revision && same_hash hash m.event_hash)
                  corruption w2 _ (λ _. two ∙ one))))
