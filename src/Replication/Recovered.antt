-- ===== src/Replication/Recovered.antt =====
-- Recovery from a manifest that stands in the store is refused for its size only.
use opencode_alg.Base.{
  ℕ, suc, ◌+◌, ◌≤◌, String, Bool, true, false, ◌&&◌, Option, some, List, ◌∷◌, leb, length, every,
  nat_eq, ◌==◌, ◌≡◌, refl, sym, lookup, arith, eq_iff, ap, subst, ◌∙◌,
}
use opencode_alg.Replication.Data.{
  EventBatch, Snapshot, BatchReference, Manifest, Codec, Store, World, Remote, ReplicationErrorCode,
  corruption, capacity, namespace_mismatch, Outcome, done, failed, Action, after, require, given,
  same_hash,
}
use opencode_alg.Replication.Parsing.{
  check_batch, check_snapshot, max_recovery_bytes, max_manifest_batches, manifest_max_bytes,
  has_fields, is_snapshot_reference, is_batch_reference, parse_manifest,
}
use opencode_alg.Replication.Remote.{
  tick, reach, throw_if_aborted, read_verified_object, validate_batches, read_manifest, parse_head,
  validate_manifest_contents,
}
use opencode_alg.Replication.Attempt.{restore, Engine}
use opencode_alg.Replication.Backed.{Objects, same_hash_self, Chained, ended, linked, IsBacked}
use opencode_alg.Replication.Published.{IsFaithful, and_intro, nat_eq_self}

-- Nobody else acts, the signal is not aborted, and the store answers.
pub record IsQuiet {Bytes : Type 0} (remote : Remote Bytes) : Type 0 where
  pub alone : (step : ℕ) (store : Store Bytes) → remote.others step store ≡ store
  pub running : (step : ℕ) → remote.aborted step ≡ false
  pub reached : (step : ℕ) → remote.answers step ≡ true

-- The outcome has a property, or is the error on sizes.
abbrev pub Passes : {Bytes A : Type 0} → (A → World Bytes → Type 0) → Outcome Bytes A → Type 0
Passes P (done a w) = P a w
Passes P (failed code w) = code ≡ capacity

module _ {Bytes B : Type 0} (Q : B → World Bytes → Type 0) where
  after-Passes :
      {A : Type 0} (P : A → World Bytes → Type 0) (o : Outcome Bytes A) (f : A → Action Bytes B)
      → Passes P o
      → ((a : A) (w : World Bytes) → P a w → Passes Q (f a w))
      → Passes Q (after o f)
  after-Passes P (done a w) f h next = next a w h
  after-Passes P (failed code w) f h next = h

  pass-given :
      {A : Type 0} (o : Option A) (a : A) (code : ReplicationErrorCode) (w : World Bytes)
      (f : A → Action Bytes B)
      → o ≡ some a
      → Passes Q (f a w)
      → Passes Q (after (given o code w) f)
  pass-given o a code w f e h = rw e h

  pass-require :
      (b : Bool) (code : ReplicationErrorCode) (w : World Bytes) (f : Unit {0} → Action Bytes B)
      → b ≡ true
      → Passes Q (f tt w)
      → Passes Q (after (require b code w) f)
  pass-require b code w f e h = rw e h

  pass-capacity :
      (b : Bool) (w : World Bytes) (f : Unit {0} → Action Bytes B)
      → Passes Q (f tt w)
      → Passes Q (after (require b capacity w) f)
  pass-capacity true w f h = h
  pass-capacity false w f h = refl

-- A manifest whose fields the parser accepts.
pub record IsWellFormed {Bytes : Type 0} (codec : Codec Bytes) (m : Manifest) : Type 0 where
  pub fields : has_fields codec m ≡ true
  pub snapshot : is_snapshot_reference codec m.snapshot ≡ true
  pub few : length m.batches ≤ max_manifest_batches
  pub references : every (is_batch_reference codec) m.batches ≡ true

module _ {Bytes : Type 0} (codec : Codec Bytes) (remote : Remote Bytes) (quiet : IsQuiet remote)
    (namespace : String) where
  abbrev IsSame : World Bytes → World Bytes → Type 0
  IsSame w w' = w'.store ≡ w.store

  reach-Passes : (w : World Bytes) → Passes (λ _ w'. IsSame w w') (reach codec remote w)
  unfolding reach tick
  reach-Passes w =
      rw (quiet.running (suc w.step), quiet.reached (suc w.step), reach, tick)
        (quiet.alone w.step w.store)

  throw_if_aborted-Passes :
      (w : World Bytes) → Passes (λ _ w'. IsSame w w') (throw_if_aborted codec remote w)
  unfolding throw_if_aborted
  throw_if_aborted-Passes w = rw (quiet.running w.step, throw_if_aborted) refl

  read_verified_object-Passes :
      (key sha256 : String) (bytes : Bytes) (w : World Bytes)
      → lookup key w.store.objects ≡ some bytes
      → codec.hash_bytes bytes ≡ sha256
      → Passes (λ b w'. (b ≡ bytes) × IsSame w w') (read_verified_object codec remote key sha256 w)
  unfolding read_verified_object
  read_verified_object-Passes key sha256 bytes w found hashed =
      let Q = λ (b : Bytes) (w' : World Bytes). (b ≡ bytes) × IsSame w w' in
      after-Passes Q (λ _ w'. IsSame w w') (reach codec remote w) _ (reach-Passes w)
        (λ _ w' same.
          let there = ap (λ (s : Store Bytes). lookup key s.objects) same ∙ found in
          pass-given Q (lookup key w'.store.objects) bytes corruption w' _ there (
            pass-capacity Q (leb (codec.size bytes) remote.max_object_bytes) w' _ (
              pass-require Q (codec.hash_bytes bytes == sha256) corruption w' _
                ((eq_iff (codec.hash_bytes bytes) sha256).1 hashed) (refl, same))))

  validate_batches-Passes :
      (maximum : ℕ) (objects : Objects Bytes) (refs : List BatchReference) (revision : ℕ)
      (hash : Option String) (batches : List EventBatch) (head : ℕ × Option String) (size total : ℕ)
      (w : World Bytes)
      → w.store.objects ≡ objects
      → Chained codec maximum namespace objects refs revision hash batches head size
      → Passes
          (λ found w'. (found ≡ (batches, head)) × IsSame w w')
          (validate_batches codec remote namespace refs revision hash total w)
  unfolding validate_batches
  validate_batches-Passes maximum objects _ revision hash _ head _ total w place ended =
      (refl, refl)
  validate_batches-Passes maximum objects (r ∷ refs) revision hash (batch ∷ batches) head _ total w
        place (linked bytes revision' hash' (found, hashed, small) (from, previous) checked more) =
      let Q = λ (got : List EventBatch × (ℕ × Option String)) (w' : World Bytes).
        (got ≡ (batch ∷ batches, head)) × IsSame w w' in
      after-Passes Q (λ _ w1. IsSame w w1) (throw_if_aborted codec remote w) _
        (throw_if_aborted-Passes w)
        (λ _ w1 one.
          pass-require Q (nat_eq r.from_revision revision && same_hash r.previous_hash hash)
            corruption w1 _
            (and_intro (ground arith) (
              subst (λ h. same_hash r.previous_hash h ≡ true) previous
                (same_hash_self r.previous_hash)))
            (after-Passes Q (λ b w2. (b ≡ bytes) × IsSame w1 w2)
              (read_verified_object codec remote r.key r.sha256 w1) _
              (read_verified_object-Passes r.key r.sha256 bytes w1
                (ap (λ (s : Store Bytes). lookup r.key s.objects) one
                  ∙ ap (lookup r.key) place
                  ∙ found)
                hashed)
              (λ b w2 (same, two).
                pass-capacity Q (leb (total + codec.size b) max_recovery_bytes) w2 _ (
                  pass-given Q (check_batch codec namespace r revision hash b)
                    (batch, (revision', hash')) corruption w2 _
                    (ap (check_batch codec namespace r revision hash) same ∙ checked)
                    (after-Passes Q (λ got w3. (got ≡ (batches, head)) × IsSame w2 w3)
                      (validate_batches codec remote namespace refs revision' hash'
                        (total + codec.size b) w2)
                      _
                      (validate_batches-Passes maximum objects refs revision' hash' batches head _
                        (total + codec.size b) w2
                        (ap (λ (s : Store Bytes). s.objects) (two ∙ one) ∙ place) more)
                      (λ got w3 (all, three). (
                        ap (λ (g : List EventBatch × (ℕ × Option String)). (batch ∷ g.0, g.1)) all,
                        three ∙ two ∙ one,
                      )))))))

  validate_manifest_contents-Passes :
      (maximum : ℕ) (m : Manifest) (s : Snapshot) (batches : List EventBatch) (total : ℕ)
      (w : World Bytes)
      → IsBacked codec maximum namespace w.store.objects m s batches total
      → Passes
          (λ found w'. (found ≡ (s, batches)) × IsSame w w')
          (validate_manifest_contents codec remote namespace m w)
  unfolding validate_manifest_contents
  validate_manifest_contents-Passes maximum m s batches total w backed =
      let Q = λ (got : Snapshot × List EventBatch) (w' : World Bytes).
        (got ≡ (s, batches)) × IsSame w w' in
      let bytes = backed.snapshot_bytes in
      let (found, hashed, small) = backed.snapshot_stored in
      after-Passes Q (λ b w1. (b ≡ bytes) × IsSame w w1)
        (read_verified_object codec remote m.snapshot.key m.snapshot.sha256 w) _
        (read_verified_object-Passes m.snapshot.key m.snapshot.sha256 bytes w found hashed)
        (λ b w1 (same, one).
          pass-given Q (check_snapshot codec namespace m.snapshot b) s corruption w1 _
            (ap (check_snapshot codec namespace m.snapshot) same ∙ backed.snapshot_checked)
            (after-Passes Q (λ got w2. (got ≡ (batches, (m.revision, m.event_hash))) × IsSame w1 w2)
              (validate_batches codec remote namespace m.batches s.revision s.event_hash
                (codec.size b) w1)
              _
              (validate_batches-Passes maximum w.store.objects m.batches s.revision s.event_hash
                batches (m.revision, m.event_hash) backed.tail_total (codec.size b) w1
                (ap (λ (x : Store Bytes). x.objects) one) backed.chained)
              (λ got w2 (all, two).
                pass-require Q (nat_eq got.1.0 m.revision && same_hash got.1.1 m.event_hash)
                  corruption w2 _
                  (and_intro
                    (subst
                      (λ (g : List EventBatch × (ℕ × Option String)).
                        nat_eq g.1.0 m.revision ≡ true)
                      (sym all) (nat_eq_self m.revision))
                    (subst
                      (λ (g : List EventBatch × (ℕ × Option String)).
                        same_hash g.1.1 m.event_hash ≡ true)
                      (sym all) (same_hash_self m.event_hash)))
                  (ap (λ (g : List EventBatch × (ℕ × Option String)). (s, g.0)) all, two ∙ one))))

  parse_manifest-Passes :
      (faithful : IsFaithful codec) (m : Manifest) (w : World Bytes)
      → IsWellFormed codec m
      → Passes (λ got w'. (got ≡ m) × (w' ≡ w)) (parse_manifest codec (codec.encode_manifest m) w)
  unfolding parse_manifest
  parse_manifest-Passes faithful m w h =
      let Q = λ (got : Manifest) (w' : World Bytes). (got ≡ m) × (w' ≡ w) in
      pass-capacity Q (leb (codec.size (codec.encode_manifest m)) manifest_max_bytes) w _ (
        pass-given Q (codec.decode_manifest (codec.encode_manifest m)) m corruption w _
          (faithful.manifest_read m)
          (pass-require Q (has_fields codec m) corruption w _ h.fields (
            pass-require Q (is_snapshot_reference codec m.snapshot) corruption w _ h.snapshot (
              pass-capacity Q (leb (length m.batches) max_manifest_batches) w _ (
                pass-require Q (every (is_batch_reference codec) m.batches) corruption w _
                  h.references (refl, refl))))))

  read_manifest-Passes :
      (faithful : IsFaithful codec) (m : Manifest) (version : ℕ) (w : World Bytes)
      → IsWellFormed codec m
      → m.namespace ≡ namespace
      → w.store.head ≡ some (codec.encode_manifest m, version)
      → Passes
          (λ got w'.
            (got ≡ some (m, version, codec.hash_bytes (codec.encode_manifest m))) × IsSame w w')
          (read_manifest codec remote namespace w)
  unfolding read_manifest parse_head
  read_manifest-Passes faithful m version w formed place head =
      let Q = λ (got : Option (Manifest × ℕ × String)) (w' : World Bytes).
        (got ≡ some (m, version, codec.hash_bytes (codec.encode_manifest m))) × IsSame w w' in
      let bytes = codec.encode_manifest m in
      after-Passes Q (λ _ w1. IsSame w w1) (throw_if_aborted codec remote w) _
        (throw_if_aborted-Passes w)
        (λ _ w1 one.
          after-Passes Q (λ _ w2. IsSame w1 w2) (reach codec remote w1) _ (reach-Passes w1)
            (λ _ w2 two.
              let seen : w2.store.head ≡ some (bytes, version) =
                ap (λ (x : Store Bytes). x.head) (two ∙ one) ∙ head in
              subst (λ h. Passes Q (parse_head codec remote namespace h w2)) (sym seen)
                (after-Passes Q (λ got w3. (got ≡ m) × (w3 ≡ w2)) (parse_manifest codec bytes w2) _
                  (parse_manifest-Passes faithful m w2 formed)
                  (λ got w3 (same, three).
                    pass-require Q (got.namespace == namespace) namespace_mismatch w3 _
                      ((eq_iff got.namespace namespace).1
                        (ap (λ (x : Manifest). x.namespace) same ∙ place))
                      (
                        ap (λ (x : Manifest). some (x, version, codec.hash_bytes bytes)) same,
                        ap (λ (x : World Bytes). x.store) three ∙ two ∙ one,
                      )))))

  pub restore-Passes :
      (faithful : IsFaithful codec) (engine : Engine) (maximum : ℕ) (m : Manifest) (version : ℕ)
      (s : Snapshot) (batches : List EventBatch) (total : ℕ) (w : World Bytes)
      → engine.namespace ≡ namespace
      → IsWellFormed codec m
      → m.namespace ≡ namespace
      → w.store.head ≡ some (codec.encode_manifest m, version)
      → IsBacked codec maximum namespace w.store.objects m s batches total
      → Passes (λ found w'. found ≡ (s, batches)) (restore codec remote engine w)
  unfolding restore
  restore-Passes faithful engine maximum m version s batches total w own formed place head backed =
      let Q = λ (got : Snapshot × List EventBatch) (w' : World Bytes). got ≡ (s, batches) in
      let found : Manifest × ℕ × String =
        (m, version, codec.hash_bytes (codec.encode_manifest m)) in
      after-Passes Q (λ got w1. (got ≡ some found) × IsSame w w1)
        (read_manifest codec remote engine.namespace w) _
        (rw own (read_manifest-Passes faithful m version w formed place head))
        (λ got w1 (same, one). pass-given Q got found corruption w1 _ same (
          after-Passes Q (λ g w2. (g ≡ (s, batches)) × IsSame w1 w2)
            (validate_manifest_contents codec remote engine.namespace m w1) _
            (rw own (
              validate_manifest_contents-Passes maximum m s batches total w1 (
                subst
                  (λ (x : Store Bytes).
                    IsBacked codec maximum namespace x.objects m s batches total)
                  (sym one) backed)))
            (λ g w2 (all, two).
              after-Passes Q (λ _ w3. IsSame w2 w3) (throw_if_aborted codec remote w2) _
                (throw_if_aborted-Passes w2) (λ _ w3 three. all))))
