-- ===== src/Replication/Formed.antt =====
-- The manifests that a replication reads and publishes have the fields that the parser asks for.
use opencode_alg.Base.{
  ℕ, suc, ◌≤◌, ◌<◌, String, true, false, ◌&&◌, Option, none, some, List, [], ◌∷◌, leb, length,
  every, nat_eq, ◌==◌, ◌≡◌, refl, sym, arith, and_split, eq_iff, ap, ◌∙◌, Bool-cases, inl, inr,
}
use opencode_alg.Replication.Data.{
  EventBatch, Manifest, Codec, World, Remote, corruption, capacity, namespace_mismatch, same_hash,
  is_sha256, is_sha256_or_null, MemoryEvent,
}
use opencode_alg.Replication.Chain.{verify_event_chain, verify_events, ends_at}
use opencode_alg.Replication.Parsing.{
  max_manifest_batches, manifest_max_bytes, has_fields, is_snapshot_reference, is_batch_reference,
  parse_manifest,
}
use opencode_alg.Replication.Remote.{reach, throw_if_aborted, parse_head, read_manifest}
use opencode_alg.Replication.Attempt.{Engine}
use opencode_alg.Replication.Backed.{Ends, Ends-any, after-Ends, after-given, after-require}
use opencode_alg.Replication.Published.{IsFaithful, if_true}
use opencode_alg.Replication.Appended.{ends_at-same}
use opencode_alg.Replication.Recovered.{IsWellFormed}
use opencode_alg.Replication.Chain.{continues}

-- The engine has a name, and its head is null or a digest.
pub record IsNamed (engine : Engine) : Type 0 where
  pub named : (engine.namespace == "") ≡ false
  pub digest : is_sha256_or_null engine.event_hash ≡ true

module _ {Bytes : Type 0} (codec : Codec Bytes) (faithful : IsFaithful codec)
    (namespace : String) where
  continues-step :
      (revision : ℕ) (previous : Option String) (e : MemoryEvent)
      → continues codec namespace revision previous e ≡ true
      → (e.revision ≡ suc revision) × (is_sha256 e.event_hash ≡ true)
  unfolding continues
  continues-step revision previous e h =
      let (most, last) = and_split _ (e.event_hash == codec.head_digest e) h in
      let (body, content) = and_split _ (e.content_hash == codec.content_digest e) most in
      let (start, link) = and_split _ (same_hash e.previous_hash previous) body in
      let (kind, next) = and_split _ (nat_eq e.revision (suc revision)) start in
      (
        ground arith,
        ap is_sha256 ((eq_iff e.event_hash (codec.head_digest e)).0 last) ∙ faithful.event_digest e,
      )

  verify_events-end :
      (revision : ℕ) (previous : Option String) (events : List MemoryEvent)
      (head : ℕ × Option String)
      → is_sha256_or_null previous ≡ true
      → verify_events codec namespace revision previous events ≡ some head
      → (revision ≤ head.0) × (is_sha256_or_null head.1 ≡ true)
  unfolding verify_events
  verify_events-end revision previous [] head digest h = ground arith
  verify_events-end revision previous (e ∷ events) head digest h =
      elim (Bool-cases (continues codec namespace revision previous e)) [
        | inr n ↦ absurd (let x : none ≡ some head = sym (rw (n, verify_events) refl) ∙ h in cc)
        | inl y ↦
            let opened : verify_events codec namespace e.revision (some e.event_hash) events
                ≡ some head =
              sym (if_true _ none y) ∙ h in
            let (next, sha) = continues-step revision previous e y in
            let (rest, last) =
              verify_events-end e.revision (some e.event_hash) events head sha opened in
            (omega (arith, next, rest), last)
      ]

  -- A verified batch moves the cursor on, to the hash of its last event.
  pub verify_event_chain-end :
      (batch : EventBatch) (revision : ℕ) (hash : Option String) (head : ℕ × Option String)
      → verify_event_chain codec namespace batch revision hash ≡ some head
      → (revision < head.0) × (is_sha256_or_null head.1 ≡ true)
  unfolding verify_event_chain verify_events
  verify_event_chain-end batch revision hash head h =
      elim (Bool-cases (
        batch.namespace == namespace
        && nat_eq batch.from_revision revision
        && same_hash batch.previous_hash hash)) [
          | inr e ↦
              absurd (let n : none ≡ some head = sym (rw (e, verify_event_chain) refl) ∙ h in cc)
          | inl e ↦
              let events = batch.first ∷ batch.more in
              let opened : ends_at codec namespace batch.to_revision
                    (verify_events codec namespace revision hash events)
                  ≡ some head =
                sym (if_true _ none e) ∙ h in
              let (found, to) =
                ends_at-same codec namespace batch.to_revision
                  (verify_events codec namespace revision hash events) head opened in
              elim (Bool-cases (continues codec namespace revision hash batch.first)) [
                | inr n ↦
                    absurd
                      (let x : none ≡ some head = sym (rw (n, verify_events) refl) ∙ found in cc)
                | inl y ↦
                    let (next, sha) = continues-step revision hash batch.first y in
                    let (rest, last) =
                      verify_events-end batch.first.revision (some batch.first.event_hash)
                        batch.more head sha (sym (if_true _ none y) ∙ found) in
                    (omega (arith, next, rest), last)
              ]
        ]

module _ {Bytes : Type 0} (codec : Codec Bytes) where
  parse_manifest-Ends :
      (bytes : Bytes) (w : World Bytes)
      → Ends
          (λ m w'. IsWellFormed codec m × (codec.decode_manifest bytes ≡ some m) × (w' ≡ w))
          (parse_manifest codec bytes w)
  unfolding parse_manifest
  parse_manifest-Ends bytes w =
      let Q = λ (m : Manifest) (w' : World Bytes).
        IsWellFormed codec m × (codec.decode_manifest bytes ≡ some m) × (w' ≡ w) in
      after-require Q (leb (codec.size bytes) manifest_max_bytes) capacity w _ (λ _.
        after-given Q (codec.decode_manifest bytes) corruption w _ (λ m read.
          after-require Q (has_fields codec m) corruption w _ (λ fields.
            after-require Q (is_snapshot_reference codec m.snapshot) corruption w _ (λ reference.
              after-require Q (leb (length m.batches) max_manifest_batches) capacity w _ (λ few.
                after-require Q (every (is_batch_reference codec) m.batches) corruption w _
                  (λ references. (
                    record {
                      fields = fields;
                      snapshot = reference;
                      few = ground arith;
                      references = references;
                    },
                    read,
                    refl,
                  )))))))

  -- What was found is the store's head.
  abbrev pub IsHead : Option (Manifest × ℕ × String) → World Bytes → Type 0
  IsHead none w = Unit
  IsHead (some (m, version, hash)) w = w.store.head ≡ some (codec.encode_manifest m, version)

  abbrev pub WasParsed : (namespace : String) → Option (Manifest × ℕ × String) → Type 0
  WasParsed namespace none = Unit
  WasParsed namespace (some (m, version, hash)) =
      IsWellFormed codec m × (m.namespace ≡ namespace) × (is_sha256 hash ≡ true)

  abbrev pub WasRead : (namespace : String) → Option (Manifest × ℕ × String) → World Bytes → Type 0
  WasRead namespace found w = WasParsed namespace found × IsHead found w

  parse_head-Ends :
      (faithful : IsFaithful codec) (remote : Remote Bytes) (namespace : String)
      (head : Option (Bytes × ℕ)) (w : World Bytes)
      → w.store.head ≡ head
      → Ends (WasRead namespace) (parse_head codec remote namespace head w)
  unfolding parse_head
  parse_head-Ends faithful remote namespace none w at = (tt, tt)
  parse_head-Ends faithful remote namespace (some (bytes, version)) w at =
      let Q = WasRead namespace in
      after-Ends Q
        (λ m w'. IsWellFormed codec m × (codec.decode_manifest bytes ≡ some m) × (w' ≡ w))
        (parse_manifest codec bytes w) _ (parse_manifest-Ends bytes w)
        (λ m w' (formed, read, still).
          after-require Q (m.namespace == namespace) namespace_mismatch w' _ (λ same. (
            (formed, (eq_iff m.namespace namespace).0 same, faithful.digest bytes),
            ap (λ (x : World Bytes). x.store.head) still
                ∙ at
                ∙ ap (λ b. some (b, version)) (sym (faithful.manifest_canonical bytes m read)),
          )))

  pub read_manifest-Ends :
      (faithful : IsFaithful codec) (remote : Remote Bytes) (namespace : String) (w : World Bytes)
      → Ends (WasRead namespace) (read_manifest codec remote namespace w)
  unfolding read_manifest
  read_manifest-Ends faithful remote namespace w =
      let Q = WasRead namespace in
      after-Ends Q (λ _ w'. Unit {0}) (throw_if_aborted codec remote w) _
        (Ends-any (throw_if_aborted codec remote w))
        (λ _ w1 _.
          after-Ends Q (λ _ w'. Unit {0}) (reach codec remote w1) _
            (Ends-any (reach codec remote w1))
            (λ _ w2 _. parse_head-Ends faithful remote namespace w2.store.head w2 refl))
