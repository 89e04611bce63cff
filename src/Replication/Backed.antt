-- ===== src/Replication/Backed.antt =====
-- What stands behind a manifest in the store, and rules for actions that end.
use opencode_alg.Base.{
  ℕ, ◌+◌, ◌≤◌, String, Bool, true, false, Option, none, some, List, [], ◌∷◌, leb, ◌==◌, ◌≡◌, refl,
  lookup, arith, if_ind, eq_iff, ap, eq_refl,
}
use opencode_alg.Replication.Data.{
  EventBatch, Snapshot, BatchReference, Manifest, Codec, Store, World, Remote, ReplicationErrorCode,
  corruption, capacity, Outcome, done, failed, Action, after, require, given, same_hash,
}
use opencode_alg.Replication.Parsing.{check_batch, check_snapshot}
use opencode_alg.Replication.Remote.{tick, reach, throw_if_aborted, read_verified_object}

abbrev pub Objects : Type 0 → Type 0
Objects Bytes = List (String × Bytes)

-- Every object stays.
abbrev pub Keeps : {Bytes : Type 0} → Objects Bytes → Objects Bytes → Type 0
Keeps {Bytes} before later =
    (key : String) (bytes : Bytes) → lookup key before ≡ some bytes → lookup key later ≡ some bytes

-- Other writers never delete or rewrite an object.
abbrev pub IsImmutable : {Bytes : Type 0} → Remote Bytes → Type 0
IsImmutable {Bytes} remote =
    (step : ℕ) (store : Store Bytes) → Keeps store.objects (remote.others step store).objects

-- An outcome, if it is not an error, has a property.
abbrev pub Ends : {Bytes A : Type 0} → (A → World Bytes → Type 0) → Outcome Bytes A → Type 0
Ends P (done a w) = P a w
Ends P (failed code w) = Unit

-- Every outcome is one that ends.
pub Ends-any : {Bytes A : Type 0} (o : Outcome Bytes A) → Ends (λ a w. Unit {0}) o
Ends-any (done a w) = tt
Ends-any (failed code w) = tt

pub Ends-both :
    {Bytes A : Type 0} (P Q : A → World Bytes → Type 0) (o : Outcome Bytes A)
    → Ends P o
    → Ends Q o
    → Ends (λ a w. P a w × Q a w) o
Ends-both P Q (done a w) p q = (p, q)
Ends-both P Q (failed code w) p q = tt

pub weaken :
    {Bytes A : Type 0} (P Q : A → World Bytes → Type 0) (o : Outcome Bytes A)
    → Ends P o
    → ((a : A) (w : World Bytes) → P a w → Q a w)
    → Ends Q o
weaken P Q (done a w) h next = next a w h
weaken P Q (failed code w) h next = tt

module _ {Bytes A B : Type 0} (Q : B → World Bytes → Type 0) where
  pub after-Ends :
      (P : A → World Bytes → Type 0) (o : Outcome Bytes A) (f : A → Action Bytes B)
      → Ends P o
      → ((a : A) (w : World Bytes) → P a w → Ends Q (f a w))
      → Ends Q (after o f)
  after-Ends P (done a w) f h next = next a w h
  after-Ends P (failed code w) f h next = tt

  pub after-given :
      (o : Option A) (code : ReplicationErrorCode) (w : World Bytes) (f : A → Action Bytes B)
      → ((a : A) → o ≡ some a → Ends Q (f a w))
      → Ends Q (after (given o code w) f)
  after-given none code w f next = tt
  after-given (some a) code w f next = next a refl

module _ {Bytes B : Type 0} (Q : B → World Bytes → Type 0) where
  pub after-require :
      (b : Bool) (code : ReplicationErrorCode) (w : World Bytes) (f : Unit {0} → Action Bytes B)
      → (b ≡ true → Ends Q (f tt w))
      → Ends Q (after (require b code w) f)
  after-require true code w f next = next refl
  after-require false code w f next = tt

pub same_hash-eq : (a b : Option String) → same_hash a b ≡ true → a ≡ b
same_hash-eq none none h = refl
same_hash-eq none (some b) h = cc
same_hash-eq (some a) none h = cc
same_hash-eq (some a) (some b) h = ap some ((eq_iff a b).0 h)

pub same_hash_self : (a : Option String) → same_hash a a ≡ true
same_hash_self none = refl
same_hash_self (some a) = eq_refl a

module _ {Bytes : Type 0} (codec : Codec Bytes) (maximum : ℕ) where
  -- An object that can be read under its key, with its hash and within the limit.
  abbrev pub IsStored : Objects Bytes → (key sha256 : String) → Bytes → Type 0
  IsStored objects key sha256 bytes =
      (lookup key objects ≡ some bytes)
      × (codec.hash_bytes bytes ≡ sha256)
      × (codec.size bytes ≤ maximum)

module _ {Bytes : Type 0} (codec : Codec Bytes) (maximum : ℕ) (namespace : String) where
  -- References whose stored segments lead from one cursor to another, with the bytes they take.
  pub data Chained (objects : Objects Bytes)
      : List BatchReference
        → ℕ
        → Option String
        → List EventBatch
        → ℕ × Option String
        → ℕ
        → Type 0 where
    ended :
        {revision : ℕ} {hash : Option String}
        → Chained objects [] revision hash [] (revision, hash) 0
    linked :
        {r : BatchReference} {refs : List BatchReference} {revision : ℕ} {hash : Option String}
        {batch : EventBatch} {batches : List EventBatch} {head : ℕ × Option String} {total : ℕ}
        (bytes : Bytes) (revision' : ℕ) (hash' : Option String)
        → IsStored codec maximum objects r.key r.sha256 bytes
        → (r.from_revision ≡ revision) × (r.previous_hash ≡ hash)
        → check_batch codec namespace r revision hash bytes ≡ some (batch, (revision', hash'))
        → Chained objects refs revision' hash' batches head total
        → Chained objects (r ∷ refs) revision hash (batch ∷ batches) head (codec.size bytes + total)

  pub Chained-Keeps :
      (before later : Objects Bytes) (refs : List BatchReference) (revision : ℕ)
      (hash : Option String) (batches : List EventBatch) (head : ℕ × Option String) (total : ℕ)
      → Keeps before later
      → Chained before refs revision hash batches head total
      → Chained later refs revision hash batches head total
  Chained-Keeps before later _ revision hash _ head _ keeps ended = ended
  Chained-Keeps before later (r ∷ refs) revision hash (batch ∷ batches) head _ keeps
        (linked bytes revision' hash' (place, hashed, small) cursor checked more) =
      linked bytes revision' hash' (keeps _ bytes place, hashed, small) cursor checked
        (Chained-Keeps before later refs revision' hash' batches head _ keeps more)

  -- The snapshot of a manifest and its segments stand in the store, and lead to its cursor.
  pub record IsBacked (objects : Objects Bytes) (m : Manifest) (s : Snapshot)
      (batches : List EventBatch) (total : ℕ) : Type 0 where
    pub snapshot_bytes : Bytes
    pub snapshot_stored :
        IsStored codec maximum objects m.snapshot.key m.snapshot.sha256 snapshot_bytes
    pub snapshot_checked : check_snapshot codec namespace m.snapshot snapshot_bytes ≡ some s
    pub tail_total : ℕ
    pub chained :
        Chained objects m.batches s.revision s.event_hash batches
          (m.revision, m.event_hash)
          tail_total
    pub whole : total ≡ codec.size snapshot_bytes + tail_total

  pub IsBacked-Keeps :
      (before later : Objects Bytes) (m : Manifest) (s : Snapshot) (batches : List EventBatch)
      (total : ℕ)
      → Keeps before later
      → IsBacked before m s batches total
      → IsBacked later m s batches total
  IsBacked-Keeps before later m s batches total keeps h =
      let (place, hashed, small) = h.snapshot_stored in
      record {
        snapshot_bytes = h.snapshot_bytes;
        snapshot_stored = (keeps m.snapshot.key h.snapshot_bytes place, hashed, small);
        snapshot_checked = h.snapshot_checked;
        tail_total = h.tail_total;
        chained =
            Chained-Keeps before later m.batches s.revision s.event_hash batches
              (m.revision, m.event_hash) h.tail_total keeps h.chained;
        whole = h.whole;
      }

module _ {Bytes : Type 0} (codec : Codec Bytes) (remote : Remote Bytes)
    (immutable : IsImmutable remote) where
  abbrev pub IsLater : World Bytes → World Bytes → Type 0
  IsLater w w' = Keeps w.store.objects w'.store.objects

  pub reach-Ends : (w : World Bytes) → Ends (λ _ w'. IsLater w w') (reach codec remote w)
  unfolding reach tick
  reach-Ends w =
      let w' = tick codec remote w in
      if_ind (Ends (λ _ w'. IsLater w w')) (remote.aborted w'.step) (λ _. tt)
        (λ _.
          if_ind (Ends (λ _ w'. IsLater w w')) (remote.answers w'.step)
            (λ _. immutable w.step w.store) (λ _. tt))

  pub throw_if_aborted-Ends :
      (w : World Bytes) → Ends (λ _ w'. IsLater w w') (throw_if_aborted codec remote w)
  unfolding throw_if_aborted
  throw_if_aborted-Ends w =
      if_ind (Ends (λ _ w'. IsLater w w')) (remote.aborted w.step) (λ _. tt) (λ _ key bytes h. h)

  pub read_verified_object-Ends :
      (key sha256 : String) (w : World Bytes)
      → Ends
          (λ bytes w'.
            IsLater w w' × IsStored codec remote.max_object_bytes w'.store.objects key sha256 bytes)
          (read_verified_object codec remote key sha256 w)
  unfolding read_verified_object
  read_verified_object-Ends key sha256 w =
      let Q = λ (bytes : Bytes) (w' : World Bytes).
        IsLater w w' × IsStored codec remote.max_object_bytes w'.store.objects key sha256 bytes in
      after-Ends Q (λ _ w'. IsLater w w') (reach codec remote w) _ (reach-Ends w)
        (λ _ w' later. after-given Q (lookup key w'.store.objects) corruption w' _ (λ bytes found.
          after-require Q (leb (codec.size bytes) remote.max_object_bytes) capacity w' _ (λ small.
            after-require Q (codec.hash_bytes bytes == sha256) corruption w' _ (λ same.
              (later, (found, (eq_iff (codec.hash_bytes bytes) sha256).0 same, ground arith))))))
