-- ===== src/FilesystemMutex/Held.antt =====
-- An acquired lease is held until it expires, and its release never removes another's.
use opencode_alg.Base.{
  ℕ, zero, suc, String, false, ◌≡◌, refl, ◌∙◌, ap, subst, Option, none, some, ◌⊎◌, inl, inr, arith,
  Option-cases, if_ind, ltb, not, ◌||◌, eq_refl, eq_iff,
}
use opencode_alg.FilesystemMutex.Files.{
  MutexRecord, LockFile, World, Process, tick, read_verified, still_created_file, MutexDisposition,
  held, takeover, unverifiable, mutex_disposition, confirms,
}
use opencode_alg.FilesystemMutex.Acquire.{
  ClaimResult, claimed, unclaimed, with_mutex, claim_loop, release_claim, AcquireResult, acquired,
  refused, write_lease, replace_lease, under_claim, take_lease, finally, after_claim, seen_first,
  acquire_from, acquire_filesystem_mutex,
}
use opencode_alg.FilesystemMutex.Holder.{
  Holder, own_record, assert_held, remove_own, remove, removed,
}
use opencode_alg.FilesystemMutex.Closed.{
  IsSteady, mutex-tick, claim_loop-mutex, release_claim-mutex, mutex_after,
}

module _ (process : Process) (steady : IsSteady process) (owner token claim_token : String)
    (lease_ms : ℕ) where
  -- The lease file is the one that the call created, with the lease that it returns.
  abbrev pub IsWritten : AcquireResult → Type 0
  IsWritten (refused error w) = Unit
  IsWritten (acquired lease created w) =
      (w.disk.mutex ≡ some (record { identity = created; content = some lease }))
      × (lease.token ≡ token)
      × (lease.resource ≡ process.path)

  write_lease-IsWritten :
      (w : World) → IsWritten (write_lease process owner token claim_token lease_ms w)
  unfolding write_lease
  write_lease-IsWritten w = elim (Option-cases (tick process w).disk.mutex) [
    | inl e ↦ rw (e, write_lease) (refl, refl, refl)
    | inr (file, e) ↦ rw (e, write_lease) tt
  ]

  replace_lease-IsWritten :
      (w : World) → IsWritten (replace_lease process owner token claim_token lease_ms w)
  unfolding replace_lease
  replace_lease-IsWritten w = elim (Option-cases w.disk.mutex) [
    | inl e ↦ rw (e, replace_lease) tt
    | inr (file, e) ↦ rw (e, replace_lease) (write_lease-IsWritten (with_mutex w none))
  ]

  take_lease-IsWritten :
      (observed : MutexRecord) (d : MutexDisposition) (w : World)
      → IsWritten (take_lease process owner token claim_token lease_ms observed d w)
  unfolding take_lease
  take_lease-IsWritten observed takeover w =
      let w' = tick process w in
      if_ind IsWritten
        (confirms process process.path (process.clock w'.step) observed w'.disk.mutex)
        (λ _. replace_lease-IsWritten (tick process w')) (λ _. tt)
  take_lease-IsWritten observed held w = tt
  take_lease-IsWritten observed unverifiable w = tt

  under_claim-IsWritten :
      (w : World) → IsWritten (under_claim process owner token claim_token lease_ms w)
  unfolding under_claim
  under_claim-IsWritten w =
      let w' = tick process w in
      elim (Option-cases w'.disk.mutex) [
        | inl e ↦ rw (e, under_claim) (write_lease-IsWritten w')
        | inr (file, e) ↦ elim (Option-cases (read_verified process.path (some file))) [
          | inl n ↦ rw (e, n, under_claim) tt
          | inr (observed, n) ↦
              rw (e, n, under_claim)
                (take_lease-IsWritten observed
                  (mutex_disposition process (process.clock w'.step) observed) w')
        ]
      ]

  finally-IsWritten :
      (created : ℕ) (r : AcquireResult)
      → IsWritten r
      → IsWritten (finally process owner token claim_token lease_ms created r)
  unfolding finally
  finally-IsWritten created (refused error w) h = tt
  finally-IsWritten created (acquired lease identity w) (file, same, place) =
      (release_claim-mutex process steady created claim_token w ∙ file, same, place)

  after_claim-IsWritten :
      (r : ClaimResult) → IsWritten (after_claim process owner token claim_token lease_ms r)
  unfolding after_claim
  after_claim-IsWritten (claimed created w) =
      finally-IsWritten created (under_claim process owner token claim_token lease_ms w)
        (under_claim-IsWritten w)
  after_claim-IsWritten (unclaimed error w) = elim (Option-cases (tick process w).disk.mutex) [
    | inl e ↦ rw (e, after_claim) tt
    | inr (file, e) ↦ rw (e, after_claim) tt
  ]

  acquire_from-IsWritten :
      (fuel : ℕ) (w : World)
      → IsWritten (acquire_from process owner token claim_token lease_ms fuel w)
  unfolding acquire_from
  acquire_from-IsWritten fuel w =
      let w' = tick process w in
      elim (Option-cases (seen_first process owner token claim_token lease_ms w')) [
        | inr (error, e) ↦ rw (e, acquire_from) tt
        | inl e ↦
            rw (e, acquire_from) (after_claim-IsWritten (claim_loop process fuel claim_token w'))
      ]

  acquire-IsWritten :
      (heartbeat_ms fuel : ℕ) (w : World)
      → IsWritten
          (acquire_filesystem_mutex process owner token claim_token lease_ms heartbeat_ms fuel w)
  unfolding acquire_filesystem_mutex
  acquire-IsWritten heartbeat_ms fuel w =
      if_ind IsWritten
        (ltb lease_ms 100
          || ltb 60_000 lease_ms
          || ltb heartbeat_ms 10
          || not (ltb heartbeat_ms lease_ms))
        (λ _. tt) (λ _. acquire_from-IsWritten fuel w)

-- The holder as the call returns it.
abbrev pub new_holder : MutexRecord → ℕ → Holder
new_holder lease created = record {
  lease = lease;
  created = created;
  released = false;
  lost = false;
}

own_record-new :
    (path : String) (lease : MutexRecord) (created : ℕ)
    → lease.resource ≡ path
    → own_record path
        (new_holder lease created)
        (some (record { identity = created; content = some lease }))
      ≡ some lease
unfolding own_record still_created_file read_verified
own_record-new path lease zero h = ground (arith, eq_iff lease.resource path, eq_refl lease.token)
own_record-new path lease (suc n) h = ground arith

-- While other processes leave the lease file alone, `assertHeld` right after a successful
-- acquisition returns exactly while the lease has not expired.
pub acquire-assert_held :
    (process : Process) (owner token claim_token : String) (lease_ms heartbeat_ms fuel : ℕ)
    (w w' : World) (lease : MutexRecord) (created : ℕ)
    → IsSteady process
    → acquire_filesystem_mutex process owner token claim_token lease_ms heartbeat_ms fuel w
      ≡ acquired lease created w'
    → assert_held process (new_holder lease created) w'
      ≡ ltb (process.clock (suc w'.step)) lease.expires_at
unfolding assert_held tick
acquire-assert_held process owner token claim_token lease_ms heartbeat_ms fuel w w' lease created
      steady h =
    let (file, same, place) =
      subst (IsWritten process steady owner token claim_token lease_ms) h
        (acquire-IsWritten process steady owner token claim_token lease_ms heartbeat_ms fuel w) in
    let seen = mutex-tick process steady w' ∙ file in
    let own : own_record process.path (new_holder lease created) (tick process w').disk.mutex
        ≡ some lease =
      ap (own_record process.path (new_holder lease created)) seen
      ∙ own_record-new process.path lease created place in
    rw (own, assert_held) refl

removed-own :
    (process : Process) (steady : IsSteady process) (claim_token : String) (holder : Holder)
    (before : Option LockFile) (r : ClaimResult)
    → mutex_after process steady r ≡ before
    → ((removed process holder claim_token r).disk.mutex ≡ before)
      ⊎ (((removed process holder claim_token r).disk.mutex ≡ none)
          × (¬ (own_record process.path holder before ≡ none)))
unfolding removed remove_own
removed-own process steady claim_token holder before (unclaimed error w) h = inl h
removed-own process steady claim_token holder before (claimed created w) h =
    let given : (release_claim process created claim_token (remove_own process holder w)).disk.mutex
        ≡ (remove_own process holder w).disk.mutex =
      release_claim-mutex process steady created claim_token (remove_own process holder w) in
    let seen = mutex-tick process steady w ∙ h in
    elim (Option-cases (own_record process.path holder (tick process w).disk.mutex)) [
      | inl e ↦ inl (given ∙ rw (e, remove_own) seen)
      | inr (current, e) ↦
          inr (given ∙ rw (e, remove_own) refl, λ n. let again = rw seen at e in cc)
    ]

-- While other processes leave the lease file alone, one try of a release keeps the lease file as it
-- is, or removes it where it was the holder's own.
pub remove-own :
    (process : Process) (fuel : ℕ) (claim_token : String) (holder : Holder) (w : World)
    → IsSteady process
    → ((remove process fuel claim_token holder w).disk.mutex ≡ w.disk.mutex)
      ⊎ (((remove process fuel claim_token holder w).disk.mutex ≡ none)
          × (¬ (own_record process.path holder w.disk.mutex ≡ none)))
unfolding remove
remove-own process fuel claim_token holder w steady =
    removed-own process steady claim_token holder w.disk.mutex
      (claim_loop process fuel claim_token w) (claim_loop-mutex process steady fuel claim_token w)
