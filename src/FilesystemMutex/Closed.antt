-- ===== src/FilesystemMutex/Closed.antt =====
-- Acquisition fails closed: it never replaces a lease that is not proven stale.
use opencode_alg.Base.{
  ◌==◌, arith, ℕ, zero, suc, String, Bool, true, false, ◌≡◌, refl, ◌∙◌, Option, none, some, ◌⊎◌,
  inl, inr, Option-cases, if_ind, ◌||◌, not, ltb,
}
use opencode_alg.FilesystemMutex.Files.{
  MutexRecord, LockFile, Disk, World, Process, tick, claim_path, read_verified, MutexDisposition,
  held, takeover, unverifiable, mutex_disposition, confirms, is_takeover,
}
use opencode_alg.FilesystemMutex.Acquire.{
  ClaimResult, claimed, unclaimed, with_claim, remove_claim, take_claim, inspect_claim, claim_loop,
  is_own, release_claim, AcquireResult, acquired, refused, under_claim, take_lease, finally,
  after_claim, seen_first, acquire_from, acquire_filesystem_mutex,
}

-- The other processes leave the lease file as it is; with the claim file they do what they will.
abbrev pub IsSteady : Process → Type 0
IsSteady process = (k : ℕ) (d : Disk) → (process.others k d).mutex ≡ d.mutex

module _ (process : Process) (steady : IsSteady process) where
  pub mutex-tick : (w : World) → (tick process w).disk.mutex ≡ w.disk.mutex
  unfolding tick
  mutex-tick w = steady w.step w.disk

  -- The lease file after a try for the claim.
  abbrev pub mutex_after : ClaimResult → Option LockFile
  mutex_after (claimed created w) = w.disk.mutex
  mutex_after (unclaimed error w) = w.disk.mutex

  module _ (next : World → ClaimResult)
      (keeps : (v : World) → mutex_after (next v) ≡ v.disk.mutex) where
    remove_claim-mutex : (w : World) → mutex_after (remove_claim process next w) ≡ w.disk.mutex
    unfolding remove_claim
    remove_claim-mutex w = elim (Option-cases w.disk.claim) [
      | inl e ↦ rw (e, remove_claim) refl
      | inr (file, e) ↦ rw (e, remove_claim) (keeps (with_claim w none))
    ]

    take_claim-mutex :
        (observed : MutexRecord) (d : MutexDisposition) (w : World)
        → mutex_after (take_claim process next observed d w) ≡ w.disk.mutex
    unfolding take_claim
    take_claim-mutex observed takeover w =
        let w' = tick process w in
        if_ind (λ r. mutex_after r ≡ w.disk.mutex)
          (confirms process (claim_path process) (process.clock w'.step) observed w'.disk.claim)
          (λ _. remove_claim-mutex (tick process w') ∙ (mutex-tick w' ∙ mutex-tick w))
          (λ _. mutex-tick w)
    take_claim-mutex observed held w = refl
    take_claim-mutex observed unverifiable w = refl

    inspect_claim-mutex : (w : World) → mutex_after (inspect_claim process next w) ≡ w.disk.mutex
    unfolding inspect_claim
    inspect_claim-mutex w = elim (Option-cases (read_verified (claim_path process) w.disk.claim)) [
      | inl e ↦ rw (e, inspect_claim) refl
      | inr (observed, e) ↦
          rw (e, inspect_claim)
            (take_claim-mutex observed (mutex_disposition process (process.clock w.step) observed)
              w)
    ]

  pub claim_loop-mutex :
      (fuel : ℕ) (token : String) (w : World)
      → mutex_after (claim_loop process fuel token w) ≡ w.disk.mutex
  unfolding claim_loop
  claim_loop-mutex zero token w = refl
  claim_loop-mutex (suc fuel) token w =
      let w' = tick process w in
      elim (Option-cases w'.disk.claim) [
        | inl e ↦ rw (e, claim_loop) (mutex-tick w)
        | inr (file, e) ↦
            rw (e, claim_loop)
              (inspect_claim-mutex (claim_loop process fuel token)
                  (λ v. claim_loop-mutex fuel token v) (tick process w')
                ∙ (mutex-tick w' ∙ mutex-tick w))
      ]

  pub release_claim-mutex :
      (created : ℕ) (token : String) (w : World)
      → (release_claim process created token w).disk.mutex ≡ w.disk.mutex
  unfolding release_claim
  release_claim-mutex created token w =
      if_ind (λ (v : World). v.disk.mutex ≡ w.disk.mutex)
        (is_own process (claim_path process) created token (tick process w).disk.claim)
        (λ _. mutex-tick w) (λ _. mutex-tick w)

  abbrev is_dead : Option Bool → Bool
  is_dead (some false) = true
  is_dead _ = false

  -- The file holds no record that can be verified, or its record is of another host or of a process
  -- that is not known to be dead.
  abbrev pub IsProtected : LockFile → Type 0
  IsProtected file =
      (read_verified process.path (some file) ≡ none)
      ⊎ ((r : MutexRecord) × (read_verified process.path (some file) ≡ some r)
          × (((r.host == process.host) ≡ false) ⊎ (is_dead (process.alive r.pid) ≡ false)))

  -- Such a record is never open to takeover, expired or not.
  never_takeover :
      (r : MutexRecord) (now : ℕ)
      → ((r.host == process.host) ≡ false) ⊎ (is_dead (process.alive r.pid) ≡ false)
      → is_takeover (mutex_disposition process now r) ≡ false
  unfolding mutex_disposition
  never_takeover r now h = ground arith

  -- The call was refused, and the lease file is the given one.
  abbrev pub IsRefused : LockFile → AcquireResult → Type 0
  IsRefused file (refused error w) = w.disk.mutex ≡ some file
  IsRefused file (acquired lease created w) = ⊥

  module _ (owner token claim_token : String) (lease_ms : ℕ) (file : LockFile)
      (safe : IsProtected file) where
    take_lease-IsRefused :
        (observed : MutexRecord) (d : MutexDisposition) (w : World)
        → is_takeover d ≡ false
        → w.disk.mutex ≡ some file
        → IsRefused file (take_lease process owner token claim_token lease_ms observed d w)
    unfolding take_lease
    take_lease-IsRefused observed takeover w stale h = let wrong : true ≡ false = stale in cc
    take_lease-IsRefused observed held w stale h = h
    take_lease-IsRefused observed unverifiable w stale h = h

    under_claim-IsRefused :
        (w : World)
        → w.disk.mutex ≡ some file
        → IsRefused file (under_claim process owner token claim_token lease_ms w)
    unfolding under_claim
    under_claim-IsRefused w h =
        let w' = tick process w in
        let here : w'.disk.mutex ≡ some file = mutex-tick w ∙ h in
        elim safe [
          | inl unread ↦ rw (here, unread, under_claim) here
          | inr (r, read, alive) ↦
              rw (here, read, under_claim)
                (take_lease-IsRefused r (mutex_disposition process (process.clock w'.step) r) w'
                  (never_takeover r (process.clock w'.step) alive) here)
        ]

    finally-IsRefused :
        (created : ℕ) (r : AcquireResult)
        → IsRefused file r
        → IsRefused file (finally process owner token claim_token lease_ms created r)
    unfolding finally
    finally-IsRefused created (refused error w) h = release_claim-mutex created claim_token w ∙ h
    finally-IsRefused created (acquired lease identity w) h = absurd h

    after_claim-IsRefused :
        (r : ClaimResult)
        → mutex_after r ≡ some file
        → IsRefused file (after_claim process owner token claim_token lease_ms r)
    unfolding after_claim
    after_claim-IsRefused (claimed created w) h =
        finally-IsRefused created (under_claim process owner token claim_token lease_ms w)
          (under_claim-IsRefused w h)
    after_claim-IsRefused (unclaimed error w) h =
        let here : (tick process w).disk.mutex ≡ some file = mutex-tick w ∙ h in
        rw (here, after_claim) here

    acquire_from-IsRefused :
        (fuel : ℕ) (w : World)
        → w.disk.mutex ≡ some file
        → IsRefused file (acquire_from process owner token claim_token lease_ms fuel w)
    unfolding acquire_from
    acquire_from-IsRefused fuel w h =
        let w' = tick process w in
        let here : w'.disk.mutex ≡ some file = mutex-tick w ∙ h in
        elim (Option-cases (seen_first process owner token claim_token lease_ms w')) [
          | inr (error, e) ↦ rw (e, acquire_from) here
          | inl e ↦
              rw (e, acquire_from)
                (after_claim-IsRefused (claim_loop process fuel claim_token w')
                  (claim_loop-mutex fuel claim_token w' ∙ here))
        ]

-- While other processes leave the lease file alone, whatever they do with the claim file, a lease
-- file that cannot be verified, or whose owner is remote or not known to be dead, is never replaced:
-- acquisition is refused, and the file stays, even where the lease has expired.
pub acquire_filesystem_mutex-IsRefused :
    (process : Process) (owner token claim_token : String) (lease_ms heartbeat_ms fuel : ℕ)
    (file : LockFile) (w : World)
    → (steady : IsSteady process) → IsProtected process steady file
    → w.disk.mutex ≡ some file
    → IsRefused process steady file
        (acquire_filesystem_mutex process owner token claim_token lease_ms heartbeat_ms fuel w)
unfolding acquire_filesystem_mutex
acquire_filesystem_mutex-IsRefused process owner token claim_token lease_ms heartbeat_ms fuel file w
      steady safe h =
    if_ind (IsRefused process steady file)
      (ltb lease_ms 100
        || ltb 60_000 lease_ms
        || ltb heartbeat_ms 10
        || not (ltb heartbeat_ms lease_ms))
      (λ _. h)
      (λ _.
        acquire_from-IsRefused process steady owner token claim_token lease_ms file safe fuel w h)
