-- ===== src/FilesystemMutex/Renewed.antt =====
-- A renewal extends the holder's own lease and no other.
use opencode_alg.Base.{
  ℕ, String, ◌≡◌, refl, sym, ◌∙◌, ap, Option, some, inl, inr, Option-cases, if_ind, ◌||◌,
}
use opencode_alg.FilesystemMutex.Files.{MutexRecord, LockFile, World, Process, tick}
use opencode_alg.FilesystemMutex.Acquire.{ClaimResult, claimed, unclaimed, claim_loop}
use opencode_alg.FilesystemMutex.Holder.{
  Holder, own_record, RenewResult, renewed, not_renewed, write_renewal, renew_own, give_back,
  renew_claimed, renew,
}
use opencode_alg.FilesystemMutex.Closed.{
  IsSteady, mutex-tick, claim_loop-mutex, release_claim-mutex, mutex_after,
}

-- A success has written the file of the new holder, a lease that was the holder's own but for the
-- expiry; a failure has left the file.
abbrev pub IsRenewal : Process → Holder → Option LockFile → RenewResult → Type 0
IsRenewal process holder before (not_renewed w) = w.disk.mutex ≡ before
IsRenewal process holder before (renewed holder' w) =
    (w.disk.mutex ≡ some (record { identity = holder'.created; content = some holder'.lease }))
    × ((current : MutexRecord) × (own_record process.path holder before ≡ some current)
        × (holder'.lease ≡ record current { expires_at = holder'.lease.expires_at }))

module _ (process : Process) (steady : IsSteady process) (lease_ms : ℕ) (holder : Holder)
    (before : Option LockFile) where
  renew_own-IsRenewal :
      (w : World)
      → w.disk.mutex ≡ before
      → IsRenewal process holder before (renew_own process lease_ms holder w)
  unfolding renew_own write_renewal
  renew_own-IsRenewal w h =
      let w' = tick process w in
      let seen : w'.disk.mutex ≡ before = mutex-tick process steady w ∙ h in
      elim (Option-cases (own_record process.path holder w'.disk.mutex)) [
        | inl e ↦ rw (e, renew_own) seen
        | inr (current, e) ↦
            rw (e, renew_own)
              (refl, (current, ap (own_record process.path holder) (sym seen) ∙ e, refl))
      ]

  give_back-IsRenewal :
      (created : ℕ) (claim_token : String) (r : RenewResult)
      → IsRenewal process holder before r
      → IsRenewal process holder before (give_back process lease_ms created claim_token r)
  unfolding give_back
  give_back-IsRenewal created claim_token (not_renewed w) h =
      release_claim-mutex process steady created claim_token w ∙ h
  give_back-IsRenewal created claim_token (renewed holder' w) (file, own) =
      (release_claim-mutex process steady created claim_token w ∙ file, own)

  renew_claimed-IsRenewal :
      (claim_token : String) (r : ClaimResult)
      → mutex_after process steady r ≡ before
      → IsRenewal process holder before (renew_claimed process lease_ms holder claim_token r)
  unfolding renew_claimed
  renew_claimed-IsRenewal claim_token (unclaimed error w) h = h
  renew_claimed-IsRenewal claim_token (claimed created w) h =
      give_back-IsRenewal created claim_token (renew_own process lease_ms holder w)
        (renew_own-IsRenewal w h)

-- While other processes leave the lease file alone, a renewal that succeeds has written a lease that
-- was the holder's own and differs from it in the expiry alone, in a file that the new holder knows;
-- one that fails has left the lease file as it was.
pub renew-IsRenewal :
    (process : Process) (lease_ms fuel : ℕ) (claim_token : String) (holder : Holder) (w : World)
    → IsSteady process
    → IsRenewal process holder w.disk.mutex (renew process lease_ms fuel claim_token holder w)
unfolding renew
renew-IsRenewal process lease_ms fuel claim_token holder w steady =
    if_ind (IsRenewal process holder w.disk.mutex) (holder.released || holder.lost) (λ _. refl)
      (λ _.
        renew_claimed-IsRenewal process steady lease_ms holder w.disk.mutex claim_token
          (claim_loop process fuel claim_token w)
          (claim_loop-mutex process steady fuel claim_token w))
