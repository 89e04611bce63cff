-- ===== src/FilesystemMutex/Holder.antt =====
-- What the holder of a lease does with it: `assertHeld`, `renew` and `release`.
use opencode_alg.Base.{
  ◌+◌, ◌||◌, ℕ, String, Bool, false, ◌&&◌, ◌||◌, not, Option, none, some, ltb, ◌==◌, if◌then◌else◌,
}
use opencode_alg.FilesystemMutex.Files.{
  MutexRecord, LockFile, World, Process, tick, read_verified, still_created_file,
}
use opencode_alg.FilesystemMutex.Acquire.{
  claimed, unclaimed, claim_loop, ClaimResult, release_claim, with_mutex,
}

-- The holder's view: the lease, the identity of its file, and the flags `released` and `lost`.
pub record Holder : Type 0 where
  pub lease : MutexRecord
  pub created : ℕ
  pub released : Bool
  pub lost : Bool

-- `ownRecord`: `none` for a lease that is not ours any more or that cannot be verified, on both of
-- which the callers end in an error.
unfoldable pub own_record : (path : String) → Holder → Option LockFile → Option MutexRecord
unfolding still_created_file read_verified
own_record path holder file = elim (still_created_file holder.created file) [
  | some same ↦ if same then some holder.lease else none
  | none ↦ elim (read_verified path file) [
    | none ↦ none
    | some current ↦ if current.token == holder.lease.token then some current else none
  ]
]

module _ (process : Process) where
  abbrev is_current : (now : ℕ) → Option MutexRecord → Bool
  is_current now none = false
  is_current now (some r) = ltb now r.expires_at

  -- Whether `assertHeld` returns.
  unfoldable pub assert_held : Holder → World → Bool
  unfolding tick own_record
  assert_held holder w =
      let w' = tick process w in
      not (holder.released || holder.lost)
      && is_current (process.clock w'.step) (own_record process.path holder w'.disk.mutex)

  -- The removal, under the claim.
  unfoldable pub remove_own : Holder → World → World
  unfolding tick own_record
  remove_own holder w =
      let w' = tick process w in
      elim (own_record process.path holder w'.disk.mutex) [
        | none ↦ w'
        | some current ↦ with_mutex w' none
      ]

  unfoldable pub removed : Holder → String → ClaimResult → World
  unfolding release_claim remove_own
  removed holder claim_token (unclaimed error w) = w
  removed holder claim_token (claimed created w) =
      release_claim process created claim_token (remove_own holder w)

  -- One try of `remove`, which `release` starts and a timer repeats.
  unfoldable pub remove : (fuel : ℕ) → (claim_token : String) → Holder → World → World
  unfolding claim_loop removed
  remove fuel claim_token holder w =
      removed holder claim_token (claim_loop process fuel claim_token w)

-- A renewed lease with its new holder, or an error. A lease that is not ours any more and one that
-- cannot be verified are not told apart; the source sets `lost` for the first.
pub data RenewResult : Type 0 where
  renewed : Holder → World → RenewResult
  not_renewed : World → RenewResult

module _ (process : Process) (lease_ms : ℕ) where
  abbrev renewed_lease : MutexRecord → World → MutexRecord
  renewed_lease current w = record current { expires_at = process.clock w.step + lease_ms }

  -- The renewed record replaces the file in one step.
  unfoldable pub write_renewal : Holder → World → MutexRecord → RenewResult
  unfolding tick
  write_renewal holder w current =
      let w' = tick process w in
      let lease = renewed_lease current w in
      let created = process.identity_at w'.step in
      renewed (record holder { lease = lease; created = created })
        (with_mutex w' (some (record { identity = created; content = some lease })))

  -- What `renew` does under the claim.
  unfoldable pub renew_own : Holder → World → RenewResult
  unfolding tick own_record write_renewal
  renew_own holder w =
      let w' = tick process w in
      elim (own_record process.path holder w'.disk.mutex) [
        | none ↦ not_renewed w'
        | some current ↦ write_renewal holder w' current
      ]

  unfoldable pub give_back : (created : ℕ) → String → RenewResult → RenewResult
  unfolding release_claim
  give_back created claim_token (renewed holder w) =
      renewed holder (release_claim process created claim_token w)
  give_back created claim_token (not_renewed w) =
      not_renewed (release_claim process created claim_token w)

  unfoldable pub renew_claimed : Holder → String → ClaimResult → RenewResult
  unfolding renew_own give_back
  renew_claimed holder claim_token (unclaimed error w) = not_renewed w
  renew_claimed holder claim_token (claimed created w) =
      give_back created claim_token (renew_own holder w)

  -- `renew`
  unfoldable pub renew : (fuel : ℕ) → (claim_token : String) → Holder → World → RenewResult
  unfolding claim_loop renew_claimed
  renew fuel claim_token holder w =
      if holder.released || holder.lost
      then not_renewed w
      else renew_claimed holder claim_token (claim_loop process fuel claim_token w)
