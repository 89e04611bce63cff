-- ===== src/Ownership/Transfer.antt =====
-- A transfer continues the audited chain of owners, and only the owner makes one.
use opencode_alg.Base.{
  String, false, ◌≡◌, ◌≢◌, ◌⊎◌, ◌||◌, not, Option, none, some, List, [], ◌∷◌, ◌++◌, inl, inr, ℕ,
  subst, refl, sym, ◌∙◌, ap, ltb, ◌==◌, arith, eq_iff, eq_refl, if_ind, Bool-cases, Option-cases,
  append-eq-nil,
}
use opencode_alg.Run.{OwnerTransfer, RunState}
use opencode_alg.RunSchema.{issue_if, owner_issues, actor_differs, self_transfer, broken_chain}
use opencode_alg.Ownership.{
  Store, owns, Mutation, saved, locked, missing, not_owner, unsaved, saved_or, mutate_loaded,
  TransferResult, mutate_owned_run, hand_over, transferred, transfer_run_ownership,
}

abbrev hand : (current target : String) → OwnerTransfer
hand current target = record {
  from_session_id = current;
  to_session_id = target;
  by_session_id = current;
}

-- The chain goes on from its last owner to another session.
owner_issues-hand :
    (expected current target : String) (transfers : List OwnerTransfer)
    → (target == current) ≡ false
    → owner_issues expected current transfers ≡ []
    → owner_issues expected target (transfers ++ hand current target ∷ []) ≡ []
unfolding owner_issues
owner_issues-hand expected current target [] ne h =
    ground (arith, eq_refl current, eq_refl target, eq_iff current target, eq_iff target current)
owner_issues-hand expected current target (t ∷ transfers) ne h =
    let (actor, h1) =
      append-eq-nil (issue_if (not (t.by_session_id == t.from_session_id)) actor_differs) _ h in
    let (self, h2) =
      append-eq-nil (issue_if (t.from_session_id == t.to_session_id) self_transfer) _ h1 in
    let (chain, h3) =
      append-eq-nil (issue_if (not (t.from_session_id == expected)) broken_chain) _ h2 in
    let rest = owner_issues-hand t.to_session_id current target transfers ne h3 in
    rw (actor, self, chain) rest

-- How a change ends and what it leaves, under the state `held` that taking the lease gave.
module _ {W : Type 0} (store : Store W) (run_id session_id : String) (mutate : RunState → RunState)
    (held : W) where
  -- The loaded run is the session's own.
  abbrev pub Owned : RunState → Type 0
  Owned fresh =
      (store.load run_id session_id held ≡ some fresh) × (fresh.owner_session_id ≡ session_id)

  abbrev pub EndsUnder : Mutation → W → Type 0
  EndsUnder (saved run) w' =
      (fresh : RunState) × (written : W) × Owned fresh
      × (store.persist (mutate fresh) held ≡ (some run, written))
      × (w' ≡ store.release written)
  EndsUnder unsaved w' =
      (fresh : RunState) × (written : W) × Owned fresh
      × (store.persist (mutate fresh) held ≡ (none, written))
      × (w' ≡ store.release written)
  EndsUnder missing w' = (store.load run_id session_id held ≡ none) × (w' ≡ store.release held)
  EndsUnder not_owner w' =
      (fresh : RunState) × (store.load run_id session_id held ≡ some fresh)
      × (fresh.owner_session_id ≢ session_id)
      × (w' ≡ store.release held)
  EndsUnder locked w' = ⊥

  written-EndsUnder :
      (fresh : RunState)
      → Owned fresh
      → (r : Option RunState) (written : W) → store.persist (mutate fresh) held ≡ (r, written)
      → EndsUnder (saved_or r) (store.release written)
  written-EndsUnder fresh own none written e = (fresh, written, own, e, refl)
  written-EndsUnder fresh own (some run) written e = (fresh, written, own, e, refl)

  loaded-EndsUnder :
      (r : Option RunState)
      → store.load run_id session_id held ≡ r
      → let (ended, w') = mutate_loaded store session_id mutate r held in
        EndsUnder ended (store.release w')
  unfolding mutate_loaded owns
  loaded-EndsUnder none e = (e, refl)
  loaded-EndsUnder (some fresh) e =
      if_ind (λ (r : Mutation × W). EndsUnder r.0 (store.release r.1))
        (fresh.owner_session_id == session_id)
        (λ own.
          written-EndsUnder fresh (e, (eq_iff fresh.owner_session_id session_id).0 own)
            (store.persist (mutate fresh) held).0 (store.persist (mutate fresh) held).1 refl)
        (λ other. (
          fresh,
          e,
          (λ same. ground (arith, eq_iff fresh.owner_session_id session_id, same, other)),
          refl,
        ))

-- Without the lease nothing happens; with it, the run is loaded, compared and written in the states
-- that follow, and the lease is released.
abbrev pub IsFenced :
    {W : Type 0} (store : Store W) (run_id session_id : String) (mutate : RunState → RunState)
    → W
    → Mutation
    → W
    → Type 0
IsFenced {W = W} store run_id session_id mutate w ended w' =
    ((ended ≡ locked) × (store.acquire run_id session_id w ≡ none) × (w' ≡ w))
    ⊎ ((held : W) × (store.acquire run_id session_id w ≡ some held)
        × EndsUnder store run_id session_id mutate held ended w')

pub mutate_owned_run-IsFenced :
    {W : Type 0} (store : Store W) (run_id session_id : String) (mutate : RunState → RunState)
    (w : W)
    → let (ended, w') = mutate_owned_run store run_id session_id mutate w in
      IsFenced store run_id session_id mutate w ended w'
unfolding mutate_owned_run
mutate_owned_run-IsFenced store run_id session_id mutate w =
    elim (Option-cases (store.acquire run_id session_id w)) [
      | inl busy ↦ rw (busy, mutate_owned_run) (inl (refl, refl, refl))
      | inr (held, free) ↦
          rw (free, mutate_owned_run)
            (inr (
              held,
              refl,
              loaded-EndsUnder store run_id session_id mutate held
                  (store.load run_id session_id held) refl,
            ))
    ]

fenced-saved :
    {W : Type 0} (store : Store W) (run_id session_id : String) (mutate : RunState → RunState)
    (w held w' : W) (fresh run : RunState) (ended : Mutation)
    → store.acquire run_id session_id w ≡ some held
    → store.load run_id session_id held ≡ some fresh
    → IsFenced store run_id session_id mutate w ended w'
    → ended ≡ saved run
    → (fresh.owner_session_id ≡ session_id)
      × ((written : W) × (store.persist (mutate fresh) held ≡ (some run, written))
          × (w' ≡ store.release written))
fenced-saved store run_id session_id mutate w held w' fresh run ended taken loaded fenced is_saved =
    elim fenced [
      | inl (is_locked, refused, left) ↦
          let bad : locked ≡ saved run = sym is_locked ∙ is_saved in cc
      | inr (held', taken', ends) ↦
          let same : held' ≡ held = cc in
          let (read, written, (found, own), wrote, left) =
            subst (λ h. EndsUnder store run_id session_id mutate h (saved run) w') same
              (subst (λ m. EndsUnder store run_id session_id mutate held' m w') is_saved ends) in
          let one : read ≡ fresh = cc in
          (
            subst (λ (r : RunState). r.owner_session_id ≡ session_id) one own,
            (
              written,
              subst (λ r. store.persist (mutate r) held ≡ (some run, written)) one wrote,
              left,
            ),
          )
    ]

-- A transfer that is saved was asked for by the owner of the run that was loaded under the lease, and
-- names another session. Where the loaded run's chain of owners is in order, the chain of what is
-- written under the lease is in order too and ends with the new owner.
pub transfer_run_ownership-chain :
    {W : Type 0} (trim : String → String) (units : String → ℕ) (store : Store W)
    (run_id current new_session : String) (w held w' : W) (fresh run : RunState)
    → store.acquire run_id current w ≡ some held
    → store.load run_id current held ≡ some fresh
    → owner_issues fresh.parent_session_id fresh.owner_session_id fresh.owner_transfers ≡ []
    → transfer_run_ownership trim units store run_id current new_session w
      ≡ (transferred (saved run), w')
    → (fresh.owner_session_id ≡ current)
      × (trim new_session ≢ current)
      × ((written : W) × (store.persist (hand_over current (trim new_session) fresh) held
            ≡ (some run, written))
          × (w' ≡ store.release written))
      × (owner_issues
            (hand_over current (trim new_session) fresh).parent_session_id
            (trim new_session)
            (hand_over current (trim new_session) fresh).owner_transfers
          ≡ [])
unfolding transfer_run_ownership
transfer_run_ownership-chain {W} trim units store run_id current new_session w held w' fresh run
      taken loaded chain h =
    let target = trim new_session in
    let ended = mutate_owned_run store run_id current (hand_over current target) w in
    elim (Bool-cases (target == "" || ltb 256 (units target))) [
      | inl bad ↦ let wrong = rw (bad, transfer_run_ownership) at h in cc
      | inr good ↦ elim (Bool-cases (target == current)) [
        | inl same ↦ let wrong = rw (good, same, transfer_run_ownership) at h in cc
        | inr ne ↦
            let made : (transferred ended.0, ended.1) ≡ (transferred (saved run), w') =
              rw (good, ne, transfer_run_ownership) at h in
            let end : ended.1 ≡ w' = ap (λ (x : TransferResult × W). x.1) made in
            let same_end : ended.0 ≡ saved run = cc in
            let (own, wrote) =
              fenced-saved store run_id current (hand_over current target) w held w' fresh run
                ended.0 taken loaded
                (subst (IsFenced store run_id current (hand_over current target) w ended.0) end
                  (mutate_owned_run-IsFenced store run_id current (hand_over current target) w))
                same_end in
            (
              own,
              (λ e. ground (arith, eq_iff target current)),
              wrote,
              owner_issues-hand fresh.parent_session_id current target fresh.owner_transfers ne (
                  subst (λ o. owner_issues fresh.parent_session_id o fresh.owner_transfers ≡ []) own
                    chain),
            )
      ]
    ]
