-- ===== src/Examples/Runs.antt =====
-- Runs of the small graph: execution, resumption, closing, the stored rules, ownership.
use opencode_alg.Base.{
  ℕ, suc, String, true, ◌≡◌, ◌≢◌, refl, some, [], inl, inr, lookup, has, values, modify, arith,
}
use opencode_alg.Run.{RunState, max_attempts}
use opencode_alg.Graph.{broken_dependency}
use opencode_alg.Graph.Order.{IsOrdered}
use opencode_alg.Executor.Services.{World}
use opencode_alg.Executor.Verdict.{EndsHeld, execute_run-EndsHeld}
use opencode_alg.RunSchema.Verdict.{execute_run-verdict_issues}
use opencode_alg.Executor.Loop.{finish, started, run_started, execute_run}
use opencode_alg.Executor.Resume.{CloseResult, closed, close_run, prepare_run_for_resume}
use opencode_alg.Executor.Budget.{ledger, total, IsBudgeted}
use opencode_alg.Executor.Budget.Execution.{EndsKept, execute_run-EndsKept}
use opencode_alg.Executor.Budget.Resuming.{prepare_run_for_resume-IsBudgeted}
use opencode_alg.RunSchema.{verdict_issues, Checkers, run_issues, owner_issues}
use opencode_alg.RunSchema.Counts.{run_issues-IsBudgeted}
use opencode_alg.RunSchema.Closing.{close_run-refused}
use opencode_alg.Ownership.{Store, saved, transferred, transfer_run_ownership, hand_over}
use opencode_alg.Ownership.Transfer.{transfer_run_ownership-chain}
use opencode_alg.Examples.Samples.{
  build, pair, fresh_run, reopened_run, reopened_build, plain_services, plain_world, dry_options,
}

pair-IsOrdered : IsOrdered [] pair.nodes
unfolding has
pair-IsOrdered = (refl, tt, (refl, (refl, tt), tt))

fresh-IsBudgeted : IsBudgeted fresh_run
unfolding ledger total max_attempts
fresh-IsBudgeted = record {
  distinct = ((refl, tt), (tt, tt));
  within = (
    (refl, (inr (omega arith), (inl refl, tt))),
    ((refl, (inl refl, (inr (omega arith), tt))), tt),
  );
  summed = refl;
  capped = omega arith;
}

execute_run-EndsKept_example :
    EndsKept pair (run_started plain_services plain_world dry_options fresh_run)
unfolding execute_run lookup
execute_run-EndsKept_example =
    execute_run-EndsKept plain_services plain_world dry_options "owner" fresh_run pair-IsOrdered
      fresh-IsBudgeted (run_started plain_services plain_world dry_options fresh_run) refl

-- Every output is accepted, and equality is not asked for.
abbrev plain_checkers : Checkers
plain_checkers = record {
  output_ok = λ agent output. true;
  deep_equal = λ a b. true;
  attempt_ok = λ d position attempt. true;
}

run_issues-IsBudgeted_example : IsBudgeted fresh_run
unfolding run_issues ledger has lookup
run_issues-IsBudgeted_example =
    run_issues-IsBudgeted plain_checkers fresh_run pair-IsOrdered ((refl, tt), (tt, tt)) refl

abbrev keep : String → String
keep text = text

unfoldable closed_of : CloseResult keep → RunState
closed_of (closed run) = run
closed_of _ = reopened_run

-- The reopened run, closed.
unfoldable closed_run : RunState
unfolding close_run closed_of
closed_run = closed_of (close_run keep reopened_run "over")

close_run-refused_example : run_issues plain_checkers closed_run ≢ []
unfolding lookup close_run closed_run values modify
close_run-refused_example =
    close_run-refused plain_checkers keep reopened_run closed_run "over" build reopened_build
      pair-IsOrdered refl (inl refl) refl refl refl tt

-- A project with the fresh run; its state counts the leases taken, the writes and the releases.
abbrev plain_store : Store (ℕ × ℕ × ℕ)
plain_store = record {
  acquire = λ run_id session_id (taken, writes, released). some (suc taken, writes, released);
  latest = λ session_id w. some fresh_run;
  load = λ run_id session_id w. some fresh_run;
  persist = λ run (taken, writes, released). (some run, (taken, suc writes, released));
  release = λ (taken, writes, released). (taken, writes, suc released);
}

transfer_once :
    transfer_run_ownership keep (λ text. 5) plain_store "run-1" "owner" "other" (0, 0, 0)
    ≡ (transferred (saved (hand_over "owner" "other" fresh_run)), (1, 1, 1))
unfolding transfer_run_ownership
transfer_once = refl

transfer_run_ownership-chain_example :
    (fresh_run.owner_session_id ≡ "owner")
    × (keep "other" ≢ "owner")
    × ((written : ℕ × ℕ × ℕ) × (plain_store.persist (hand_over "owner" "other" fresh_run) (1, 0, 0)
          ≡ (some (hand_over "owner" "other" fresh_run), written))
        × ((1, 1, 1) ≡ plain_store.release written))
    × (owner_issues "owner" "other" (hand_over "owner" "other" fresh_run).owner_transfers ≡ [])
unfolding owner_issues
transfer_run_ownership-chain_example =
    transfer_run_ownership-chain keep (λ text. 5) plain_store "run-1" "owner" "other" (0, 0, 0)
      (1, 0, 0) (1, 1, 1) fresh_run (hand_over "owner" "other" fresh_run) refl refl refl
      transfer_once

reopened-IsBudgeted : IsBudgeted reopened_run
unfolding ledger total max_attempts
reopened-IsBudgeted = record {
  distinct = ((refl, tt), (tt, tt));
  within = (
    (refl, (inr (omega arith), (inl refl, tt))),
    ((refl, (inl refl, (inr (omega arith), tt))), tt),
  );
  summed = refl;
  capped = omega arith;
}

prepare_run_for_resume-IsBudgeted_example : IsBudgeted (prepare_run_for_resume keep reopened_run)
prepare_run_for_resume-IsBudgeted_example =
    prepare_run_for_resume-IsBudgeted keep reopened_run reopened-IsBudgeted

execute_run-EndsHeld_example :
    EndsHeld (run_started plain_services plain_world dry_options fresh_run)
unfolding execute_run lookup
execute_run-EndsHeld_example =
    execute_run-EndsHeld plain_services plain_world dry_options "owner" fresh_run
      (run_started plain_services plain_world dry_options fresh_run) refl

-- The signal is set before the first wave.
abbrev halted_world : World
halted_world = record plain_world { aborted_wave = λ wave. true }

abbrev halted_run : RunState
halted_run =
    finish plain_services halted_world dry_options
      (started plain_services halted_world dry_options fresh_run)

execute_run-verdict_issues_example : verdict_issues halted_run ≡ []
unfolding execute_run lookup values broken_dependency
execute_run-verdict_issues_example =
    execute_run-verdict_issues plain_services halted_world dry_options "owner" fresh_run halted_run
      refl refl
