-- ===== src/Tests/Calls.antt =====
-- Sequences of calls to the Aggregator at concrete inputs: the books and the wedged contract.
use sc_chainlink_rs.Prelude.{
  All, List, ◌≢◌, ◌==◌, if◌then◌else◌, ℕ, true, ◌≡◌, refl, false, [], ◌∷◌, some, nat_eq, bytes_eq,
  arith, codes,
}
use sc_chainlink_rs.Framework.{Holdings, credit, Env, Transfer, Result, ok, err, is_ok}
use sc_chainlink_rs.Framework.Holdings.{carry_out, sent}
use sc_chainlink_rs.Framework.Map.{get}
use sc_chainlink_rs.Aggregator.State.{State, blank}
use sc_chainlink_rs.Aggregator.Reads.{timed_out}
use sc_chainlink_rs.Aggregator.Rounds.{requester_initialize_new_round, request_new_round}
use sc_chainlink_rs.Aggregator.Funds.{add_funds, withdraw_payment}
use sc_chainlink_rs.Aggregator.Submit.{submit}
use sc_chainlink_rs.Aggregator.Admin.{
  update_future_rounds_internal, init, change_oracles, remove_oracles, add_oracles,
}
use sc_chainlink_rs.Aggregator.Views.{latest_round_data}
use sc_chainlink_rs.Aggregator.Calls.{
  paid_in, withdraw_payment_call, Outcome, add_funds_call, submit_call, perform, accept, here, next,
}
use sc_chainlink_rs.Aggregator.Deadlock.{IsWedged, submit_wedged, request_new_round_wedged}
use sc_chainlink_rs.Aggregator.Deadlock.Timeout.{timed_out_request-refuses}
use sc_chainlink_rs.Aggregator.Deadlock.Forever.{Reach-IsWedged}
use sc_chainlink_rs.Aggregator.Solvency.{IsFunded}
use sc_chainlink_rs.Aggregator.Solvency.Withdrawals.{IsEntitled, transfers-IsEntitled}
use sc_chainlink_rs.Aggregator.Solvency.Removal.{removed-forfeits}
use sc_chainlink_rs.Aggregator.Solvency.Endpoints.{Books}
use sc_chainlink_rs.Aggregator.Solvency.World.{
  carry_out-solvent, perform-Books, IsSolvent, deployed-IsSolvent,
}
use sc_chainlink_rs.Tests.Aggregator.{
  program, owner_env, oracle_env, ready, value, submitted, round_zero, details_zero,
}
use sc_chainlink_rs.Tests.Setting.{plain_framework}

ready-IsFunded : IsFunded ready
unfolding get
ready-IsFunded = record { unique = (refl, tt); covered = refl; allotted = omega arith }

submit_outcome :
    perform oracle_env ready (submit_call 1 (60 ∷ []))
    ≡ ok (record { state = submitted; transfers = [] })
unfolding perform program
submit_outcome = refl

perform-Books_example :
    Books ready submitted 0 0
    × ((other : List ℕ)
        → other ≢ []
        → (paid_in (submit_call 1 (60 ∷ [])) other ≡ 0) × (sent [] other ≡ 0))
perform-Books_example =
    perform-Books oracle_env ready (submit_call 1 (60 ∷ [])) ready-IsFunded submit_outcome

abbrev deployed : Result State
deployed = init owner_env (codes "LINK") 5 10 50 100 2 (codes "EGLD/USD") 1

deployed_run : deployed ≡ ok (value deployed)
unfolding program init update_future_rounds_internal
deployed_run = refl

abbrev funded : State
funded = value (add_funds owner_env (value deployed) 30 (codes "LINK"))

funded_run :
    perform owner_env (value deployed) (add_funds_call 30 (codes "LINK"))
    ≡ ok (record { state = funded; transfers = [] })
unfolding perform program init update_future_rounds_internal
funded_run = refl

funded_carried :
    carry_out (credit (λ any. 0) (codes "LINK") 30) [] ≡ ok (credit (λ any. 0) (codes "LINK") 30)
unfolding carry_out
funded_carried = refl

deployed-IsSolvent_example :
    IsSolvent (record { held = credit (λ any. 0) (codes "LINK") 30; state = funded })
deployed-IsSolvent_example =
    deployed-IsSolvent owner_env (codes "LINK") 5 10 50 100 2 (codes "EGLD/USD") 1 deployed_run (
      next here (
        accept owner_env (add_funds_call 30 (codes "LINK"))
          (record { state = funded; transfers = [] }) (credit (λ any. 0) (codes "LINK") 30)
          funded_run funded_carried))

submitted-IsWedged : IsWedged submitted
unfolding program
submitted-IsWedged = record {
  started = omega arith;
  bounded = omega arith;
  round = record round_zero {
    round_id = 1;
    decimals = 0;
    answer = some (record { values = 60 ∷ [] });
    started_at = 500;
    updated_at = 500;
    answered_in_round = 1;
  };
  found = refl;
  updated = omega arith;
  undetailed = refl;
}

submit_wedged_example : is_ok (submit owner_env submitted 2 (70 ∷ [])) ≡ false
submit_wedged_example = submit_wedged owner_env submitted 2 (70 ∷ []) submitted-IsWedged

request_new_round_wedged_example : is_ok (request_new_round owner_env submitted) ≡ false
request_new_round_wedged_example = request_new_round_wedged owner_env submitted submitted-IsWedged

abbrev refunded : State
refunded = value (add_funds owner_env submitted 30 [])

refunded_run :
    perform owner_env submitted (add_funds_call 30 [])
    ≡ ok (record { state = refunded; transfers = [] })
unfolding perform program
refunded_run = refl

refunded_carried : carry_out (credit (λ any. 100) [] 30) [] ≡ ok (credit (λ any. 100) [] 30)
unfolding carry_out
refunded_carried = refl

-- 100 of the token of the contract, and nothing else
abbrev only_own : Holdings
only_own token = if token == [] then 100 else 0

other_own : (other : List ℕ) → other ≢ [] → only_own other ≡ 0
other_own [] differs = absurd (differs refl)
other_own (c ∷ cs) differs = refl

abbrev outcome_state : Result Outcome → State
outcome_state (ok o) = o.state
outcome_state (err e) = blank

Reach-IsWedged_example :
    IsWedged refunded × (latest_round_data refunded ≡ latest_round_data submitted)
Reach-IsWedged_example =
    Reach-IsWedged {w = record { held = λ any. 100; state = submitted }} submitted-IsWedged (
      next here (
        accept owner_env (add_funds_call 30 []) (record { state = refunded; transfers = [] })
          (credit (λ any. 100) [] 30) refunded_run refunded_carried))

-- the admin of the oracle withdraws its reward
abbrev admin_env : Env
admin_env = record owner_env { caller = 3 }

abbrev rewarded : Transfer
rewarded = record { to = 7; token = []; amount = 5; message = [] }

abbrev withdrawn : State
withdrawn = outcome_state (perform admin_env submitted (withdraw_payment_call 2 7 5))

withdrawn_run :
    perform admin_env submitted (withdraw_payment_call 2 7 5)
    ≡ ok (record { state = withdrawn; transfers = rewarded ∷ [] })
unfolding perform program withdraw_payment
withdrawn_run = refl

submitted-IsSolvent : IsSolvent (record { held = only_own; state = submitted })
unfolding program
submitted-IsSolvent = record {
  funded = record { unique = (refl, tt); covered = refl; allotted = omega arith };
  backed = refl;
  nothing_else = λ other differs. other_own other differs;
}

carry_out-solvent_example : (left : Holdings) × (carry_out only_own (rewarded ∷ []) ≡ ok left)
carry_out-solvent_example =
    carry_out-solvent (record { held = only_own; state = submitted }) admin_env
      (withdraw_payment_call 2 7 5) submitted-IsSolvent withdrawn_run

-- round 1 was started at 400 and timed out at 410
abbrev overdue : State
overdue = record ready {
  reporting_round_id = 1;
  rounds = (0, round_zero) ∷ (1, record round_zero { round_id = 1 }) ∷ [];
  details =
      (1, record details_zero { timeout = 10; max_submissions = 2; min_submissions = 2 }) ∷ [];
  requesters = (1, record { authorized = true; delay = 0; last_started_round = 0 }) ∷ [];
}

abbrev reopened : Result (ℕ × State)
reopened = request_new_round owner_env overdue

abbrev new_state : Result (ℕ × State) → State
new_state (ok r) = r.1
new_state (err e) = blank

reopened_run : request_new_round owner_env overdue ≡ ok (2, new_state reopened)
unfolding program request_new_round requester_initialize_new_round
reopened_run = refl

overdue_late : timed_out owner_env overdue 1 ≡ ok true
unfolding timed_out get
overdue_late = refl

timed_out_request-refuses_example :
    is_ok (submit oracle_env (new_state reopened) 2 (60 ∷ [])) ≡ false
timed_out_request-refuses_example =
    timed_out_request-refuses owner_env oracle_env overdue (60 ∷ []) (omega arith) (omega arith)
      overdue_late reopened_run

-- The only oracle is removed while it has a reward of 5.
abbrev emptied : State
emptied = value (change_oracles owner_env submitted (8 ∷ 2 ∷ []) [] [] 0 0 0)

emptied_run : change_oracles owner_env submitted (8 ∷ 2 ∷ []) [] [] 0 0 0 ≡ ok emptied
unfolding program change_oracles remove_oracles add_oracles update_future_rounds_internal
emptied_run = refl

removed-forfeits_example :
    (emptied.recorded_funds ≡ submitted.recorded_funds)
    × (is_ok (withdraw_payment owner_env emptied 2 1 5) ≡ false)
removed-forfeits_example =
    removed-forfeits owner_env owner_env submitted 2 (8 ∷ []) [] [] [] 0 0 0 1 5 tt emptied_run

transfers-IsEntitled_example :
    All (IsEntitled admin_env submitted (withdraw_payment_call 2 7 5) withdrawn) (rewarded ∷ [])
transfers-IsEntitled_example =
    transfers-IsEntitled admin_env submitted (withdraw_payment_call 2 7 5) withdrawn_run
