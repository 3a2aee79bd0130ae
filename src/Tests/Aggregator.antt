-- ===== src/Tests/Aggregator.antt =====
-- The Aggregator at concrete states: an oracle whose submission fills the round, and an open round.
use sc_chainlink_rs.Prelude.{◌≤◌, ◌<◌, some, ◌≡◌, refl, false, [], ◌∷◌, none, nat_eq, arith}
use sc_chainlink_rs.Framework.{Result, ok, err, Env, is_ok}
use sc_chainlink_rs.Framework.Map.{get, insert, remove}
use sc_chainlink_rs.Median.{calculate_submission_median}
use sc_chainlink_rs.Aggregator.State.{State, Round, RoundDetails, blank}
use sc_chainlink_rs.Aggregator.Reads.{
  validate_oracle_round, round_in_reach, previous_supersedable, supersedable, timed_out,
}
use sc_chainlink_rs.Aggregator.Rounds.{
  fresh_details, update_timed_out_round_info, initialize_new_round, oracle_initialize_new_round,
  carry_over,
}
use sc_chainlink_rs.Aggregator.Funds.{
  add_funds, set_deposit, set_deposits, final_amounts, subtract_amount_from_deposits, pay_oracle,
}
use sc_chainlink_rs.Aggregator.Submit.{
  validate_submission_limits, record_submission, update_round_answer, delete_round_details, submit,
}
use sc_chainlink_rs.Aggregator.Submit.Answer.{Answered, submit-Answered}
use sc_chainlink_rs.Aggregator.Submit.Effects.{SubmitEffects, submit-SubmitEffects, submit_once}
use sc_chainlink_rs.Aggregator.Admin.{new_oracle}
use sc_chainlink_rs.Aggregator.Deadlock.{IsWedged}
use sc_chainlink_rs.Aggregator.Deadlock.Causes.{IsTimed, filled-IsWedged}
use sc_chainlink_rs.Tests.Setting.{plain_framework}

unfoldable pub program : Unit {0}
unfolding get insert remove calculate_submission_median validate_oracle_round round_in_reach
    previous_supersedable supersedable timed_out update_timed_out_round_info initialize_new_round
    oracle_initialize_new_round set_deposit set_deposits final_amounts subtract_amount_from_deposits
    pay_oracle validate_submission_limits record_submission update_round_answer delete_round_details
    submit add_funds carry_over
program = tt

abbrev pub owner_env : Env
owner_env = record { caller = 1; owner = 1; sc_address = 9; block_timestamp = 500 }

abbrev pub oracle_env : Env
oracle_env = record { caller = 2; owner = 1; sc_address = 9; block_timestamp = 500 }

abbrev pub round_zero : Round
round_zero = record {
  round_id = 0;
  answer = none;
  decimals = 1;
  description = [];
  started_at = 400;
  updated_at = 400;
  answered_in_round = 0;
}

abbrev pub details_zero : RoundDetails
details_zero = record {
  submissions = [];
  max_submissions = 0;
  min_submissions = 0;
  timeout = 1000;
  payment_amount = 5;
}

abbrev ongoing_details : RoundDetails
ongoing_details = record details_zero {
  submissions = record { values = 70 ∷ [] } ∷ [];
  max_submissions = 3;
  min_submissions = 2;
}

-- one oracle, whose single submission answers and fills a round
abbrev pub ready : State
ready = record blank {
  payment_amount = 5;
  max_submission_count = 1;
  min_submission_count = 1;
  timeout = 1000;
  min_submission_value = 50;
  max_submission_value = 100;
  oracles = (2, new_oracle 1 3) ∷ [];
  rounds = (0, round_zero) ∷ [];
  details = (0, details_zero) ∷ [];
  recorded_funds = record { available = 100; allocated = 0 };
  deposits = (1, 100) ∷ [];
  values_count = 1;
}

abbrev pub value : Result State → State
value (ok s) = s
value (err e) = blank

abbrev pub submitted : State
submitted = value (submit oracle_env ready 1 (60 ∷ []))

pub submitted_run : submit oracle_env ready 1 (60 ∷ []) ≡ ok submitted
unfolding program
submitted_run = refl

submitted_funds : submitted.recorded_funds ≡ record { available = 95; allocated = 5 }
unfolding program
submitted_funds = refl

submitted_undetailed : get 1 submitted.details ≡ none
unfolding program
submitted_undetailed = refl

submit-SubmitEffects_example : SubmitEffects oracle_env ready 1 (60 ∷ []) submitted
submit-SubmitEffects_example = submit-SubmitEffects oracle_env ready 1 (60 ∷ []) submitted_run

submit_once_example : is_ok (submit oracle_env submitted 1 (70 ∷ [])) ≡ false
submit_once_example =
    submit_once oracle_env oracle_env ready 1 1 (60 ∷ []) (70 ∷ []) submitted_run refl (omega arith)

ready-IsTimed : IsTimed ready
unfolding program
ready-IsTimed = record {
  round = round_zero;
  found = refl;
  updated = omega arith;
  bounded = omega arith;
  unopened = refl;
}

ready_status : get 2 ready.oracles ≡ some (new_oracle 1 3)
unfolding get
ready_status = refl

filled-IsWedged_example :
    (1 ≤ 1 → IsWedged submitted)
    × (1 < 1
        → get 1 submitted.details
          ≡ some (record (fresh_details ready) { submissions = record { values = 60 ∷ [] } ∷ [] }))
filled-IsWedged_example =
    filled-IsWedged oracle_env ready 1 (60 ∷ []) (new_oracle 1 3) (fresh_details ready)
      ready-IsTimed (omega arith) ready_status refl submitted_run

-- round 1 is open with one submission of another oracle
abbrev ongoing : State
ongoing = record ready {
  reporting_round_id = 1;
  max_submission_count = 2;
  rounds = (0, round_zero) ∷ (1, record round_zero { round_id = 1 }) ∷ [];
  details = (1, ongoing_details) ∷ [];
}

abbrev answered : State
answered = value (submit oracle_env ongoing 1 (60 ∷ []))

answered_run : submit oracle_env ongoing 1 (60 ∷ []) ≡ ok answered
unfolding program
answered_run = refl

ongoing_found : get 1 ongoing.details ≡ some ongoing_details
unfolding get
ongoing_found = refl

submit-Answered_example :
    (2 ≤ 2
      → Answered oracle_env 1
          (record { values = 70 ∷ [] } ∷ record { values = 60 ∷ [] } ∷ [])
          answered)
    × (2 < 2
        → (answered.rounds ≡ ongoing.rounds) × (answered.latest_round_id ≡ ongoing.latest_round_id))
submit-Answered_example =
    submit-Answered oracle_env ongoing 1 (60 ∷ []) ongoing_details (omega arith) ongoing_found
      answered_run
