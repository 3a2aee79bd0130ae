-- ===== src/Aggregator/Views.antt =====
-- The views of aggregator/src/lib.rs.
use sc_chainlink_rs.Prelude.{
  ℕ, Bool, true, false, ◌&&◌, not, Option, none, some, List, ltb, ◌==◌, nat_eq, if◌then◌else◌,
}
use sc_chainlink_rs.Framework.{Result, ok, ◌>>=◌, Env, Framework, add_u64, is_ok}
use sc_chainlink_rs.Framework.Map.{get, keys}
use sc_chainlink_rs.Aggregator.State.{State, Round, OracleStatus, OracleRoundState}
use sc_chainlink_rs.Aggregator.Reads.{
  get_round, get_round_details, get_oracle_status_result, oracle_count, accepting_submissions,
  delayed, supersedable, validate_oracle_round,
}
use sc_chainlink_rs.Aggregator.Funds.{get_deposit}

unfoldable pub allocated_funds : State → ℕ
allocated_funds s = s.recorded_funds.allocated

unfoldable pub available_funds : State → ℕ
available_funds s = s.recorded_funds.available

unfoldable pub get_round_data : State → ℕ → Option Round
get_round_data s round_id = get round_id s.rounds

unfoldable pub latest_round_data : State → Option Round
unfolding get_round_data
latest_round_data s = get_round_data s s.latest_round_id

unfoldable pub withdrawable_payment : State → ℕ → Result ℕ
unfolding get_oracle_status_result
withdrawable_payment s oracle = do
  oracle_status ← get_oracle_status_result s oracle
  ok (oracle_status.withdrawable)

unfoldable pub withdrawable_added_funds : Env → State → ℕ
unfolding get_deposit
withdrawable_added_funds env s = get_deposit s env.caller

unfoldable pub get_admin : State → ℕ → Result ℕ
unfolding get_oracle_status_result
get_admin s oracle = do oracle_status ← get_oracle_status_result s oracle; ok (oracle_status.admin)

unfoldable pub get_oracles : ⦃fw : Framework⦄ → State → List ℕ
get_oracles ⦃fw⦄ s = keys (fw.iter ℕ OracleStatus s.oracles)

unfoldable pub eligible_for_specific_round : Env → State → ℕ → ℕ → Result Bool
unfolding accepting_submissions delayed validate_oracle_round
eligible_for_specific_round env s oracle queried_round_id = do
  let valid = is_ok (validate_oracle_round env s oracle queried_round_id)
  let started : Bool = elim (get queried_round_id s.rounds) [
    | none ↦ false
    | some round ↦ ltb 0 round.started_at
  ]
  if started
      then (do accepting ← accepting_submissions s queried_round_id; ok (accepting && valid))
      else (do late ← delayed s oracle queried_round_id; ok (late && valid))

-- `round_id`, `payment_amount`, `eligible_to_submit` and `round.started_at` as the two branches of
-- `oracle_round_state_suggest_round` set them
pub record Suggestion : Type 0 where
  pub round_id : ℕ
  pub payment_amount : ℕ
  pub eligible_to_submit : Bool
  pub started_at : ℕ

-- the branch for a reporting round that should be superseded
unfoldable pub suggest_next : State → ℕ → ℕ → Result Suggestion
unfolding get_round delayed
suggest_next s oracle round_id = do
  round ← get_round s round_id
  eligible ← delayed s oracle round_id
  ok (record {
    round_id = round_id;
    payment_amount = s.payment_amount;
    eligible_to_submit = eligible;
    started_at = round.started_at;
  })

-- the branch for the reporting round itself
unfoldable pub suggest_current : State → ℕ → Result Suggestion
unfolding get_round get_round_details accepting_submissions
suggest_current s round_id = do
  round ← get_round s round_id
  round_details ← get_round_details s round_id
  accepting ← accepting_submissions s round_id
  ok (record {
    round_id = round_id;
    payment_amount = round_details.payment_amount;
    eligible_to_submit = accepting;
    started_at = round.started_at;
  })

unfoldable pub oracle_round_state_suggest_round : Env → State → ℕ → Result OracleRoundState
unfolding get_oracle_status_result accepting_submissions supersedable suggest_next suggest_current
    validate_oracle_round get_round_details oracle_count
oracle_round_state_suggest_round env s oracle = do
  oracle_status ← get_oracle_status_result s oracle
  let reporting = s.reporting_round_id
  should_supersede ←
      if oracle_status.last_reported_round == reporting
      then ok true
      else (do accepting ← accepting_submissions s reporting; ok (not accepting))
  can_supersede ← supersedable env s reporting
  suggestion ←
      if can_supersede && should_supersede
      then suggest_next s oracle (add_u64 reporting 1)
      else suggest_current s reporting
  let valid = is_ok (validate_oracle_round env s oracle suggestion.round_id)
  round_details ← get_round_details s suggestion.round_id
  ok (record {
    eligible_to_submit = valid && suggestion.eligible_to_submit;
    round_id = suggestion.round_id;
    latest_submission = oracle_status.latest_submission;
    started_at = suggestion.started_at;
    timeout = round_details.timeout;
    available_funds = s.recorded_funds.available;
    oracle_count = oracle_count s;
    payment_amount = suggestion.payment_amount;
  })

-- `oracleRoundState`
unfoldable pub oracle_round_state : Env → State → ℕ → ℕ → Result OracleRoundState
unfolding oracle_round_state_suggest_round eligible_for_specific_round get_round get_round_details
    get_oracle_status_result oracle_count
oracle_round_state env s oracle queried_round_id =
    if queried_round_id == 0 then oracle_round_state_suggest_round env s oracle else (do
      eligible ← eligible_for_specific_round env s oracle queried_round_id
      round ← get_round s queried_round_id
      details ← get_round_details s queried_round_id
      oracle_status ← get_oracle_status_result s oracle
      ok (record {
        eligible_to_submit = eligible;
        round_id = queried_round_id;
        latest_submission = oracle_status.latest_submission;
        started_at = round.started_at;
        timeout = details.timeout;
        available_funds = s.recorded_funds.available;
        oracle_count = oracle_count s;
        payment_amount =
            if ltb 0 round.started_at then details.payment_amount else s.payment_amount;
      }))
