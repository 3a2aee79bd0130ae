-- ===== src/Aggregator/Submit.antt =====
-- The submission of values for a round: `submit` of aggregator/src/lib.rs and its parts.
pub mod Parts
pub mod Payment
pub mod Changes
pub mod Effects
pub mod Details
pub mod Answer
use sc_chainlink_rs.Prelude.{
  ℕ, List, [], ◌∷◌, ◌++◌, none, some, ltb, leb, ◌==◌, nat_eq, length, if◌then◌else◌,
}
use sc_chainlink_rs.Framework.{Result, ok, ◌>>=◌, ◌>>◌, require, Env, Framework}
use sc_chainlink_rs.Framework.Map.{get, insert, remove}
use sc_chainlink_rs.Median.{Submission, calculate_submission_median}
use sc_chainlink_rs.Aggregator.State.{State}
use sc_chainlink_rs.Aggregator.Reads.{
  get_round, get_round_details, get_oracle_status_result, accepting_submissions,
  validate_oracle_round,
}
use sc_chainlink_rs.Aggregator.Rounds.{oracle_initialize_new_round}
use sc_chainlink_rs.Aggregator.Funds.{pay_oracle}

unfoldable pub validate_submission_limits : State → List ℕ → Result (Unit {0})
validate_submission_limits s [] = ok tt
validate_submission_limits s (value ∷ rest) = do
  require (leb s.min_submission_value value) "value below min_submission_value"
  require (leb value s.max_submission_value) "value above max_submission_value"
  validate_submission_limits s rest

unfoldable pub record_submission : Env → State → Submission → ℕ → Result State
unfolding accepting_submissions get_round_details get_oracle_status_result
record_submission env s submission round_id = do
  accepting ← accepting_submissions s round_id
  require accepting "round not accepting submissions"
  round_details ← get_round_details s round_id
  oracle_status ← get_oracle_status_result s env.caller
  let submissions = round_details.submissions ++ submission ∷ []
  ok (record s {
    details = insert round_id (record round_details { submissions = submissions }) s.details;
    oracles =
        insert env.caller
          (record oracle_status {
            last_reported_round = round_id;
            latest_submission = some submission;
          })
          s.oracles;
  })

unfoldable pub update_round_answer : Env → State → ℕ → Result State
unfolding get_round get_round_details
update_round_answer env s round_id = do
  details ← get_round_details s round_id
  if ltb (length details.submissions) details.min_submissions then ok s else (do
    new_answer ← calculate_submission_median details.submissions
    round ← get_round s round_id
    let answered = record round {
      answer = new_answer;
      updated_at = env.block_timestamp;
      answered_in_round = round_id;
    }
    ok (record s { rounds = insert round_id answered s.rounds; latest_round_id = round_id }))

-- The details of a round are dropped once it has all of its submissions.
unfoldable pub delete_round_details : State → ℕ → State
delete_round_details s round_id = elim (get round_id s.details) [
  | none ↦ record s { details = remove round_id s.details }
  | some details ↦
      if ltb (length details.submissions) details.max_submissions
      then s
      else record s { details = remove round_id s.details }
]

-- `submit`
unfoldable pub submit : ⦃fw : Framework⦄ → Env → State → ℕ → List ℕ → Result State
submit env s round_id values = do
  require (length values == s.values_count) "incorrect number of values in submission"
  validate_oracle_round env s env.caller round_id
  validate_submission_limits s values
  s₁ ← oracle_initialize_new_round env s round_id
  s₂ ← record_submission env s₁ (record { values = values }) round_id
  s₃ ← update_round_answer env s₂ round_id
  s₄ ← pay_oracle env s₃ round_id
  ok (delete_round_details s₄ round_id)
