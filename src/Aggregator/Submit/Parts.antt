-- ===== src/Aggregator/Submit/Parts.antt =====
-- A submission that is accepted, taken apart into the calls that `submit` makes.
use sc_chainlink_rs.Prelude.{
  ℕ, ◌≤◌, ◌<◌, ◌≡◌, true, some, List, length, arith, nat_eq, ◌==◌, Option-cases, inl, inr,
}
use sc_chainlink_rs.Framework.{ok, Env, Framework, >>=-eq-ok, require}
use sc_chainlink_rs.Framework.Map.{get}
use sc_chainlink_rs.Aggregator.State.{State, OracleStatus}
use sc_chainlink_rs.Aggregator.Reads.{validate_oracle_round, round_in_reach, previous_supersedable}
use sc_chainlink_rs.Aggregator.Rounds.{oracle_initialize_new_round}
use sc_chainlink_rs.Aggregator.Funds.{pay_oracle}
use sc_chainlink_rs.Aggregator.Submit.{
  validate_submission_limits, record_submission, update_round_answer, delete_round_details, submit,
}

-- What an accepted check of a round says.
pub record ValidParts (env : Env) (s : State) (oracle round_id : ℕ) : Type 0 where
  pub status : OracleStatus
  pub found : get oracle s.oracles ≡ some status
  pub enabled : 0 < status.starting_round
  pub begun : status.starting_round ≤ round_id
  pub allowed : round_id ≤ status.ending_round
  pub unreported : status.last_reported_round < round_id
  pub in_reach : round_in_reach s round_id ≡ ok true
  pub superseded : previous_supersedable env s round_id ≡ ok true

pub validate-parts :
    (env : Env) (s : State) (oracle round_id : ℕ)
    → validate_oracle_round env s oracle round_id ≡ ok tt
    → ValidParts env s oracle round_id
unfolding validate_oracle_round
validate-parts env s oracle round_id h = elim (Option-cases (get oracle s.oracles)) [
  | inl g ↦ ground arith
  | inr (status, g) ↦ record {
    status = status;
    found = g;
    enabled = ground arith;
    begun = ground arith;
    allowed = ground arith;
    unreported = ground arith;
    in_reach = ground arith;
    superseded = ground arith;
  }
]

pub record SubmitParts ⦃fw : Framework⦄ (env : Env) (s : State) (round_id : ℕ) (values : List ℕ)
    (t : State) : Type 0 where
  pub sized : length values ≡ s.values_count
  pub valid : validate_oracle_round env s env.caller round_id ≡ ok tt
  pub limited : validate_submission_limits s values ≡ ok tt
  pub opened : State
  pub recorded : State
  pub answered : State
  pub paid : State
  pub opens : oracle_initialize_new_round env s round_id ≡ ok opened
  pub records : record_submission env opened (record { values = values }) round_id ≡ ok recorded
  pub answers : update_round_answer env recorded round_id ≡ ok answered
  pub pays : pay_oracle env answered round_id ≡ ok paid
  pub deletes : t ≡ delete_round_details paid round_id

module _ ⦃fw : Framework⦄ where
  pub submit-parts :
      (env : Env) (s : State) (round_id : ℕ) (values : List ℕ) {t : State}
      → submit env s round_id values ≡ ok t
      → SubmitParts env s round_id values t
  unfolding submit
  submit-parts env s round_id values h =
      let (_, sized, h₁) = >>=-eq-ok (require (length values == s.values_count) _) _ h in
      let (_, valid, h₂) = >>=-eq-ok (validate_oracle_round env s env.caller round_id) _ h₁ in
      let (_, limited, h₃) = >>=-eq-ok (validate_submission_limits s values) _ h₂ in
      let (s₁, opens, h₄) = >>=-eq-ok (oracle_initialize_new_round env s round_id) _ h₃ in
      let (s₂, records, h₅) = >>=-eq-ok (record_submission env s₁ _ round_id) _ h₄ in
      let (s₃, answers, h₆) = >>=-eq-ok (update_round_answer env s₂ round_id) _ h₅ in
      let (s₄, pays, h₇) = >>=-eq-ok (pay_oracle env s₃ round_id) _ h₆ in
      record {
        sized = ground arith;
        valid = valid;
        limited = limited;
        opened = s₁;
        recorded = s₂;
        answered = s₃;
        paid = s₄;
        opens = opens;
        records = records;
        answers = answers;
        pays = pays;
        deletes = ground arith;
      }
