-- ===== src/Aggregator/Submit/Payment.antt =====
-- What the payment of an oracle writes.
use sc_chainlink_rs.Prelude.{ℕ, ◌+◌, ◌≡◌, some, arith, nat_eq, Option-cases, inl, inr}
use sc_chainlink_rs.Framework.{ok, Env, Framework, Result-cases, ◌-!◌, -!_eq-ok}
use sc_chainlink_rs.Framework.Map.{get, insert}
use sc_chainlink_rs.Aggregator.State.{State, OracleStatus, RoundDetails, Funds}
use sc_chainlink_rs.Aggregator.Funds.{pay_oracle, subtract_amount_from_deposits}
use sc_chainlink_rs.Aggregator.Funds.Deposits.{subtract_amount-rest}

-- The payment of the round moves from the available to the allocated funds and to the caller's
-- rewards; besides these only the deposits change.
pub record PayParts (env : Env) (s : State) (round_id : ℕ) (t : State) : Type 0 where
  pub details : RoundDetails
  pub detailed : get round_id s.details ≡ some details
  pub status : OracleStatus
  pub found : get env.caller s.oracles ≡ some status
  pub available : t.recorded_funds.available + details.payment_amount ≡ s.recorded_funds.available
  pub allocated : t.recorded_funds.allocated ≡ s.recorded_funds.allocated + details.payment_amount
  pub writes : t ≡ record s {
    recorded_funds = t.recorded_funds;
    deposits = t.deposits;
    oracles =
        insert env.caller
          (record status { withdrawable = status.withdrawable + details.payment_amount })
          s.oracles;
  }

module _ ⦃fw : Framework⦄ where
  pub pay_oracle-parts :
      (env : Env) (s : State) (round_id : ℕ) {t : State}
      → pay_oracle env s round_id ≡ ok t
      → PayParts env s round_id t
  unfolding pay_oracle
  pay_oracle-parts env s round_id {t} h = elim (Option-cases (get round_id s.details)) [
    | inl d ↦ absurd (ground arith)
    | inr (details, d) ↦ elim (Option-cases (get env.caller s.oracles)) [
      | inl g ↦ absurd (ground arith)
      | inr (old, g) ↦ elim (Result-cases (s.recorded_funds.available -! details.payment_amount)) [
        | inr (m, e) ↦ absurd (ground arith)
        | inl (available, e) ↦
            let payment = details.payment_amount in
            let funds : Funds = record {
              available = available;
              allocated = s.recorded_funds.allocated + payment;
            } in
            elim (Result-cases
              (subtract_amount_from_deposits (record s { recorded_funds = funds }) payment)) [
                | inr (m, e') ↦ absurd (ground arith)
                | inl (s', e') ↦
                    let rest =
                      subtract_amount-rest (record s { recorded_funds = funds }) payment e' in
                    let covers = -!_eq-ok s.recorded_funds.available payment e in
                    record {
                      details = details;
                      detailed = d;
                      status = old;
                      found = g;
                      available = ground arith;
                      allocated = ground arith;
                      writes = ground arith;
                    }
              ]
      ]
    ]
  ]
