-- ===== src/Aggregator/Solvency/Endpoints.antt =====
-- What each endpoint of the Aggregator does to its books.
use sc_chainlink_rs.Prelude.{
  ℕ, ◌+◌, ◌-◌, ◌≡◌, List, arith, nat_eq, bytes_eq, Option-cases, inl, inr,
}
use sc_chainlink_rs.Framework.{ok, Env, Transfer, Framework, ◌-!◌, -!_eq-ok, Result-cases}
use sc_chainlink_rs.Framework.Map.{get, measure}
use sc_chainlink_rs.Framework.Map.Laws.{total-insert}
use sc_chainlink_rs.Aggregator.State.{State, OracleStatus, Funds}
use sc_chainlink_rs.Aggregator.Funds.{
  set_deposit, add_funds, withdraw_funds, withdraw_payment, pay_oracle,
}
use sc_chainlink_rs.Aggregator.Funds.Deposits.{set_deposit_total, subtract_amount-total}
use sc_chainlink_rs.Aggregator.Solvency.{IsFunded}
use sc_chainlink_rs.Aggregator.Solvency.Parts.{SameFunds}

-- From `s` to `t` the books stay in order, and the recorded funds change by what came in and what
-- went out.
pub record Books (s t : State) (inflow outflow : ℕ) : Type 0 where
  pub funded : IsFunded t
  pub token : t.token_id ≡ s.token_id
  pub moved :
      t.recorded_funds.available + t.recorded_funds.allocated + outflow
      ≡ s.recorded_funds.available + s.recorded_funds.allocated + inflow

pub SameFunds-Books : (s t : State) → SameFunds s t → IsFunded s → Books s t 0 0
SameFunds-Books s t same f = ground arith

-- A payment into the deposits.
pub add_funds-Books :
    (env : Env) (s : State) (payment : ℕ) (token : List ℕ) {t : State}
    → IsFunded s
    → add_funds env s payment token ≡ ok t
    → Books s t payment 0 × (token ≡ s.token_id)
unfolding add_funds set_deposit
add_funds-Books env s payment token f h = ground (
  arith,
  bytes_eq.beq_law token s.token_id,
  set_deposit_total s env.caller (measure (λ amount. amount) (get env.caller s.deposits) + payment)
      f.unique,
)

module _ ⦃fw : Framework⦄ where
  pub withdraw_funds-Books :
      (env : Env) (s : State) (amount : ℕ) {r : Transfer × State}
      → IsFunded s
      → withdraw_funds env s amount ≡ ok r
      → Books s r.1 0 amount × (r.0.amount ≡ amount) × (r.0.token ≡ s.token_id)
  unfolding withdraw_funds set_deposit
  withdraw_funds-Books env s amount f h =
      let deposit = measure (λ (a : ℕ). a) (get env.caller s.deposits) in
      ground (
        arith,
        set_deposit_total s env.caller (deposit - amount) f.unique,
        fw.sub_le s.recorded_funds.available amount,
        fw.sub_lt s.recorded_funds.available amount,
        fw.sub_le deposit amount,
      )

  pub withdraw_payment-Books :
      (env : Env) (s : State) (oracle recipient amount : ℕ) {r : Transfer × State}
      → IsFunded s
      → withdraw_payment env s oracle recipient amount ≡ ok r
      → Books s r.1 0 amount × (r.0.amount ≡ amount) × (r.0.token ≡ s.token_id)
  unfolding withdraw_payment
  withdraw_payment-Books env s oracle recipient amount f h =
      elim (Option-cases (get oracle s.oracles)) [
        | inl g ↦ ground arith
        | inr (old, g) ↦
            let new : OracleStatus = record old { withdrawable = old.withdrawable - amount } in
            ground (
              arith,
              total-insert (λ (status : OracleStatus). status.withdrawable) oracle new s.oracles,
              fw.sub_le s.recorded_funds.allocated amount,
              fw.sub_lt s.recorded_funds.allocated amount,
              fw.sub_le old.withdrawable amount,
            )
      ]

  -- the payment of one oracle, once its parts are known to end well
  pub pay_oracle-Books :
      (env : Env) (s : State) (round_id : ℕ) {t : State}
      → IsFunded s
      → pay_oracle env s round_id ≡ ok t
      → Books s t 0 0
  unfolding pay_oracle
  pay_oracle-Books env s round_id {t} f h = elim (Option-cases (get round_id s.details)) [
    | inl d ↦ ground arith
    | inr (details, d) ↦ elim (Option-cases (get env.caller s.oracles)) [
      | inl g ↦ ground arith
      | inr (old, g) ↦ elim (Result-cases (s.recorded_funds.available -! details.payment_amount)) [
        | inr (m, e) ↦ ground arith
        | inl (available, e) ↦
            let payment = details.payment_amount in
            let covers = -!_eq-ok s.recorded_funds.available payment e in
            let funds : Funds = record {
              available = available;
              allocated = s.recorded_funds.allocated + payment;
            } in
            let (m, run, unique, sum) =
              subtract_amount-total (record s { recorded_funds = funds }) payment f.unique
                (omega arith) in
            let new : OracleStatus = record old { withdrawable = old.withdrawable + payment } in
            ground (
              arith,
              total-insert (λ (status : OracleStatus). status.withdrawable) env.caller new
                  s.oracles,
            )
      ]
    ]
  ]
