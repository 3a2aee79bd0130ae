-- ===== src/Aggregator/Funds.antt =====
-- The funds of the Aggregator: deposits, their withdrawal, and what an oracle is paid out of them
-- (`add_funds` to `set_deposit`, `withdraw_funds`, `withdraw_payment`,
-- `subtract_amount_from_deposits` and `pay_oracle` of aggregator/src/lib.rs).
pub mod Deposits
use sc_chainlink_rs.Prelude.{
  ℕ, ◌+◌, List, [], ◌∷◌, leb, ◌==◌, nat_eq, bytes_eq, if◌then◌else◌, codes,
}
use sc_chainlink_rs.Framework.{Result, ok, ◌>>=◌, ◌>>◌, require, Env, Transfer, Framework, ◌-!◌}
use sc_chainlink_rs.Framework.Map.{get, insert, remove, measure}
use sc_chainlink_rs.Aggregator.State.{State, Funds}
use sc_chainlink_rs.Aggregator.Reads.{get_round_details, get_oracle_status_result, required_reserve}

unfoldable pub get_deposit : State → ℕ → ℕ
get_deposit s address = measure (λ amount. amount) (get address s.deposits)

unfoldable pub set_deposit : State → ℕ → ℕ → State
set_deposit s address amount = record s {
  deposits = if amount == 0 then remove address s.deposits else insert address amount s.deposits;
}

-- `addFunds`
unfoldable pub add_funds : Env → State → ℕ → List ℕ → Result State
unfolding get_deposit
add_funds env s payment token = do
  require (token == s.token_id) "Wrong token type"
  let funded = record s {
    recorded_funds = record (s.recorded_funds) { available = s.recorded_funds.available + payment };
  }
  ok (set_deposit funded env.caller (get_deposit funded env.caller + payment))

-- the second loop of `subtract_amount_from_deposits`
unfoldable pub set_deposits : State → List (ℕ × ℕ) → State
set_deposits s [] = s
set_deposits s ((account, final_amount) ∷ rest) =
    set_deposits (set_deposit s account final_amount) rest

module _ ⦃fw : Framework⦄ where
  -- the first loop of `subtract_amount_from_deposits`: the accounts that change, with what is left
  unfoldable pub final_amounts : List (ℕ × ℕ) → ℕ → Result (List (ℕ × ℕ))
  final_amounts [] remaining = ok []
  final_amounts ((account, deposit) ∷ rest) remaining =
      if remaining == 0
      then ok []
      else if leb deposit remaining
      then (do
        remaining' ← remaining -! deposit
        others ← final_amounts rest remaining'
        ok ((account, 0) ∷ others))
      else (do
        kept ← deposit -! remaining
        others ← final_amounts rest 0
        ok ((account, kept) ∷ others))

  unfoldable pub subtract_amount_from_deposits : State → ℕ → Result State
  subtract_amount_from_deposits s amount = do
    finals ← final_amounts (fw.iter ℕ ℕ s.deposits) amount
    ok (set_deposits s finals)

  unfoldable pub pay_oracle : Env → State → ℕ → Result State
  unfolding get_round_details get_oracle_status_result
  pay_oracle env s round_id = do
    round_details ← get_round_details s round_id
    oracle_status ← get_oracle_status_result s env.caller
    let payment = round_details.payment_amount
    available ← s.recorded_funds.available -! payment
    let funds : Funds = record {
      available = available;
      allocated = s.recorded_funds.allocated + payment;
    }
    s' ← subtract_amount_from_deposits (record s { recorded_funds = funds }) payment
    ok (record s' {
      oracles =
          insert env.caller
            (record oracle_status { withdrawable = oracle_status.withdrawable + payment })
            s'.oracles;
    })

  -- `withdrawPayment`
  unfoldable pub withdraw_payment : Env → State → ℕ → ℕ → ℕ → Result (Transfer × State)
  unfolding get_oracle_status_result
  withdraw_payment env s oracle recipient amount = do
    oracle_status ← get_oracle_status_result s oracle
    require (oracle_status.admin == env.caller) "only callable by admin"
    require (leb amount oracle_status.withdrawable) "insufficient withdrawable funds"
    allocated ← s.recorded_funds.allocated -! amount
    withdrawable ← oracle_status.withdrawable -! amount
    let s' = record s {
      oracles = insert oracle (record oracle_status { withdrawable = withdrawable }) s.oracles;
      recorded_funds = record (s.recorded_funds) { allocated = allocated };
    }
    ok (record { to = recipient; token = s.token_id; amount = amount; message = [] }, s')

  -- `withdrawFunds`
  unfoldable pub withdraw_funds : Env → State → ℕ → Result (Transfer × State)
  unfolding get_deposit required_reserve
  withdraw_funds env s amount = do
    let deposit = get_deposit s env.caller
    require (leb amount deposit) "Insufficient funds to withdraw"
    free ← s.recorded_funds.available -! required_reserve s s.payment_amount
    require (leb amount free) "insufficient reserve funds"
    available ← s.recorded_funds.available -! amount
    remaining ← deposit -! amount
    let charged = record s { recorded_funds = record (s.recorded_funds) { available = available } }
    ok (
      record { to = env.caller; token = s.token_id; amount = amount; message = codes "withdraw" },
      set_deposit charged env.caller remaining,
    )
