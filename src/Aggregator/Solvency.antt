-- ===== src/Aggregator/Solvency.antt =====
-- The books of the Aggregator: the deposits make up the available funds, and the allocated funds
-- cover what the oracles may withdraw.
pub mod Parts
pub mod Endpoints
pub mod Tokens
pub mod World
pub mod Withdrawals
pub mod Removal
pub mod Calls
use sc_chainlink_rs.Prelude.{ℕ, ◌≤◌, ◌≡◌, nat_eq}
use sc_chainlink_rs.Framework.Map.{total, IsUnique}
use sc_chainlink_rs.Aggregator.State.{State, OracleStatus}
use sc_chainlink_rs.Aggregator.Funds.Deposits.{deposit_total}

-- what all oracles together may withdraw
abbrev pub owed : State → ℕ
owed s = total (λ (status : OracleStatus). status.withdrawable) s.oracles

pub record IsFunded (s : State) : Type 0 where
  pub unique : IsUnique s.deposits
  pub covered : deposit_total s.deposits ≡ s.recorded_funds.available
  pub allotted : owed s ≤ s.recorded_funds.allocated
