-- ===== src/Aggregator/State.antt =====
-- The data of the Aggregator (aggregator_data.rs, aggregator_interface.rs) and its storage
-- (the `storage_mapper` functions of aggregator/src/lib.rs). A `u64` is a number below 2 ^ 64, and
-- a storage value that was never written reads as zero.
use sc_chainlink_rs.Prelude.{ℕ, ◌-◌, ◌^◌, Bool, Option, List, []}
use sc_chainlink_rs.Framework.Map.{Map}
use sc_chainlink_rs.Median.{Submission}

-- `RESERVE_ROUNDS`
abbrev pub reserve_rounds : ℕ
reserve_rounds = 2

-- `ROUND_MAX`
abbrev pub round_max : ℕ
round_max = 2 ^ 64 - 1

pub record Round : Type 0 where
  pub round_id : ℕ
  pub answer : Option Submission
  pub decimals : ℕ
  pub description : List ℕ
  pub started_at : ℕ
  pub updated_at : ℕ
  pub answered_in_round : ℕ

pub record RoundDetails : Type 0 where
  pub submissions : List Submission
  pub max_submissions : ℕ
  pub min_submissions : ℕ
  pub timeout : ℕ
  pub payment_amount : ℕ

pub record OracleStatus : Type 0 where
  pub withdrawable : ℕ
  pub starting_round : ℕ
  pub ending_round : ℕ
  pub last_reported_round : ℕ
  pub last_started_round : ℕ
  pub latest_submission : Option Submission
  pub admin : ℕ
  pub pending_admin : Option ℕ

pub record Requester : Type 0 where
  pub authorized : Bool
  pub delay : ℕ
  pub last_started_round : ℕ

pub record Funds : Type 0 where
  pub available : ℕ
  pub allocated : ℕ

pub record OracleRoundState : Type 0 where
  pub eligible_to_submit : Bool
  pub round_id : ℕ
  pub latest_submission : Option Submission
  pub started_at : ℕ
  pub timeout : ℕ
  pub available_funds : ℕ
  pub oracle_count : ℕ
  pub payment_amount : ℕ

-- the storage of the contract
pub record State : Type 0 where
  pub token_id : List ℕ
  pub payment_amount : ℕ
  pub max_submission_count : ℕ
  pub min_submission_count : ℕ
  pub restart_delay : ℕ
  pub timeout : ℕ
  pub min_submission_value : ℕ
  pub max_submission_value : ℕ
  pub reporting_round_id : ℕ
  pub latest_round_id : ℕ
  pub oracles : Map ℕ OracleStatus
  pub rounds : Map ℕ Round
  pub details : Map ℕ RoundDetails
  pub requesters : Map ℕ Requester
  pub recorded_funds : Funds
  pub deposits : Map ℕ ℕ
  pub decimals : ℕ
  pub description : List ℕ
  pub values_count : ℕ

-- storage before `init`
abbrev pub blank : State
blank = record {
  token_id = [];
  payment_amount = 0;
  max_submission_count = 0;
  min_submission_count = 0;
  restart_delay = 0;
  timeout = 0;
  min_submission_value = 0;
  max_submission_value = 0;
  reporting_round_id = 0;
  latest_round_id = 0;
  oracles = [];
  rounds = [];
  details = [];
  requesters = [];
  recorded_funds = record { available = 0; allocated = 0 };
  deposits = [];
  decimals = 0;
  description = [];
  values_count = 0;
}
