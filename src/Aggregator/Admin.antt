-- ===== src/Aggregator/Admin.antt =====
-- Set-up and administration of the Aggregator: `init`, the owner's endpoints and the hand-over of
-- an oracle's administration, in aggregator/src/lib.rs.
use sc_chainlink_rs.Prelude.{
  ℕ, Bool, false, ◌||◌, not, List, [], ◌∷◌, none, some, ltb, leb, ◌==◌, nat_eq, length,
  if◌then◌else◌,
}
use sc_chainlink_rs.Framework.{Result, ok, ◌>>=◌, ◌>>◌, require, Env}
use sc_chainlink_rs.Framework.Map.{insert, remove}
use sc_chainlink_rs.Aggregator.State.{State, OracleStatus, Requester, blank, round_max}
use sc_chainlink_rs.Aggregator.Reads.{
  get_oracle_status_result, get_starting_round, oracle_count, oracle_enabled, required_reserve,
}
use sc_chainlink_rs.Aggregator.Rounds.{initialize_new_round}

unfoldable pub update_future_rounds_internal : State → ℕ → ℕ → ℕ → ℕ → ℕ → Result State
unfolding oracle_count required_reserve
update_future_rounds_internal s payment_amount min_submissions max_submissions restart_delay
      timeout =
    do
      let oracle_count = oracle_count s
      require (leb min_submissions max_submissions) "max must equal/exceed min"
      require (leb max_submissions oracle_count) "max cannot exceed total"
      require (oracle_count == 0 || ltb restart_delay oracle_count) "delay cannot exceed total"
      require (leb (required_reserve s payment_amount) s.recorded_funds.available)
          "insufficient funds for payment"
      require (not (ltb 0 oracle_count) || ltb 0 min_submissions) "min must be greater than 0"
      ok (record s {
        payment_amount = payment_amount;
        min_submission_count = min_submissions;
        max_submission_count = max_submissions;
        restart_delay = restart_delay;
        timeout = timeout;
      })

-- `updateFutureRounds`
unfoldable pub update_future_rounds : Env → State → ℕ → ℕ → ℕ → ℕ → ℕ → Result State
update_future_rounds env s payment_amount min_submissions max_submissions restart_delay timeout = do
  require (env.caller == env.owner) "Only owner may call this function!"
  update_future_rounds_internal s payment_amount min_submissions max_submissions restart_delay
      timeout

-- `init`, on storage that was never written
unfoldable pub init : Env → List ℕ → ℕ → ℕ → ℕ → ℕ → ℕ → List ℕ → ℕ → Result State
init env token_id payment_amount timeout min_submission_value max_submission_value decimals
      description values_count =
    do
      let s₀ = record blank {
        token_id = token_id;
        recorded_funds = record { available = 0; allocated = 0 };
      }
      s₁ ← update_future_rounds_internal s₀ payment_amount 0 0 0 timeout
      let s₂ = record s₁ {
        min_submission_value = min_submission_value;
        max_submission_value = max_submission_value;
        decimals = decimals;
        description = description;
        values_count = values_count;
      }
      initialize_new_round env s₂ 0

unfoldable pub remove_oracles : State → List ℕ → State
remove_oracles s [] = s
remove_oracles s (oracle ∷ rest) =
    remove_oracles (record s { oracles = remove oracle s.oracles }) rest

-- the status of an oracle that was just added
abbrev pub new_oracle : ℕ → ℕ → OracleStatus
new_oracle starting_round admin = record {
  withdrawable = 0;
  starting_round = starting_round;
  ending_round = round_max;
  last_reported_round = 0;
  last_started_round = 0;
  latest_submission = none;
  admin = admin;
  pending_admin = none;
}

unfoldable pub add_oracle : State → ℕ → ℕ → Result State
unfolding oracle_enabled get_starting_round
add_oracle s oracle admin = do
  require (not (oracle_enabled s oracle)) "oracle already enabled"
  ok (record s {
    oracles = insert oracle (new_oracle (get_starting_round s oracle) admin) s.oracles;
  })

-- the loop over `added.iter().zip(added_admins.iter())`
unfoldable pub add_oracles : State → List ℕ → List ℕ → Result State
add_oracles s (oracle ∷ added) (admin ∷ admins) = do
  s' ← add_oracle s oracle admin
  add_oracles s' added admins
add_oracles s _ _ = ok s

-- `changeOracles`
unfoldable pub change_oracles : Env → State → List ℕ → List ℕ → List ℕ → ℕ → ℕ → ℕ → Result State
change_oracles env s removed added added_admins min_submissions max_submissions restart_delay = do
  require (env.caller == env.owner) "Only owner may call this function!"
  let s₁ = remove_oracles s removed
  require (length added == length added_admins) "need same oracle and admin count"
  s₂ ← add_oracles s₁ added added_admins
  update_future_rounds_internal s₂ s₂.payment_amount min_submissions max_submissions restart_delay
      s₂.timeout

-- `transferAdmin`
unfoldable pub transfer_admin : Env → State → ℕ → ℕ → Result State
unfolding get_oracle_status_result
transfer_admin env s oracle new_admin = do
  oracle_status ← get_oracle_status_result s oracle
  require (oracle_status.admin == env.caller) "only callable by admin"
  ok (record s {
    oracles = insert oracle (record oracle_status { pending_admin = some new_admin }) s.oracles;
  })

-- `acceptAdmin`
unfoldable pub accept_admin : Env → State → ℕ → Result State
unfolding get_oracle_status_result
accept_admin env s oracle = do
  oracle_status ← get_oracle_status_result s oracle
  let is_pending : Bool = elim (oracle_status.pending_admin) [
    | none ↦ false
    | some pending ↦ pending == env.caller
  ]
  require is_pending "only callable by pending admin"
  ok (record s {
    oracles =
        insert oracle (record oracle_status { pending_admin = none; admin = env.caller }) s.oracles;
  })

-- `setRequesterPermissions`
unfoldable pub set_requester_permissions : Env → State → ℕ → Bool → ℕ → Result State
set_requester_permissions env s requester authorized delay = do
  require (env.caller == env.owner) "Only owner may call this function!"
  let entry : Requester = record { authorized = authorized; delay = delay; last_started_round = 0 }
  if authorized
      then ok (record s { requesters = insert requester entry s.requesters })
      else ok (record s { requesters = remove requester s.requesters })
