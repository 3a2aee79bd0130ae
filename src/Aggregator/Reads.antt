-- ===== src/Aggregator/Reads.antt =====
-- The functions of aggregator/src/lib.rs that read the storage and change nothing: lookups, the
-- state of a round, and the check of a submission's round.
use sc_chainlink_rs.Prelude.{
  ℕ, ◌-◌, ◌*◌, Bool, true, false, ◌&&◌, ◌||◌, none, some, ltb, leb, ◌==◌, nat_eq, if◌then◌else◌,
  length, not,
}
use sc_chainlink_rs.Framework.{Result, ok, ◌>>=◌, ◌>>◌, require, ok_or, Env, add_u64}
use sc_chainlink_rs.Framework.Map.{get, contains_key}
use sc_chainlink_rs.Aggregator.State.{
  State, Round, RoundDetails, OracleStatus, Requester, reserve_rounds,
}

unfoldable pub get_oracle_status_result : State → ℕ → Result OracleStatus
get_oracle_status_result s oracle = ok_or (get oracle s.oracles) "No oracle at given address"

unfoldable pub get_round : State → ℕ → Result Round
get_round s round_id = ok_or (get round_id s.rounds) "No round for given round id"

unfoldable pub get_round_details : State → ℕ → Result RoundDetails
get_round_details s round_id = ok_or (get round_id s.details) "No round details for given round id"

unfoldable pub get_requester : State → ℕ → Result Requester
get_requester s requester = ok_or (get requester s.requesters) "No requester has the given address"

unfoldable pub oracle_count : State → ℕ
oracle_count s = length s.oracles

unfoldable pub required_reserve : State → ℕ → ℕ
unfolding oracle_count
required_reserve s payment = payment * oracle_count s * reserve_rounds

unfoldable pub oracle_enabled : State → ℕ → Bool
oracle_enabled s oracle = contains_key oracle s.oracles

unfoldable pub new_round : State → ℕ → Bool
new_round s round_id = round_id == add_u64 s.reporting_round_id 1

unfoldable pub accepting_submissions : State → ℕ → Result Bool
unfolding get_round_details
accepting_submissions s round_id = do
  details ← get_round_details s round_id
  ok (not (details.max_submissions == 0))

unfoldable pub delayed : State → ℕ → ℕ → Result Bool
unfolding get_oracle_status_result
delayed s oracle round_id = do
  oracle_status ← get_oracle_status_result s oracle
  let last_started = oracle_status.last_started_round
  ok (ltb (add_u64 last_started s.restart_delay) round_id || last_started == 0)

unfoldable pub timed_out : Env → State → ℕ → Result Bool
unfolding get_round get_round_details
timed_out env s round_id = do
  round ← get_round s round_id
  let started_at = round.started_at
  details ← get_round_details s round_id
  let round_timeout = details.timeout
  ok (
      round_id == 0
      || (ltb 0 started_at
          && (ltb 0 round_timeout && ltb (add_u64 started_at round_timeout) env.block_timestamp)))

unfoldable pub supersedable : Env → State → ℕ → Result Bool
unfolding get_round
supersedable env s round_id = do
  round ← get_round s round_id
  late ← timed_out env s round_id
  ok (ltb 0 round.updated_at || late)

unfoldable pub previous_and_current_unanswered : State → ℕ → ℕ → Result Bool
unfolding get_round
previous_and_current_unanswered s round_id rr_id = do
  round ← get_round s rr_id
  ok (add_u64 round_id 1 == rr_id && round.updated_at == 0)

-- The round ids that `validate_oracle_round` takes, by their place next to the reporting round.
unfoldable pub round_in_reach : State → ℕ → Result Bool
round_in_reach s round_id =
    let reporting = s.reporting_round_id in
    if round_id == reporting || round_id == add_u64 reporting 1
    then ok true
    else previous_and_current_unanswered s round_id reporting

-- `round_id == 1 || supersedable(round_id - 1)`; the call is made with `round_id` above 0.
unfoldable pub previous_supersedable : Env → State → ℕ → Result Bool
previous_supersedable env s round_id =
    if round_id == 1 then ok true else supersedable env s (round_id - 1)

unfoldable pub validate_oracle_round : Env → State → ℕ → ℕ → Result (Unit {0})
unfolding get_oracle_status_result
validate_oracle_round env s oracle round_id = do
  oracle_status ← get_oracle_status_result s oracle
  require (not (oracle_status.starting_round == 0)) "not enabled oracle"
  require (leb oracle_status.starting_round round_id) "not yet enabled oracle"
  require (leb round_id oracle_status.ending_round) "no longer allowed oracle"
  require (ltb oracle_status.last_reported_round round_id) "cannot report on previous rounds"
  in_reach ← round_in_reach s round_id
  require in_reach "invalid round to report"
  superseded ← previous_supersedable env s round_id
  require superseded "previous round not supersedable"
  ok tt

unfoldable pub get_starting_round : State → ℕ → ℕ
get_starting_round s oracle =
    let current_round = s.reporting_round_id in
    let ends_now : Bool = elim (get oracle s.oracles) [
      | none ↦ false
      | some oracle_status ↦ current_round == oracle_status.ending_round
    ] in
    if not (current_round == 0) && ends_now then current_round else add_u64 current_round 1
