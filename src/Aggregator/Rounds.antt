-- ===== src/Aggregator/Rounds.antt =====
-- The start of a round, by an oracle or by a requester: `initialize_new_round` and its callers in
-- aggregator/src/lib.rs.
use sc_chainlink_rs.Prelude.{
  ℕ, Bool, true, false, ◌&&◌, ◌||◌, none, some, [], ltb, leb, ◌==◌, nat_eq, not, if◌then◌else◌,
}
use sc_chainlink_rs.Framework.{Result, ok, ◌>>=◌, ◌>>◌, require, Env, add_u64, checked_sub}
use sc_chainlink_rs.Framework.Map.{get, insert, remove}
use sc_chainlink_rs.Aggregator.State.{State, Round, RoundDetails}
use sc_chainlink_rs.Aggregator.Reads.{
  get_round, get_oracle_status_result, get_requester, new_round, timed_out,
}

-- the answer of the round before is carried over
unfoldable pub carry_over : State → ℕ → Round → Result Round
unfolding get_round
carry_over s round_id round = elim (checked_sub round_id 1) [
  | none ↦ ok (record round { answer = none; answered_in_round = 0 })
  | some prev_id ↦ do
    prev_round ← get_round s prev_id
    ok (record round {
      answer = prev_round.answer;
      answered_in_round = prev_round.answered_in_round;
    })
]

unfoldable pub update_timed_out_round_info : Env → State → ℕ → Result State
unfolding get_round
update_timed_out_round_info env s round_id = do
  late ← timed_out env s round_id
  if late
      then (do
        round ← get_round s round_id
        carried ← carry_over s round_id round
        ok (record s {
          rounds = insert round_id (record carried { updated_at = env.block_timestamp }) s.rounds;
          details = remove round_id s.details;
        }))
      else ok s

-- the round that `initialize_new_round` writes
abbrev pub fresh_round : Env → State → ℕ → Round
fresh_round env s round_id = record {
  round_id = round_id;
  answer = none;
  decimals = s.decimals;
  description = s.description;
  started_at = env.block_timestamp;
  updated_at = env.block_timestamp;
  answered_in_round = 0;
}

-- the details that `initialize_new_round` writes
abbrev pub fresh_details : State → RoundDetails
fresh_details s = record {
  submissions = [];
  max_submissions = s.max_submission_count;
  min_submissions = s.min_submission_count;
  timeout = s.timeout;
  payment_amount = s.payment_amount;
}

-- the writes of `initialize_new_round`
abbrev pub open_round : Env → State → ℕ → State
open_round env s round_id = record s {
  reporting_round_id = round_id;
  rounds = insert round_id (fresh_round env s round_id) s.rounds;
  details = insert round_id (fresh_details s) s.details;
}

-- the first statement of `initialize_new_round`
unfoldable pub settle_last_round : Env → State → ℕ → Result State
settle_last_round env s round_id = elim (checked_sub round_id 1) [
  | none ↦ ok s
  | some last_round ↦ update_timed_out_round_info env s last_round
]

unfoldable pub initialize_new_round : Env → State → ℕ → Result State
unfolding settle_last_round
initialize_new_round env s round_id = do
  settled ← settle_last_round env s round_id
  ok (open_round env settled round_id)

unfoldable pub oracle_initialize_new_round : Env → State → ℕ → Result State
unfolding get_oracle_status_result new_round
oracle_initialize_new_round env s round_id = if not (new_round s round_id) then ok s else (do
  oracle_status ← get_oracle_status_result s env.caller
  let last_started = oracle_status.last_started_round
  if leb round_id (add_u64 last_started s.restart_delay) && not (last_started == 0)
      then ok s
      else (do
        opened ← initialize_new_round env s round_id
        ok (record opened {
          oracles =
              insert env.caller (record oracle_status { last_started_round = round_id })
                opened.oracles;
        })))

unfoldable pub requester_initialize_new_round : Env → State → ℕ → Result State
unfolding get_requester new_round
requester_initialize_new_round env s round_id = do
  requester ← get_requester s env.caller
  if not (new_round s round_id) then ok s else (do
    let last_started = requester.last_started_round
    require (ltb (add_u64 last_started requester.delay) round_id || last_started == 0)
        "must delay requests"
    opened ← initialize_new_round env s round_id
    ok (record opened {
      requesters =
          insert env.caller (record requester { last_started_round = round_id }) opened.requesters;
    }))

-- `requestNewRound`
unfoldable pub request_new_round : Env → State → Result (ℕ × State)
request_new_round env s = do
  let authorized : Bool = elim (get env.caller s.requesters) [
    | none ↦ false
    | some requester ↦ requester.authorized
  ]
  require authorized "not authorized requester"
  let current = s.reporting_round_id
  let updated : Bool = elim (get current s.rounds) [
    | none ↦ false
    | some round ↦ ltb 0 round.updated_at
  ]
  prev_supersedable ← if updated then ok true else timed_out env s current
  require prev_supersedable "prev round must be supersedable"
  let new_round_id = add_u64 current 1
  s' ← requester_initialize_new_round env s new_round_id
  ok (new_round_id, s')
