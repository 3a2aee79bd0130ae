-- ===== src/Aggregator/Solvency/Parts.antt =====
-- The parts of a call that move no funds.
use sc_chainlink_rs.Prelude.{ℕ, ◌≡◌, arith, some, nat_eq, Option-cases, inl, inr}
use sc_chainlink_rs.Framework.{ok, Env, Result-cases, add_u64}
use sc_chainlink_rs.Framework.Map.{Map, get, insert, total}
use sc_chainlink_rs.Framework.Map.Laws.{total-insert}
use sc_chainlink_rs.Median.{Submission}
use sc_chainlink_rs.Aggregator.State.{State, OracleStatus}
use sc_chainlink_rs.Aggregator.Rounds.{
  update_timed_out_round_info, initialize_new_round, oracle_initialize_new_round,
  requester_initialize_new_round, request_new_round,
}
use sc_chainlink_rs.Aggregator.Submit.{record_submission, update_round_answer, delete_round_details}
use sc_chainlink_rs.Aggregator.Solvency.{owed}

pub record SameFunds (s t : State) : Type 0 where
  pub funds : t.recorded_funds ≡ s.recorded_funds
  pub deposits : t.deposits ≡ s.deposits
  pub owes : owed t ≡ owed s
  pub token : t.token_id ≡ s.token_id

-- A write to the status of a known oracle that leaves its rewards alone.
pub rewrite_status :
    (k : ℕ) (m : Map ℕ OracleStatus) (old new : OracleStatus)
    → get k m ≡ some old
    → new.withdrawable ≡ old.withdrawable
    → total (λ (status : OracleStatus). status.withdrawable) (insert k new m)
      ≡ total (λ (status : OracleStatus). status.withdrawable) m
rewrite_status k m old new h e =
    ground (arith, total-insert (λ (status : OracleStatus). status.withdrawable) k new m)

update_timed_out-SameFunds :
    (env : Env) (s : State) (round_id : ℕ) {t : State}
    → update_timed_out_round_info env s round_id ≡ ok t
    → (t.oracles ≡ s.oracles)
      × (t.recorded_funds ≡ s.recorded_funds)
      × (t.deposits ≡ s.deposits)
      × (t.token_id ≡ s.token_id)
unfolding update_timed_out_round_info
update_timed_out-SameFunds env s round_id h = ground arith

initialize-SameFunds :
    (env : Env) (s : State) (round_id : ℕ) {t : State}
    → initialize_new_round env s round_id ≡ ok t
    → (t.oracles ≡ s.oracles)
      × (t.recorded_funds ≡ s.recorded_funds)
      × (t.deposits ≡ s.deposits)
      × (t.token_id ≡ s.token_id)
unfolding initialize_new_round
initialize-SameFunds env s round_id h = grind (arith, update_timed_out-SameFunds)

pub oracle_initialize-SameFunds :
    (env : Env) (s : State) (round_id : ℕ) {t : State}
    → oracle_initialize_new_round env s round_id ≡ ok t
    → SameFunds s t
unfolding oracle_initialize_new_round
oracle_initialize-SameFunds env s round_id h =
    elim (Result-cases (initialize_new_round env s round_id)) [
      | inr (m, e) ↦ ground arith
      | inl (o, e) ↦ elim (Option-cases (get env.caller s.oracles)) [
        | inl g ↦ ground arith
        | inr (old, g) ↦ ground (
          arith,
          initialize-SameFunds env s round_id e,
          rewrite_status env.caller o.oracles old (record old { last_started_round = round_id }),
        )
      ]
    ]

requester_initialize-SameFunds :
    (env : Env) (s : State) (round_id : ℕ) {t : State}
    → requester_initialize_new_round env s round_id ≡ ok t
    → SameFunds s t
unfolding requester_initialize_new_round
requester_initialize-SameFunds env s round_id h =
    elim (Result-cases (initialize_new_round env s round_id)) [
      | inr (m, e) ↦ ground arith
      | inl (o, e) ↦ ground (arith, initialize-SameFunds env s round_id e)
    ]

pub request_new_round-SameFunds :
    (env : Env) (s : State) {r : ℕ × State} → request_new_round env s ≡ ok r → SameFunds s r.1
unfolding request_new_round
request_new_round-SameFunds env s h =
    elim (Result-cases (requester_initialize_new_round env s (add_u64 s.reporting_round_id 1))) [
      | inr (m, e) ↦ ground arith
      | inl (o, e) ↦
          ground (arith, requester_initialize-SameFunds env s (add_u64 s.reporting_round_id 1) e)
    ]

pub record_submission-SameFunds :
    (env : Env) (s : State) (submission : Submission) (round_id : ℕ) {t : State}
    → record_submission env s submission round_id ≡ ok t
    → SameFunds s t
unfolding record_submission
record_submission-SameFunds env s submission round_id h =
    elim (Option-cases (get env.caller s.oracles)) [
      | inl g ↦ ground arith
      | inr (old, g) ↦ ground (
        arith,
        rewrite_status env.caller s.oracles old
            (record old { last_reported_round = round_id; latest_submission = some submission }),
      )
    ]

pub update_round_answer-SameFunds :
    (env : Env) (s : State) (round_id : ℕ) {t : State}
    → update_round_answer env s round_id ≡ ok t
    → SameFunds s t
unfolding update_round_answer
update_round_answer-SameFunds env s round_id h = ground arith

pub delete_round_details-SameFunds :
    (s : State) (round_id : ℕ) → SameFunds s (delete_round_details s round_id)
unfolding delete_round_details
delete_round_details-SameFunds s round_id = ground arith
