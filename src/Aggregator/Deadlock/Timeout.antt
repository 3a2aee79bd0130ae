-- ===== src/Aggregator/Deadlock/Timeout.antt =====
-- What `update_timed_out_round_info` of aggregator/src/lib.rs takes away: the details of the round
-- that timed out, which the submissions for the next round then ask for.
use sc_chainlink_rs.Prelude.{
  ℕ, ◌+◌, ◌-◌, ◌^◌, ◌≤◌, ◌<◌, ◌≡◌, ap, ◌∙◌, true, false, List, none, arith, nat_eq, inl, inr,
}
use sc_chainlink_rs.Framework.{ok, Env, Framework, is_ok, Result-cases}
use sc_chainlink_rs.Framework.Map.{get}
use sc_chainlink_rs.Framework.Map.Laws.{get-insert, get-remove_self}
use sc_chainlink_rs.Aggregator.State.{State}
use sc_chainlink_rs.Aggregator.Reads.{timed_out}
use sc_chainlink_rs.Aggregator.Rounds.{
  carry_over, update_timed_out_round_info, fresh_details, initialize_new_round,
  requester_initialize_new_round, request_new_round,
}
use sc_chainlink_rs.Aggregator.Submit.{submit}
use sc_chainlink_rs.Aggregator.Submit.Parts.{submit-parts}
use sc_chainlink_rs.Aggregator.Deadlock.{validate_after_undetailed}

timed_out-undetailed :
    (env : Env) (s : State) (round_id : ℕ) {t : State}
    → timed_out env s round_id ≡ ok true
    → update_timed_out_round_info env s round_id ≡ ok t
    → get round_id t.details ≡ none
unfolding update_timed_out_round_info carry_over
timed_out-undetailed env s round_id late h = ground (arith, get-remove_self round_id s.details)

initialize-undetailed :
    (env : Env) (s : State) (round_id : ℕ) {t : State}
    → 1 ≤ round_id
    → timed_out env s (round_id - 1) ≡ ok true
    → initialize_new_round env s round_id ≡ ok t
    → get (round_id - 1) t.details ≡ none
unfolding initialize_new_round
initialize-undetailed env s round_id positive late h =
    elim (Result-cases (update_timed_out_round_info env s (round_id - 1))) [
      | inr (m, e) ↦ absurd (ground arith)
      | inl (u, e) ↦ ground (
        arith,
        timed_out-undetailed env s (round_id - 1) late e,
        get-insert (round_id - 1) round_id (fresh_details u) u.details,
      )
    ]

-- A submission for round 2 or later is refused when the details of the round before are gone.
submit_after_undetailed :
    ⦃fw : Framework⦄ (env : Env) (s : State) (round_id : ℕ) (values : List ℕ)
    → 2 ≤ round_id
    → get (round_id - 1) s.details ≡ none
    → is_ok (submit env s round_id values) ≡ false
submit_after_undetailed env s round_id values large gone =
    elim (Result-cases (submit env s round_id values)) [
      | inr (m, e) ↦ rw e
      | inl (t, e) ↦ absurd (
          ground (
            arith,
            (submit-parts env s round_id values e).valid,
            validate_after_undetailed env s env.caller round_id large gone,
          ))
    ]

-- When the reporting round, which is not round 0 nor one of the last two that a `u64` can number,
-- has timed out, a request for a new round that is accepted opens a round for which every
-- submission is refused, of any oracle at any time, as long as nothing else was called.
pub timed_out_request-refuses :
    ⦃fw : Framework⦄ (env env' : Env) (s : State) (values : List ℕ) {round_id : ℕ} {t : State}
    → 1 ≤ s.reporting_round_id
    → s.reporting_round_id < 2 ^ 64 - 2
    → timed_out env s s.reporting_round_id ≡ ok true
    → request_new_round env s ≡ ok (round_id, t)
    → is_ok (submit env' t round_id values) ≡ false
unfolding request_new_round requester_initialize_new_round
timed_out_request-refuses env env' s values {round_id} {t} started bounded late h =
    let next = s.reporting_round_id + 1 in
    let opens : round_id ≡ next = ground arith in
    let same : next - 1 ≡ s.reporting_round_id = omega arith in
    let late' : timed_out env s (next - 1) ≡ ok true = ap (timed_out env s) same ∙ late in
    let gone : get (next - 1) t.details ≡ none =
      elim (Result-cases (initialize_new_round env s next)) [
        | inr (m, e) ↦ absurd (ground arith)
        | inl (u, e) ↦ ground (arith, initialize-undetailed env s next (omega arith) late' e)
      ] in
    rw opens (submit_after_undetailed env' t next values (omega arith) gone)
