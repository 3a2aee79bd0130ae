-- ===== src/Aggregator/Deadlock.antt =====
-- What the dropped details of a round do to the rounds after it. `timed_out` asks for the details
-- of a round and ends with an error where there are none, and both `supersedable` and
-- `update_timed_out_round_info` call it first.
pub mod Forever
pub mod Causes
pub mod Timeout
use sc_chainlink_rs.Prelude.{
  ℕ, ◌+◌, ◌-◌, ◌^◌, ◌≤◌, ◌<◌, ◌≡◌, ◌⊎◌, ap, true, false, List, none, some, arith, nat_eq, inl, inr,
}
use mathlib.Core.Path.{subst}
use sc_chainlink_rs.Framework.{ok, Env, Framework, is_ok, Result-cases}
use sc_chainlink_rs.Framework.Map.{get}
use sc_chainlink_rs.Aggregator.State.{State, Round}
use sc_chainlink_rs.Aggregator.Reads.{
  timed_out, supersedable, previous_supersedable, round_in_reach, previous_and_current_unanswered,
  validate_oracle_round,
}
use sc_chainlink_rs.Aggregator.Rounds.{
  update_timed_out_round_info, initialize_new_round, oracle_initialize_new_round,
  requester_initialize_new_round, request_new_round,
}
use sc_chainlink_rs.Aggregator.Submit.{record_submission, submit}
use sc_chainlink_rs.Aggregator.Submit.Parts.{submit-parts, validate-parts}

-- Without details a round can neither be superseded nor be found timed out.
timed_out_undetailed :
    (env : Env) (s : State) (round_id : ℕ)
    → get round_id s.details ≡ none
    → is_ok (timed_out env s round_id) ≡ false
unfolding timed_out
timed_out_undetailed env s round_id h = ground arith

supersedable_undetailed :
    (env : Env) (s : State) (round_id : ℕ)
    → get round_id s.details ≡ none
    → is_ok (supersedable env s round_id) ≡ false
unfolding supersedable
supersedable_undetailed env s round_id h = ground (arith, timed_out_undetailed env s round_id h)

-- A submission for round 2 or later is refused when the details of the round before are gone.
pub validate_after_undetailed :
    (env : Env) (s : State) (oracle round_id : ℕ)
    → 2 ≤ round_id
    → get (round_id - 1) s.details ≡ none
    → is_ok (validate_oracle_round env s oracle round_id) ≡ false
unfolding validate_oracle_round previous_supersedable
validate_after_undetailed env s oracle round_id h g =
    ground (arith, supersedable_undetailed env s (round_id - 1) g)

-- The reporting round has been answered or started at a positive time, and its details are gone.
pub record IsWedged (s : State) : Type 0 where
  pub started : 1 ≤ s.reporting_round_id
  pub bounded : s.reporting_round_id < 2 ^ 64 - 1
  pub round : Round
  pub found : get s.reporting_round_id s.rounds ≡ some round
  pub updated : 0 < round.updated_at
  pub undetailed : get s.reporting_round_id s.details ≡ none

record_undetailed :
    (env : Env) (s : State) (values : List ℕ) (round_id : ℕ)
    → get round_id s.details ≡ none
    → is_ok (record_submission env s (record { values = values }) round_id) ≡ false
unfolding record_submission
record_undetailed env s values round_id h = ground arith

pub updated_in_reach :
    (s : State) (round : Round) (round_id : ℕ)
    → get s.reporting_round_id s.rounds ≡ some round
    → 0 < round.updated_at
    → s.reporting_round_id < 2 ^ 64 - 1
    → round_in_reach s round_id ≡ ok true
    → (round_id ≡ s.reporting_round_id) ⊎ (round_id ≡ s.reporting_round_id + 1)
unfolding round_in_reach previous_and_current_unanswered
updated_in_reach s round round_id found updated bounded h = ground arith

wedged_initialize :
    (env : Env) (s : State)
    → IsWedged s
    → is_ok (initialize_new_round env s (s.reporting_round_id + 1)) ≡ false
unfolding initialize_new_round update_timed_out_round_info
wedged_initialize env s w =
    let gone = timed_out_undetailed env s s.reporting_round_id w.undetailed in
    let last : s.reporting_round_id + 1 - 1 ≡ s.reporting_round_id = omega arith in ground arith

-- A wedged contract refuses every request for a new round.
pub request_new_round_wedged :
    (env : Env) (s : State) → IsWedged s → is_ok (request_new_round env s) ≡ false
unfolding request_new_round requester_initialize_new_round
request_new_round_wedged env s w = ground (arith, wedged_initialize env s w)

wedged_opens :
    (env : Env) (s : State) {t : State}
    → IsWedged s
    → oracle_initialize_new_round env s s.reporting_round_id ≡ ok t
    → t ≡ s
unfolding oracle_initialize_new_round
wedged_opens env s w h = ground arith

-- A wedged contract refuses every submission, of any oracle for any round.
pub submit_wedged :
    ⦃fw : Framework⦄ (env : Env) (s : State) (round_id : ℕ) (values : List ℕ)
    → IsWedged s
    → is_ok (submit env s round_id values) ≡ false
submit_wedged env s round_id values w = elim (Result-cases (submit env s round_id values)) [
  | inr (m, e) ↦ rw e
  | inl (t, e) ↦
      let p = submit-parts env s round_id values e in
      let v = validate-parts env s env.caller round_id p.valid in
      elim (updated_in_reach s w.round round_id w.found w.updated w.bounded v.in_reach) [
        | inl now ↦
            let same =
              wedged_opens env s w
                (subst (λ k. oracle_initialize_new_round env s k ≡ ok p.opened) now p.opens) in
            ground (arith, p.records, record_undetailed env s values round_id (rw now w.undetailed))
        | inr later ↦
            let last : round_id - 1 ≡ s.reporting_round_id = omega arith in
            ground (
              arith,
              p.valid,
              validate_after_undetailed env s env.caller round_id,
              ap (λ k. get k s.details) last,
            )
      ]
]
