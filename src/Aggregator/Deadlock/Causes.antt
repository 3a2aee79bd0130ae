-- ===== src/Aggregator/Deadlock/Causes.antt =====
-- From an accepted submission to the wedged state: what each step of `submit` leaves of the rounds.
use sc_chainlink_rs.Prelude.{
  ◌≤◌, [], ◌∷◌, ◌++◌, ℕ, ◌+◌, ◌-◌, ◌^◌, ◌<◌, ◌≡◌, ◌⊎◌, ◌∙◌, refl, ap, List, none, some, arith,
  nat_eq, Option-cases, Bool-cases, inl, inr, ltb, length,
}
use sc_chainlink_rs.Framework.{ok, Env, Framework, Result-cases, >>=-eq-ok}
use sc_chainlink_rs.Framework.Map.{get, insert}
use sc_chainlink_rs.Framework.Map.Laws.{get-insert_self}
use sc_chainlink_rs.Aggregator.State.{State, Round, RoundDetails, OracleStatus}
use sc_chainlink_rs.Aggregator.Rounds.{
  initialize_new_round, oracle_initialize_new_round, settle_last_round, open_round, fresh_round,
}
use sc_chainlink_rs.Aggregator.Funds.{pay_oracle}
use sc_chainlink_rs.Aggregator.Submit.{
  record_submission, update_round_answer, delete_round_details, submit,
}
use sc_chainlink_rs.Aggregator.Submit.Payment.{pay_oracle-parts}
use sc_chainlink_rs.Median.{calculate_submission_median}
use mathlib.Core.Path.{ap₂}
use sc_chainlink_rs.Aggregator.Submit.Parts.{submit-parts, validate-parts}
use sc_chainlink_rs.Aggregator.Submit.Changes.{details_for}
use sc_chainlink_rs.Aggregator.Submit.Details.{submit-details}
use sc_chainlink_rs.Aggregator.Deadlock.{IsWedged, updated_in_reach}

-- The reporting round is `round_id`, and it was updated at a positive time.
record IsUpdated (s : State) (round_id : ℕ) : Type 0 where
  reports : s.reporting_round_id ≡ round_id
  round : Round
  found : get round_id s.rounds ≡ some round
  updated : 0 < round.updated_at

-- The state before a submission: the reporting round was updated at a positive time, and no
-- details are kept for the round after it.
pub record IsTimed (s : State) : Type 0 where
  pub round : Round
  pub found : get s.reporting_round_id s.rounds ≡ some round
  pub updated : 0 < round.updated_at
  pub bounded : s.reporting_round_id < 2 ^ 64 - 2
  pub unopened : get (s.reporting_round_id + 1) s.details ≡ none

-- A new round is opened in some state that has the rounds before it up to date.
initialize-open_round :
    (env : Env) (s : State) (round_id : ℕ) {t : State}
    → initialize_new_round env s round_id ≡ ok t
    → (u : State) × (t ≡ open_round env u round_id)
unfolding initialize_new_round
initialize-open_round env s round_id h =
    let (u, _, e) = >>=-eq-ok (settle_last_round env s round_id) _ h in (u, ground arith)

initialize-IsUpdated :
    (env : Env) (s : State) (round_id : ℕ) {t : State}
    → 0 < env.block_timestamp
    → initialize_new_round env s round_id ≡ ok t
    → IsUpdated t round_id
initialize-IsUpdated env s round_id {t} late h =
    let (u, e) = initialize-open_round env s round_id h in
    rw e (record {
      reports = refl;
      round = fresh_round env u round_id;
      found = get-insert_self round_id (fresh_round env u round_id) u.rounds;
      updated = late;
    })

-- The round of an accepted submission is opened, or is the reporting round already.
opens-IsUpdated :
    (env : Env) (s : State) (values : List ℕ) (round_id : ℕ) {o t : State}
    → IsTimed s
    → 0 < env.block_timestamp
    → (round_id ≡ s.reporting_round_id) ⊎ (round_id ≡ s.reporting_round_id + 1)
    → oracle_initialize_new_round env s round_id ≡ ok o
    → record_submission env o (record { values = values }) round_id ≡ ok t
    → IsUpdated o round_id
unfolding oracle_initialize_new_round record_submission
opens-IsUpdated env s values round_id {o} w late place h r = elim place [
  | inl now ↦
      let same : o ≡ s = ground arith in
      rw (same, now)
        (record { reports = refl; round = w.round; found = w.found; updated = w.updated })
  | inr later ↦
      let closed : get round_id s.details ≡ none = rw later w.unopened in
      elim (Result-cases (initialize_new_round env s round_id)) [
        | inr (m, e) ↦ absurd (ground arith)
        | inl (u, e) ↦
            let i = initialize-IsUpdated env s round_id late e in
            let ids : o.reporting_round_id ≡ u.reporting_round_id = ground arith in
            let rounds : o.rounds ≡ u.rounds = ground arith in
            record {
              reports = ids ∙ i.reports;
              round = i.round;
              found = rw rounds i.found;
              updated = i.updated;
            }
      ]
]

record-IsUpdated :
    (env : Env) (s : State) (values : List ℕ) (round_id : ℕ) {t : State}
    → record_submission env s (record { values = values }) round_id ≡ ok t
    → IsUpdated s round_id
    → IsUpdated t round_id
unfolding record_submission
record-IsUpdated env s values round_id h w = record {
  reports = ground arith;
  round = w.round;
  found = ground arith;
  updated = w.updated;
}

answer-IsUpdated :
    (env : Env) (s : State) (round_id : ℕ) {t : State}
    → 0 < env.block_timestamp
    → update_round_answer env s round_id ≡ ok t
    → IsUpdated s round_id
    → IsUpdated t round_id
unfolding update_round_answer
answer-IsUpdated env s round_id {t} late h w = elim (Option-cases (get round_id s.details)) [
  | inl d ↦ absurd (ground arith)
  | inr (details, d) ↦
      elim (Bool-cases (ltb (length details.submissions) details.min_submissions)) [
        | inl few ↦ let same : t ≡ s = ground arith in rw same w
        | inr enough ↦ elim (Result-cases (calculate_submission_median details.submissions)) [
          | inr (m, e) ↦ absurd (ground arith)
          | inl (answer, e) ↦
              let answered : Round = record (w.round) {
                answer = answer;
                updated_at = env.block_timestamp;
                answered_in_round = round_id;
              } in
              let rounds : t.rounds ≡ insert round_id answered s.rounds = ground arith in
              record {
                reports = ground arith;
                round = answered;
                found = rw rounds (get-insert_self round_id answered s.rounds);
                updated = late;
              }
        ]
      ]
]

pay-IsUpdated :
    ⦃fw : Framework⦄ (env : Env) (s : State) (round_id : ℕ) {t : State}
    → pay_oracle env s round_id ≡ ok t
    → IsUpdated s round_id
    → IsUpdated t round_id
pay-IsUpdated env s round_id h w =
    let p = pay_oracle-parts env s round_id h in
    record {
      reports = ap (λ (u : State). u.reporting_round_id) p.writes ∙ w.reports;
      round = w.round;
      found = ap (λ (u : State). get round_id u.rounds) p.writes ∙ w.found;
      updated = w.updated;
    }

delete-IsUpdated :
    (s : State) (round_id : ℕ)
    → IsUpdated s round_id
    → IsUpdated (delete_round_details s round_id) round_id
unfolding delete_round_details
delete-IsUpdated s round_id w = record {
  reports = ground arith;
  round = w.round;
  found = ground arith;
  updated = w.updated;
}

-- An accepted submission that leaves its round without details wedges the contract.
undetailed-IsWedged :
    ⦃fw : Framework⦄ (env : Env) (s : State) (round_id : ℕ) (values : List ℕ) {t : State}
    → IsTimed s
    → 0 < env.block_timestamp
    → submit env s round_id values ≡ ok t
    → get round_id t.details ≡ none
    → IsWedged t
undetailed-IsWedged env s round_id values {t} w late h gone =
    let p = submit-parts env s round_id values h in
    let v = validate-parts env s env.caller round_id p.valid in
    let place =
      updated_in_reach s w.round round_id w.found w.updated (omega (arith, w.bounded)) v.in_reach in
    let u₁ = opens-IsUpdated env s values round_id w late place p.opens p.records in
    let u₂ = record-IsUpdated env p.opened values round_id p.records u₁ in
    let u₃ = answer-IsUpdated env p.recorded round_id late p.answers u₂ in
    let u₄ = pay-IsUpdated env p.answered round_id p.pays u₃ in
    let u₅ = delete-IsUpdated p.paid round_id u₄ in
    let ids : t.reporting_round_id ≡ round_id = rw p.deletes u₅.reports in
    record {
      started = omega (arith, v.unreported);
      bounded = omega (arith, w.bounded);
      round = u₅.round;
      found = ap₂ (λ k (u : State). get k u.rounds) ids p.deletes ∙ u₅.found;
      updated = u₅.updated;
      undetailed = ap (λ k. get k t.details) ids ∙ gone;
    }

-- At a positive time, when the reporting round was updated at a positive time, its number is below
-- 2 ^ 64 - 2, and the round after it has no details yet: an accepted submission that is the last
-- one its round takes wedges the contract; one that is not leaves the details of the round in
-- place, with itself added. The details are new ones if the submission opens the round.
pub filled-IsWedged :
    ⦃fw : Framework⦄ (env : Env) (s : State) (round_id : ℕ) (values : List ℕ)
    (before : OracleStatus) (d : RoundDetails) {t : State}
    → IsTimed s
    → 0 < env.block_timestamp
    → get env.caller s.oracles ≡ some before
    → details_for s before round_id ≡ some d
    → submit env s round_id values ≡ ok t
    → (d.max_submissions ≤ length d.submissions + 1 → IsWedged t)
      × (length d.submissions + 1 < d.max_submissions
          → get round_id t.details
            ≡ some (record d { submissions = d.submissions ++ record { values = values } ∷ [] }))
filled-IsWedged env s round_id values before d w late known listed h =
    let (drops, keeps) = submit-details env s round_id values before d known listed h in
    (λ last. undetailed-IsWedged env s round_id values w late h (drops last), keeps)
