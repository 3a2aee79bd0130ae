-- ===== src/Aggregator/Submit/Answer.antt =====
-- When a submission answers its round: `update_round_answer` within the endpoint `submit`.
use sc_chainlink_rs.Prelude.{
  ℕ, ◌+◌, ◌%◌, ◌^◌, ◌≤◌, ◌<◌, ◌≡◌, ◌≢◌, refl, ap, ◌∙◌, List, [], ◌∷◌, ◌++◌, some, arith, inl, inr,
  nat_eq, length, Option-cases,
}
use mathlib.Core.Path.{subst}
use sc_chainlink_rs.Framework.{ok, Env, Framework, Result-cases}
use sc_chainlink_rs.Framework.Map.{get, insert}
use sc_chainlink_rs.Framework.Map.Laws.{get-insert_self}
use sc_chainlink_rs.Median.{Submission, calculate_submission_median}
use sc_chainlink_rs.Aggregator.State.{State, Round, RoundDetails}
use sc_chainlink_rs.Aggregator.Rounds.{oracle_initialize_new_round}
use sc_chainlink_rs.Aggregator.Funds.{pay_oracle}
use sc_chainlink_rs.Aggregator.Submit.{
  record_submission, update_round_answer, delete_round_details, submit,
}
use sc_chainlink_rs.Aggregator.Submit.Parts.{submit-parts}
use sc_chainlink_rs.Aggregator.Submit.Payment.{pay_oracle-parts}

-- The round `round_id` of `t` is answered now, with the medians of `submissions`.
pub record Answered (env : Env) (round_id : ℕ) (submissions : List Submission) (t : State)
    : Type 0 where
  pub round : Round
  pub found : get round_id t.rounds ≡ some round
  pub medians : calculate_submission_median submissions ≡ ok round.answer
  pub now : round.updated_at ≡ env.block_timestamp
  pub in_round : round.answered_in_round ≡ round_id
  pub latest : t.latest_round_id ≡ round_id

opens_open :
    (env : Env) (s : State) (round_id : ℕ) {t : State}
    → round_id ≢ (s.reporting_round_id + 1) % 2 ^ 64
    → oracle_initialize_new_round env s round_id ≡ ok t
    → t ≡ s
unfolding oracle_initialize_new_round
opens_open env s round_id old h = ground arith

record-details :
    (env : Env) (s : State) (submission : Submission) (round_id : ℕ) (d : RoundDetails) {t : State}
    → get round_id s.details ≡ some d
    → record_submission env s submission round_id ≡ ok t
    → (get round_id t.details ≡ some (record d { submissions = d.submissions ++ submission ∷ [] }))
      × (t.rounds ≡ s.rounds)
      × (t.latest_round_id ≡ s.latest_round_id)
unfolding record_submission
record-details env s submission round_id d found h = ground (
  arith,
  get-insert_self round_id (record d { submissions = d.submissions ++ submission ∷ [] }) s.details,
)

update_round_answer-Answered :
    (env : Env) (s : State) (round_id : ℕ) (d : RoundDetails) {t : State}
    → get round_id s.details ≡ some d
    → d.min_submissions ≤ length d.submissions
    → update_round_answer env s round_id ≡ ok t
    → Answered env round_id d.submissions t
unfolding update_round_answer
update_round_answer-Answered env s round_id d {t} found enough h =
    elim (Result-cases (calculate_submission_median d.submissions)) [
      | inr (m, e) ↦ absurd (ground arith)
      | inl (answer, e) ↦ elim (Option-cases (get round_id s.rounds)) [
        | inl g ↦ absurd (ground arith)
        | inr (round, g) ↦
            let answered : Round = record round {
              answer = answer;
              updated_at = env.block_timestamp;
              answered_in_round = round_id;
            } in
            let rounds : t.rounds ≡ insert round_id answered s.rounds = ground arith in
            record {
              round = answered;
              found = rw rounds (get-insert_self round_id answered s.rounds);
              medians = e;
              now = refl;
              in_round = refl;
              latest = ground arith;
            }
      ]
    ]

update_round_answer-waits :
    (env : Env) (s : State) (round_id : ℕ) (d : RoundDetails) {t : State}
    → get round_id s.details ≡ some d
    → length d.submissions < d.min_submissions
    → update_round_answer env s round_id ≡ ok t
    → t ≡ s
unfolding update_round_answer
update_round_answer-waits env s round_id d found few h = ground arith

-- paying and cleaning up leave the rounds as they are
pays-rounds :
    ⦃fw : Framework⦄ (env : Env) (s : State) (round_id : ℕ) {u t : State}
    → pay_oracle env s round_id ≡ ok u
    → t ≡ delete_round_details u round_id
    → (t.rounds ≡ s.rounds) × (t.latest_round_id ≡ s.latest_round_id)
unfolding delete_round_details
pays-rounds env s round_id pays deletes =
    ground (arith, (pay_oracle-parts env s round_id pays).writes)

-- After an accepted submission for a round that was open already: if the submissions of the round
-- with the new one are at least the minimum, the round is answered now with their medians and is
-- the latest; if they are fewer, the rounds and the latest round stay as they were.
pub submit-Answered :
    ⦃fw : Framework⦄ (env : Env) (s : State) (round_id : ℕ) (values : List ℕ) (d : RoundDetails)
    {t : State}
    → round_id ≢ (s.reporting_round_id + 1) % 2 ^ 64
    → get round_id s.details ≡ some d
    → submit env s round_id values ≡ ok t
    → let submissions = d.submissions ++ record { values = values } ∷ [] in
      (d.min_submissions ≤ length submissions → Answered env round_id submissions t)
      × (length submissions < d.min_submissions
          → (t.rounds ≡ s.rounds) × (t.latest_round_id ≡ s.latest_round_id))
submit-Answered env s round_id values d {t} old found h =
    let p = submit-parts env s round_id values h in
    let submission : Submission = record { values = values } in
    let d' : RoundDetails = record d { submissions = d.submissions ++ submission ∷ [] } in
    let records =
      subst (λ u. record_submission env u submission round_id ≡ ok p.recorded)
        (opens_open env s round_id old p.opens) p.records in
    let (listed, rounds, latest) = record-details env s submission round_id d found records in
    let (kept, kept_latest) = pays-rounds env p.answered round_id p.pays p.deletes in
    (
      λ enough.
          let a = update_round_answer-Answered env p.recorded round_id d' listed enough p.answers in
          record {
            round = a.round;
            found = ap (get round_id) kept ∙ a.found;
            medians = a.medians;
            now = a.now;
            in_round = a.in_round;
            latest = kept_latest ∙ a.latest;
          },
      λ few.
          let same = update_round_answer-waits env p.recorded round_id d' listed few p.answers in
          (
            kept ∙ ap (λ (u : State). u.rounds) same ∙ rounds,
            kept_latest ∙ ap (λ (u : State). u.latest_round_id) same ∙ latest,
          ),
    )
