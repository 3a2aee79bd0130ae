-- ===== src/Aggregator/Submit/Details.antt =====
-- What `submit` of aggregator/src/lib.rs leaves of the details of its round.
use sc_chainlink_rs.Prelude.{
  ℕ, ◌+◌, ◌≤◌, ◌<◌, ◌≡◌, ap, sym, ◌∙◌, List, [], ◌∷◌, ◌++◌, none, some, arith, nat_eq, length,
  length-append,
}
use sc_chainlink_rs.Framework.{ok, Env, Framework}
use sc_chainlink_rs.Framework.Map.{get}
use sc_chainlink_rs.Framework.Map.Laws.{get-remove_self}
use sc_chainlink_rs.Median.{Submission}
use sc_chainlink_rs.Aggregator.State.{State, OracleStatus, RoundDetails}
use sc_chainlink_rs.Aggregator.Submit.{delete_round_details, submit}
use sc_chainlink_rs.Aggregator.Submit.Parts.{submit-parts}
use sc_chainlink_rs.Aggregator.Submit.Payment.{pay_oracle-parts}
use sc_chainlink_rs.Aggregator.Submit.Changes.{
  details_for, opens-OpenEffects, record-RecordEffects, answer-rest,
}

-- Details with as many submissions as there may be are dropped, others are kept.
delete-details :
    (s : State) (round_id : ℕ) (d : RoundDetails)
    → get round_id s.details ≡ some d
    → let t = delete_round_details s round_id in
      (d.max_submissions ≤ length d.submissions → get round_id t.details ≡ none)
      × (length d.submissions < d.max_submissions → get round_id t.details ≡ some d)
unfolding delete_round_details
delete-details s round_id d found =
    (λ full. ground (arith, get-remove_self round_id s.details), λ room. ground arith)

-- An accepted submission drops the details of its round when it is the last one that the round
-- takes; else it is added to them.
pub submit-details :
    ⦃fw : Framework⦄ (env : Env) (s : State) (round_id : ℕ) (values : List ℕ)
    (before : OracleStatus) (d : RoundDetails) {t : State}
    → get env.caller s.oracles ≡ some before
    → details_for s before round_id ≡ some d
    → submit env s round_id values ≡ ok t
    → (d.max_submissions ≤ length d.submissions + 1 → get round_id t.details ≡ none)
      × (length d.submissions + 1 < d.max_submissions
          → get round_id t.details
            ≡ some (record d { submissions = d.submissions ++ record { values = values } ∷ [] }))
submit-details env s round_id values before d {t} known listed h =
    let p = submit-parts env s round_id values h in
    let submission : Submission = record { values = values } in
    let full : RoundDetails = record d { submissions = d.submissions ++ submission ∷ [] } in
    let o = opens-OpenEffects env s round_id before known p.opens in
    let r = record-RecordEffects env p.opened values round_id o.status o.changes.found p.records in
    let (same, details, funds) = answer-rest env p.recorded round_id p.answers in
    let pay = pay_oracle-parts env p.answered round_id p.pays in
    let worked : some r.details ≡ some d = sym r.detailed ∙ o.listed ∙ listed in
    let paid : get round_id p.paid.details ≡ some full =
      ap (λ (u : State). get round_id u.details) pay.writes
      ∙ ap (get round_id) details
      ∙ ground (arith, worked, r.listed) in
    let (drops, keeps) = delete-details p.paid round_id full paid in
    let ends = ap (λ (u : State). get round_id u.details) p.deletes in
    let size = length-append d.submissions (submission ∷ []) in
    (λ last. ends ∙ drops (omega arith), λ room. ends ∙ keeps (omega arith))
