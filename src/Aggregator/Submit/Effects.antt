-- ===== src/Aggregator/Submit/Effects.antt =====
-- What an accepted submission does to its oracle, to the others, and to the funds.
use sc_chainlink_rs.Prelude.{
  ℕ, ◌+◌, ◌≤◌, ◌<◌, ◌≡◌, ◌≢◌, ◌∙◌, sym, ap, List, some, false, arith, nat_eq, inl, inr,
}
use sc_chainlink_rs.Framework.{ok, Env, Framework, Result-cases, is_ok}
use sc_chainlink_rs.Framework.Map.{get, insert}
use sc_chainlink_rs.Framework.Map.Laws.{get-insert, get-insert_self}
use sc_chainlink_rs.Aggregator.State.{State, OracleStatus, RoundDetails}
use sc_chainlink_rs.Aggregator.Submit.{submit}
use sc_chainlink_rs.Aggregator.Submit.Parts.{submit-parts, validate-parts}
use sc_chainlink_rs.Aggregator.Submit.Payment.{pay_oracle-parts}
use sc_chainlink_rs.Aggregator.Submit.Changes.{
  details_for, opens-OpenEffects, record-RecordEffects, answer-rest, delete-rest,
}

-- What an accepted submission has done when it ends.
pub record SubmitEffects (env : Env) (s : State) (round_id : ℕ) (values : List ℕ) (t : State)
    : Type 0 where
  pub before : OracleStatus
  pub known : get env.caller s.oracles ≡ some before
  pub unreported : before.last_reported_round < round_id
  pub after : OracleStatus
  pub found : get env.caller t.oracles ≡ some after
  pub reported : after.last_reported_round ≡ round_id
  pub latest : after.latest_submission ≡ some (record { values = values })
  pub payment : ℕ
  pub rewarded : after.withdrawable ≡ before.withdrawable + payment
  pub allocated : t.recorded_funds.allocated ≡ s.recorded_funds.allocated + payment
  pub available : t.recorded_funds.available + payment ≡ s.recorded_funds.available
  pub details : RoundDetails
  pub listed : details_for s before round_id ≡ some details
  pub rate : payment ≡ details.payment_amount
  pub others : (k : ℕ) → k ≢ env.caller → get k t.oracles ≡ get k s.oracles

module _ ⦃fw : Framework⦄ where
  -- An accepted submission comes from an oracle that had not reported this round. It marks the
  -- round as reported, stores the values, and moves one payment from the available to the allocated
  -- funds and to the oracle's rewards: the current payment if the submission opens the round, and
  -- otherwise the payment in the details of the round. No other oracle changes.
  pub submit-SubmitEffects :
      (env : Env) (s : State) (round_id : ℕ) (values : List ℕ) {t : State}
      → submit env s round_id values ≡ ok t
      → SubmitEffects env s round_id values t
  submit-SubmitEffects env s round_id values {t} h =
      let p = submit-parts env s round_id values h in
      let v = validate-parts env s env.caller round_id p.valid in
      let o = opens-OpenEffects env s round_id v.status v.found p.opens in
      let r =
        record-RecordEffects env p.opened values round_id o.status o.changes.found p.records in
      let (same, details, funds) = answer-rest env p.recorded round_id p.answers in
      let pay = pay_oracle-parts env p.answered round_id p.pays in
      let (left, books) = delete-rest p.paid round_id in
      let after : OracleStatus = record (pay.status) {
        withdrawable = pay.status.withdrawable + pay.details.payment_amount;
      } in
      let oracles : t.oracles ≡ insert env.caller after p.answered.oracles =
        ap (λ (u : State). u.oracles) p.deletes ∙ left ∙ ap (λ (u : State). u.oracles) pay.writes in
      let kept : t.recorded_funds ≡ p.paid.recorded_funds =
        ap (λ (u : State). u.recorded_funds) p.deletes ∙ books in
      let listed : get round_id p.recorded.details ≡ some pay.details =
        ap (get round_id) (sym details) ∙ pay.detailed in
      let paid_as : pay.details.payment_amount ≡ r.details.payment_amount =
        ground (arith, r.listed, listed) in
      record {
        before = v.status;
        known = v.found;
        unreported = v.unreported;
        after = after;
        found = ap (get env.caller) oracles ∙ get-insert_self env.caller after p.answered.oracles;
        reported = ground (arith, pay.found, r.changes.found);
        latest = ground (arith, pay.found, r.changes.found);
        payment = pay.details.payment_amount;
        rewarded = ground (arith, pay.found, r.changes.found, o.rewards);
        allocated = ground (arith, pay.allocated, funds, r.funds, o.funds);
        available = ground (arith, pay.available, funds, r.funds, o.funds);
        details = r.details;
        listed = sym o.listed ∙ r.detailed;
        rate = paid_as;
        others = λ k ne. ground (
          arith,
          get-insert k env.caller after p.answered.oracles,
          r.changes.others k,
          o.changes.others k,
        );
      }

  -- After an accepted submission the same oracle cannot submit for that round, or an earlier one.
  pub submit_once :
      (env env' : Env) (s : State) (round_id again : ℕ) (values values' : List ℕ) {t : State}
      → submit env s round_id values ≡ ok t
      → env'.caller ≡ env.caller
      → again ≤ round_id
      → is_ok (submit env' t again values') ≡ false
  submit_once env env' s round_id again values values' {t} h same early =
      let e = submit-SubmitEffects env s round_id values h in
      elim (Result-cases (submit env' t again values')) [
        | inr (m, r) ↦ rw r
        | inl (u, r) ↦
            let e' = submit-SubmitEffects env' t again values' r in
            let found : get env'.caller t.oracles ≡ some e.after = rw same e.found in
            absurd (ground (arith, found, e'.known, e'.unreported, e.reported))
      ]
