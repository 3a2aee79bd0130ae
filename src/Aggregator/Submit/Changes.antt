-- ===== src/Aggregator/Submit/Changes.antt =====
-- What the steps of `submit` change: the opening of the round, the record, the answer, the clean-up.
use sc_chainlink_rs.Prelude.{
  Bool, true, false, ◌&&◌, ◌||◌, ltb, ◌==◌, if◌then◌else◌, Option, Bool-cases, ℕ, ◌≡◌, ◌≢◌, refl,
  List, [], ◌∷◌, ◌++◌, some, arith, nat_eq, Option-cases, inl, inr,
}
use sc_chainlink_rs.Framework.{ok, Env, Result-cases, add_u64}
use sc_chainlink_rs.Framework.Map.{get, insert}
use sc_chainlink_rs.Framework.Map.Laws.{get-insert, get-insert_self}
use sc_chainlink_rs.Median.{Submission}
use sc_chainlink_rs.Aggregator.State.{State, OracleStatus, RoundDetails}
use sc_chainlink_rs.Aggregator.Rounds.{
  update_timed_out_round_info, settle_last_round, initialize_new_round, oracle_initialize_new_round,
  open_round, fresh_details,
}
use sc_chainlink_rs.Aggregator.Submit.{record_submission, update_round_answer, delete_round_details}

-- One oracle's status changes from `before` to `after`, and no other's.
pub record Changes (oracle : ℕ) (before after : OracleStatus) (s t : State) : Type 0 where
  pub found : get oracle t.oracles ≡ some after
  pub others : (k : ℕ) → k ≢ oracle → get k t.oracles ≡ get k s.oracles

-- A submission for the round after the reporting one opens it, if its oracle never started a round
-- or started its last one more than the restart delay ago.
abbrev pub opens_round : State → OracleStatus → ℕ → Bool
opens_round s before round_id =
    round_id == add_u64 s.reporting_round_id 1
    && (before.last_started_round == 0
        || ltb (add_u64 before.last_started_round s.restart_delay) round_id)

-- The details that a submission works on: new ones with the current parameters of the contract if
-- it opens the round, else those of the storage.
abbrev pub details_for : State → OracleStatus → ℕ → Option RoundDetails
details_for s before round_id =
    if opens_round s before round_id then some (fresh_details s) else get round_id s.details

-- The state after the round is open: the caller's rewards are untouched.
pub record OpenEffects (env : Env) (s : State) (round_id : ℕ) (before : OracleStatus) (o : State)
    : Type 0 where
  pub status : OracleStatus
  pub changes : Changes env.caller before status s o
  pub rewards : status.withdrawable ≡ before.withdrawable
  pub funds : o.recorded_funds ≡ s.recorded_funds
  pub listed : get round_id o.details ≡ details_for s before round_id

settle-rest :
    (env : Env) (s : State) (round_id : ℕ) {u : State}
    → settle_last_round env s round_id ≡ ok u
    → (u.oracles ≡ s.oracles)
      × (fresh_details u ≡ fresh_details s)
      × (u.recorded_funds ≡ s.recorded_funds)
unfolding settle_last_round update_timed_out_round_info
settle-rest env s round_id h = ground arith

initialize-OpenEffects :
    (env : Env) (s : State) (round_id : ℕ) {u : State} (before : OracleStatus)
    → get env.caller s.oracles ≡ some before
    → settle_last_round env s round_id ≡ ok u
    → opens_round s before round_id ≡ true
    → let status : OracleStatus = record before { last_started_round = round_id } in
      OpenEffects env s round_id before
        (record (open_round env u round_id) { oracles = insert env.caller status u.oracles })
initialize-OpenEffects env s round_id {u} before known h new =
    let (oracles, fresh, funds) = settle-rest env s round_id h in
    let status : OracleStatus = record before { last_started_round = round_id } in
    record {
      status = status;
      changes = record {
        found = get-insert_self env.caller status u.oracles;
        others = λ k ne. ground (arith, get-insert k env.caller status u.oracles);
      };
      rewards = refl;
      funds = funds;
      listed = ground (arith, fresh, get-insert_self round_id (fresh_details u) u.details);
    }

same-OpenEffects :
    (env : Env) (s : State) (round_id : ℕ) (before : OracleStatus)
    → get env.caller s.oracles ≡ some before
    → opens_round s before round_id ≡ false
    → OpenEffects env s round_id before s
same-OpenEffects env s round_id before known old = record {
  status = before;
  changes = record { found = known; others = λ k ne. refl };
  rewards = refl;
  funds = refl;
  listed = ground arith;
}

pub opens-OpenEffects :
    (env : Env) (s : State) (round_id : ℕ) {o : State} (before : OracleStatus)
    → get env.caller s.oracles ≡ some before
    → oracle_initialize_new_round env s round_id ≡ ok o
    → OpenEffects env s round_id before o
unfolding oracle_initialize_new_round initialize_new_round
opens-OpenEffects env s round_id {o} before known h =
    elim (Bool-cases (opens_round s before round_id)) [
      | inr old ↦
          let same : o ≡ s = ground arith in
          rw same (same-OpenEffects env s round_id before known old)
      | inl new ↦ elim (Result-cases (settle_last_round env s round_id)) [
        | inr (m, e) ↦ absurd (ground arith)
        | inl (u, e) ↦
            let status : OracleStatus = record before { last_started_round = round_id } in
            let opened : o ≡ record (open_round env u round_id) {
              oracles = insert env.caller status u.oracles;
            } =
              ground arith in
            rw opened (initialize-OpenEffects env s round_id before known e new)
      ]
    ]

-- What the record of a submission writes.
pub record RecordEffects (env : Env) (s : State) (values : List ℕ) (round_id : ℕ)
    (before : OracleStatus) (t : State) : Type 0 where
  pub changes :
      Changes env.caller before
        (record before {
          last_reported_round = round_id;
          latest_submission = some (record { values = values });
        })
        s
        t
  pub funds : t.recorded_funds ≡ s.recorded_funds
  pub details : RoundDetails
  pub detailed : get round_id s.details ≡ some details
  pub listed :
      get round_id t.details
      ≡ some
          (record details { submissions = details.submissions ++ record { values = values } ∷ [] })

pub record-RecordEffects :
    (env : Env) (s : State) (values : List ℕ) (round_id : ℕ) {t : State} (before : OracleStatus)
    → get env.caller s.oracles ≡ some before
    → record_submission env s (record { values = values }) round_id ≡ ok t
    → RecordEffects env s values round_id before t
unfolding record_submission
record-RecordEffects env s values round_id {t} before known h =
    elim (Option-cases (get round_id s.details)) [
      | inl d ↦ absurd (ground arith)
      | inr (details, d) ↦
          let submission : Submission = record { values = values } in
          let status : OracleStatus = record before {
            last_reported_round = round_id;
            latest_submission = some submission;
          } in
          let oracles : t.oracles ≡ insert env.caller status s.oracles = ground arith in
          let full : RoundDetails = record details {
            submissions = details.submissions ++ submission ∷ [];
          } in
          let rounds : t.details ≡ insert round_id full s.details = ground arith in
          record {
            changes = record {
              found = rw oracles (get-insert_self env.caller status s.oracles);
              others = λ k ne. ground (arith, get-insert k env.caller status s.oracles);
            };
            funds = ground arith;
            details = details;
            detailed = d;
            listed = rw rounds (get-insert_self round_id full s.details);
          }
    ]

pub answer-rest :
    (env : Env) (s : State) (round_id : ℕ) {t : State}
    → update_round_answer env s round_id ≡ ok t
    → (t.oracles ≡ s.oracles) × (t.details ≡ s.details) × (t.recorded_funds ≡ s.recorded_funds)
unfolding update_round_answer
answer-rest env s round_id h = ground arith

pub delete-rest :
    (s : State) (round_id : ℕ)
    → let t = delete_round_details s round_id in
      (t.oracles ≡ s.oracles) × (t.recorded_funds ≡ s.recorded_funds)
unfolding delete_round_details
delete-rest s round_id = ground arith
