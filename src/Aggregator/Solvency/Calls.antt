-- ===== src/Aggregator/Solvency/Calls.antt =====
-- The books under a whole submission and under the owner's and the admins' endpoints.
use sc_chainlink_rs.Prelude.{
  ℕ, ◌∙◌, ◌+◌, ◌≤◌, ◌≡◌, Bool, List, [], ◌∷◌, none, some, arith, nat_eq, Option-cases, inl, inr,
}
use sc_chainlink_rs.Framework.{ok, Env, Framework, Result-cases}
use sc_chainlink_rs.Framework.Map.{get, remove}
use sc_chainlink_rs.Framework.Map.Laws.{total-insert, total-remove-le}
use sc_chainlink_rs.Aggregator.State.{State, OracleStatus}
use sc_chainlink_rs.Aggregator.Reads.{get_starting_round}
use sc_chainlink_rs.Aggregator.Rounds.{initialize_new_round}
use sc_chainlink_rs.Aggregator.Submit.{submit, delete_round_details}
use sc_chainlink_rs.Aggregator.Submit.Parts.{submit-parts}
use sc_chainlink_rs.Aggregator.Admin.{
  update_future_rounds_internal, update_future_rounds, init, remove_oracles, new_oracle, add_oracle,
  add_oracles, change_oracles, transfer_admin, accept_admin, set_requester_permissions,
}
use sc_chainlink_rs.Aggregator.Solvency.{owed, IsFunded}
use sc_chainlink_rs.Aggregator.Solvency.Parts.{
  SameFunds, rewrite_status, oracle_initialize-SameFunds, record_submission-SameFunds,
  update_round_answer-SameFunds, delete_round_details-SameFunds,
}
use sc_chainlink_rs.Aggregator.Solvency.Endpoints.{Books, SameFunds-Books, pay_oracle-Books}

pub submit-Books :
    ⦃fw : Framework⦄ (env : Env) (s : State) (round_id : ℕ) (values : List ℕ) {t : State}
    → IsFunded s
    → submit env s round_id values ≡ ok t
    → Books s t 0 0
submit-Books env s round_id values f h =
    let p = submit-parts env s round_id values h in
    let b₁ = SameFunds-Books s p.opened (oracle_initialize-SameFunds env s round_id p.opens) f in
    let b₂ =
      SameFunds-Books p.opened p.recorded
        (record_submission-SameFunds env p.opened (record { values = values }) round_id p.records)
        b₁.funded in
    let b₃ =
      SameFunds-Books p.recorded p.answered
        (update_round_answer-SameFunds env p.recorded round_id p.answers) b₂.funded in
    let b₄ = pay_oracle-Books env p.answered round_id b₃.funded p.pays in
    let b₅ =
      SameFunds-Books p.paid (delete_round_details p.paid round_id)
        (delete_round_details-SameFunds p.paid round_id) b₄.funded in
    rw p.deletes (record {
      funded = b₅.funded;
      token = b₅.token ∙ b₄.token ∙ b₃.token ∙ b₂.token ∙ b₁.token;
      moved = omega arith;
    })

-- The oracles may together withdraw at most as much as before; the rest of the books is unchanged.
record OwesLess (s t : State) : Type 0 where
  funds : t.recorded_funds ≡ s.recorded_funds
  deposits : t.deposits ≡ s.deposits
  less : owed t ≤ owed s
  token : t.token_id ≡ s.token_id

OwesLess-Books : (s t : State) → OwesLess s t → IsFunded s → Books s t 0 0
OwesLess-Books s t l f = ground arith

remove_oracles-OwesLess : (s : State) (removed : List ℕ) → OwesLess s (remove_oracles s removed)
unfolding remove_oracles
remove_oracles-OwesLess s [] = ground arith
remove_oracles-OwesLess s (o ∷ removed) = ground (
  arith,
  remove_oracles-OwesLess (record s { oracles = remove o s.oracles }) removed,
  total-remove-le (λ (status : OracleStatus). status.withdrawable) o s.oracles,
)

add_oracle-SameFunds :
    (s : State) (oracle admin : ℕ) {t : State} → add_oracle s oracle admin ≡ ok t → SameFunds s t
unfolding add_oracle
add_oracle-SameFunds s oracle admin h = ground (
  arith,
  total-insert (λ (status : OracleStatus). status.withdrawable) oracle
      (new_oracle (get_starting_round s oracle) admin) s.oracles,
)

add_oracles-SameFunds :
    (s : State) (added admins : List ℕ) {t : State}
    → add_oracles s added admins ≡ ok t
    → SameFunds s t
unfolding add_oracles
add_oracles-SameFunds s (o ∷ added) (a ∷ admins) {t} h = elim (Result-cases (add_oracle s o a)) [
  | inr (m, e) ↦ ground arith
  | inl (s', e) ↦
      ground (arith, add_oracle-SameFunds s o a e, add_oracles-SameFunds s' added admins {t = t})
]
add_oracles-SameFunds s _ _ h = ground arith

update_internal-SameFunds :
    (s : State) (payment min_submissions max_submissions restart_delay timeout : ℕ) {t : State}
    → update_future_rounds_internal s payment min_submissions max_submissions restart_delay timeout
      ≡ ok t
    → SameFunds s t
unfolding update_future_rounds_internal
update_internal-SameFunds s payment lo hi delay timeout h = ground arith

pub update_future_rounds-SameFunds :
    (env : Env) (s : State) (payment lo hi delay timeout : ℕ) {t : State}
    → update_future_rounds env s payment lo hi delay timeout ≡ ok t
    → SameFunds s t
unfolding update_future_rounds
update_future_rounds-SameFunds env s payment lo hi delay timeout {t} h =
    ground (arith, update_internal-SameFunds s payment lo hi delay timeout {t = t})

pub change_oracles-Books :
    (env : Env) (s : State) (removed added admins : List ℕ) (lo hi delay : ℕ) {t : State}
    → IsFunded s
    → change_oracles env s removed added admins lo hi delay ≡ ok t
    → Books s t 0 0
unfolding change_oracles
change_oracles-Books env s removed added admins lo hi delay {t} f h =
    let s₁ = remove_oracles s removed in
    elim (Result-cases (add_oracles s₁ added admins)) [
      | inr (m, e) ↦ ground arith
      | inl (s₂, e) ↦ ground (
        arith,
        remove_oracles-OwesLess s removed,
        add_oracles-SameFunds s₁ added admins e,
        update_internal-SameFunds s₂ s₂.payment_amount lo hi delay s₂.timeout {t = t},
      )
    ]

pub transfer_admin-SameFunds :
    (env : Env) (s : State) (oracle new_admin : ℕ) {t : State}
    → transfer_admin env s oracle new_admin ≡ ok t
    → SameFunds s t
unfolding transfer_admin
transfer_admin-SameFunds env s oracle new_admin h = elim (Option-cases (get oracle s.oracles)) [
  | inl g ↦ ground arith
  | inr (old, g) ↦
      ground
        (arith, rewrite_status oracle s.oracles old (record old { pending_admin = some new_admin }))
]

pub accept_admin-SameFunds :
    (env : Env) (s : State) (oracle : ℕ) {t : State}
    → accept_admin env s oracle ≡ ok t
    → SameFunds s t
unfolding accept_admin
accept_admin-SameFunds env s oracle h = elim (Option-cases (get oracle s.oracles)) [
  | inl g ↦ ground arith
  | inr (old, g) ↦ ground (
    arith,
    rewrite_status oracle s.oracles old (record old { pending_admin = none; admin = env.caller }),
  )
]

pub set_requester_permissions-SameFunds :
    (env : Env) (s : State) (requester : ℕ) (authorized : Bool) (delay : ℕ) {t : State}
    → set_requester_permissions env s requester authorized delay ≡ ok t
    → SameFunds s t
unfolding set_requester_permissions
set_requester_permissions-SameFunds env s requester authorized delay h = ground arith

-- A contract starts with empty books.
pub init-IsFunded :
    (env : Env) (token : List ℕ) (payment timeout low high decimals : ℕ) (description : List ℕ)
    (values_count : ℕ) {t : State}
    → init env token payment timeout low high decimals description values_count ≡ ok t
    → IsFunded t
      × (t.recorded_funds.available + t.recorded_funds.allocated ≡ 0)
      × (t.token_id ≡ token)
unfolding init update_future_rounds_internal initialize_new_round
init-IsFunded env token payment timeout low high decimals description values_count h = ground arith
