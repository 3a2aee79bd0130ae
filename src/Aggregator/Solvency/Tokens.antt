-- ===== src/Aggregator/Solvency/Tokens.antt =====
-- What each call of the Aggregator brings in and sends out, token by token.
use sc_chainlink_rs.Prelude.{
  ℕ, ◌≡◌, ◌≢◌, ◌⊎◌, List, [], ◌==◌, bytes_eq, Bool-cases, arith, inl, inr,
}
use sc_chainlink_rs.Framework.{Result, ok, err, Env, Framework, Result-cases}
use sc_chainlink_rs.Framework.Holdings.{sent}
use sc_chainlink_rs.Aggregator.State.{State}
use sc_chainlink_rs.Aggregator.Rounds.{request_new_round}
use sc_chainlink_rs.Aggregator.Funds.{add_funds, withdraw_payment, withdraw_funds}
use sc_chainlink_rs.Aggregator.Submit.{submit}
use sc_chainlink_rs.Aggregator.Admin.{
  change_oracles, update_future_rounds, transfer_admin, accept_admin, set_requester_permissions,
}
use sc_chainlink_rs.Aggregator.Calls.{
  Call, add_funds_call, submit_call, change_oracles_call, update_future_rounds_call,
  withdraw_payment_call, withdraw_funds_call, transfer_admin_call, accept_admin_call,
  request_new_round_call, set_requester_permissions_call, Outcome, perform, paid_in, silent, fmap,
}
use sc_chainlink_rs.Aggregator.Solvency.{IsFunded}
use sc_chainlink_rs.Aggregator.Solvency.Parts.{request_new_round-SameFunds}
use sc_chainlink_rs.Aggregator.Solvency.Endpoints.{
  Books, SameFunds-Books, add_funds-Books, withdraw_funds-Books, withdraw_payment-Books,
}
use sc_chainlink_rs.Aggregator.Solvency.Calls.{
  submit-Books, change_oracles-Books, update_future_rounds-SameFunds, transfer_admin-SameFunds,
  accept_admin-SameFunds, set_requester_permissions-SameFunds,
}

-- A call that ends silently sends nothing.
pub silent-transfers :
    {A : Type 0} (f : A → State) (r : Result A) {o : Outcome}
    → fmap (λ a. silent (f a)) r ≡ ok o
    → o.transfers ≡ []
silent-transfers f (ok a) h = ground arith
silent-transfers f (err e) h = ground arith

module _ ⦃fw : Framework⦄ where
  pub own-Books :
      (env : Env) (s : State) (call : Call) {o : Outcome}
      → IsFunded s
      → perform env s call ≡ ok o
      → Books s o.state (paid_in call s.token_id) (sent o.transfers s.token_id)
  unfolding perform
  own-Books env s (add_funds_call payment token) f h =
      elim (Result-cases (add_funds env s payment token)) [
        | inr (m, e) ↦ ground arith
        | inl (t, e) ↦
            ground
              (arith, add_funds-Books env s payment token f e, bytes_eq.beq_law s.token_id token)
      ]
  own-Books env s (submit_call round_id values) f h =
      elim (Result-cases (submit env s round_id values)) [
        | inr (m, e) ↦ ground arith
        | inl (t, e) ↦ ground (arith, submit-Books env s round_id values f e)
      ]
  own-Books env s (change_oracles_call removed added admins lo hi delay) f h =
      elim (Result-cases (change_oracles env s removed added admins lo hi delay)) [
        | inr (m, e) ↦ ground arith
        | inl (t, e) ↦
            ground (arith, change_oracles-Books env s removed added admins lo hi delay f e)
      ]
  own-Books env s (update_future_rounds_call payment lo hi delay timeout) f h =
      elim (Result-cases (update_future_rounds env s payment lo hi delay timeout)) [
        | inr (m, e) ↦ ground arith
        | inl (t, e) ↦ ground (
          arith,
          SameFunds-Books s t (update_future_rounds-SameFunds env s payment lo hi delay timeout e)
              f,
        )
      ]
  own-Books env s (withdraw_payment_call oracle recipient amount) f h =
      elim (Result-cases (withdraw_payment env s oracle recipient amount)) [
        | inr (m, e) ↦ ground arith
        | inl (r, e) ↦ ground (
          arith,
          withdraw_payment-Books env s oracle recipient amount f e,
          bytes_eq.beq_law s.token_id r.0.token,
        )
      ]
  own-Books env s (withdraw_funds_call amount) f h =
      elim (Result-cases (withdraw_funds env s amount)) [
        | inr (m, e) ↦ ground arith
        | inl (r, e) ↦
            ground
              (arith, withdraw_funds-Books env s amount f e, bytes_eq.beq_law s.token_id r.0.token)
      ]
  own-Books env s (transfer_admin_call oracle new_admin) f h =
      elim (Result-cases (transfer_admin env s oracle new_admin)) [
        | inr (m, e) ↦ ground arith
        | inl (t, e) ↦
            ground
              (arith, SameFunds-Books s t (transfer_admin-SameFunds env s oracle new_admin e) f)
      ]
  own-Books env s (accept_admin_call oracle) f h = elim (Result-cases (accept_admin env s oracle)) [
    | inr (m, e) ↦ ground arith
    | inl (t, e) ↦ ground (arith, SameFunds-Books s t (accept_admin-SameFunds env s oracle e) f)
  ]
  own-Books env s request_new_round_call f h = elim (Result-cases (request_new_round env s)) [
    | inr (m, e) ↦ ground arith
    | inl (r, e) ↦ ground (arith, SameFunds-Books s r.1 (request_new_round-SameFunds env s e) f)
  ]
  own-Books env s (set_requester_permissions_call requester authorized delay) f h =
      elim (Result-cases (set_requester_permissions env s requester authorized delay)) [
        | inr (m, e) ↦ ground arith
        | inl (t, e) ↦ ground (
          arith,
          SameFunds-Books s t
              (set_requester_permissions-SameFunds env s requester authorized delay e) f,
        )
      ]

  pub bytes_cases : (a b : List ℕ) → (a ≡ b) ⊎ (a ≢ b)
  bytes_cases a b = elim (Bool-cases (a == b)) [
    | inl e ↦ inl ((bytes_eq.beq_law a b).0 e)
    | inr e ↦ inr (λ same. absurd (ground (arith, (bytes_eq.beq_law a b).1 same)))
  ]

  -- a call moves no token but that of the contract
  pub other-tokens :
      (env : Env) (s : State) (call : Call) {o : Outcome}
      → IsFunded s
      → perform env s call ≡ ok o
      → (other : List ℕ) → other ≢ s.token_id
      → (paid_in call other ≡ 0) × (sent o.transfers other ≡ 0)
  unfolding perform
  other-tokens env s (add_funds_call payment token) f h other differs =
      elim (Result-cases (add_funds env s payment token)) [
        | inr (m, e) ↦ ground arith
        | inl (t, e) ↦
            ground (arith, add_funds-Books env s payment token f e, bytes_eq.beq_law other token)
      ]
  other-tokens env s (withdraw_payment_call oracle recipient amount) f h other differs =
      elim (Result-cases (withdraw_payment env s oracle recipient amount)) [
        | inr (m, e) ↦ ground arith
        | inl (r, e) ↦ ground (
          arith,
          withdraw_payment-Books env s oracle recipient amount f e,
          bytes_eq.beq_law other r.0.token,
        )
      ]
  other-tokens env s (withdraw_funds_call amount) f h other differs =
      elim (Result-cases (withdraw_funds env s amount)) [
        | inr (m, e) ↦ ground arith
        | inl (r, e) ↦
            ground (arith, withdraw_funds-Books env s amount f e, bytes_eq.beq_law other r.0.token)
      ]
  other-tokens env s (submit_call round_id values) f h other differs =
      ground (arith, silent-transfers (λ t. t) (submit env s round_id values) h)
  other-tokens env s (change_oracles_call removed added admins lo hi delay) f h other differs =
      ground
        (arith, silent-transfers (λ t. t) (change_oracles env s removed added admins lo hi delay) h)
  other-tokens env s (update_future_rounds_call payment lo hi delay timeout) f h other differs =
      ground (
        arith,
        silent-transfers (λ t. t) (update_future_rounds env s payment lo hi delay timeout) h,
      )
  other-tokens env s (transfer_admin_call oracle new_admin) f h other differs =
      ground (arith, silent-transfers (λ t. t) (transfer_admin env s oracle new_admin) h)
  other-tokens env s (accept_admin_call oracle) f h other differs =
      ground (arith, silent-transfers (λ t. t) (accept_admin env s oracle) h)
  other-tokens env s request_new_round_call f h other differs =
      ground (arith, silent-transfers (λ r. r.1) (request_new_round env s) h)
  other-tokens env s (set_requester_permissions_call requester authorized delay) f h other differs =
      ground (
        arith,
        silent-transfers (λ t. t) (set_requester_permissions env s requester authorized delay) h,
      )
