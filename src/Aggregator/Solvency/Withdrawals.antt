-- ===== src/Aggregator/Solvency/Withdrawals.antt =====
-- Who receives the transfers of aggregator/src/lib.rs, and what they are taken from.
use sc_chainlink_rs.Prelude.{
  ℕ, ◌+◌, ◌-◌, ◌≤◌, ◌≡◌, ◌≢◌, [], some, arith, inl, inr, nat_eq, bytes_eq, Option-cases, All, sym,
  ◌∙◌, ◌==◌, if◌then◌else◌,
}
use mathlib.Core.Path.{subst}
use sc_chainlink_rs.Framework.{ok, Env, Transfer, Framework, Result-cases}
use sc_chainlink_rs.Framework.Map.{get, insert}
use sc_chainlink_rs.Framework.Map.Laws.{get-insert, get-insert_self, get-remove}
use sc_chainlink_rs.Aggregator.State.{State, OracleStatus}
use sc_chainlink_rs.Aggregator.Reads.{required_reserve}
use sc_chainlink_rs.Aggregator.Rounds.{request_new_round}
use sc_chainlink_rs.Aggregator.Funds.{
  get_deposit, set_deposit, add_funds, withdraw_payment, withdraw_funds,
}
use sc_chainlink_rs.Aggregator.Submit.{submit}
use sc_chainlink_rs.Aggregator.Admin.{
  change_oracles, update_future_rounds, transfer_admin, accept_admin, set_requester_permissions,
}
use sc_chainlink_rs.Aggregator.Calls.{
  Call, add_funds_call, submit_call, change_oracles_call, update_future_rounds_call,
  withdraw_payment_call, withdraw_funds_call, transfer_admin_call, accept_admin_call,
  request_new_round_call, set_requester_permissions_call, sending, Outcome, perform,
}
use sc_chainlink_rs.Aggregator.Solvency.Tokens.{silent-transfers}

-- The call is a withdrawal that its caller may make, in the token of the contract: of the rewards
-- of an oracle by its admin, to the recipient of the call, or of the caller's own deposit, to the
-- caller, out of what the reserve leaves. It reduces what is withdrawn from by what it sends, and
-- no other oracle's rewards or account's deposit.
pub data IsEntitled (env : Env) (s : State) (call : Call) (s' : State) (t : Transfer) : Type 0 where
  reward :
      (oracle : ℕ) (before after : OracleStatus)
      → call ≡ withdraw_payment_call oracle t.to t.amount
      → t.token ≡ s.token_id
      → get oracle s.oracles ≡ some before
      → before.admin ≡ env.caller
      → get oracle s'.oracles ≡ some after
      → after.withdrawable + t.amount ≡ before.withdrawable
      → ((other : ℕ) → other ≢ oracle → get other s'.oracles ≡ get other s.oracles)
      → s'.deposits ≡ s.deposits
      → IsEntitled env s call s' t
  own_deposit :
      call ≡ withdraw_funds_call t.amount
      → t.token ≡ s.token_id
      → t.to ≡ env.caller
      → get_deposit s' env.caller + t.amount ≡ get_deposit s env.caller
      → required_reserve s s.payment_amount + t.amount ≤ s.recorded_funds.available
      → ((other : ℕ) → other ≢ env.caller → get_deposit s' other ≡ get_deposit s other)
      → s'.oracles ≡ s.oracles
      → IsEntitled env s call s' t

get_deposit-set_deposit :
    (s : State) (account amount other : ℕ)
    → get_deposit (set_deposit s account amount) other
      ≡ (if other == account then amount else get_deposit s other)
unfolding get_deposit set_deposit
get_deposit-set_deposit s account amount other =
    ground (arith, get-insert other account amount s.deposits, get-remove other account s.deposits)

get_deposit-same :
    (s t : State) (other : ℕ) → t.deposits ≡ s.deposits → get_deposit t other ≡ get_deposit s other
unfolding get_deposit
get_deposit-same s t other e = ground arith

nothing-IsEntitled :
    (env : Env) (s : State) (call : Call) (o : Outcome)
    → o.transfers ≡ []
    → All (IsEntitled env s call o.state) o.transfers
nothing-IsEntitled env s call o e = rw e tt

module _ ⦃fw : Framework⦄ where
  withdraw_payment-IsEntitled :
      (env : Env) (s : State) (oracle recipient amount : ℕ) {r : Transfer × State}
      → withdraw_payment env s oracle recipient amount ≡ ok r
      → IsEntitled env s (withdraw_payment_call oracle recipient amount) r.1 r.0
  unfolding withdraw_payment
  withdraw_payment-IsEntitled env s oracle recipient amount {r} h =
      elim (Option-cases (get oracle s.oracles)) [
        | inl g ↦ absurd (ground arith)
        | inr (old, g) ↦
            let new : OracleStatus = record old { withdrawable = old.withdrawable - amount } in
            let written : r.1.oracles ≡ insert oracle new s.oracles =
              ground (arith, fw.sub_le old.withdrawable amount) in
            reward oracle old new (ground arith) (ground arith) g (ground arith)
              (rw written (get-insert_self oracle new s.oracles)) (ground arith)
              (λ other differs. ground (arith, get-insert other oracle new s.oracles))
              (ground arith)
      ]

  withdraw_funds-IsEntitled :
      (env : Env) (s : State) (amount : ℕ) {r : Transfer × State}
      → withdraw_funds env s amount ≡ ok r
      → IsEntitled env s (withdraw_funds_call amount) r.1 r.0
  unfolding withdraw_funds
  withdraw_funds-IsEntitled env s amount {r} h =
      let deposit = get_deposit s env.caller in
      let free = fw.sub_le s.recorded_funds.available (required_reserve s s.payment_amount) in
      let short = fw.sub_lt s.recorded_funds.available (required_reserve s s.payment_amount) in
      let left = fw.sub_le deposit amount in
      let covers : amount ≤ deposit = ground arith in
      let written : r.1.deposits ≡ (set_deposit s env.caller (deposit - amount)).deposits =
        unfold set_deposit in ground (arith, left) in
      let reads = λ (other : ℕ).
        get_deposit-same (set_deposit s env.caller (deposit - amount)) r.1 other written
        ∙ get_deposit-set_deposit s env.caller (deposit - amount) other in
      own_deposit (ground arith) (ground arith) (ground arith)
        (ground (arith, reads env.caller, covers)) (ground (arith, free, short))
        (λ other differs. ground (arith, reads other)) (unfold set_deposit in ground (arith, left))

  -- Every transfer of an accepted call is a withdrawal that its caller may make: of the rewards of
  -- an oracle by its admin, sent to the recipient of the call, or of the caller's own deposit, sent
  -- to the caller, out of what the reserve leaves. It is in the token of the contract, reduces what
  -- it is withdrawn from by exactly its amount, and takes from no other oracle and no other deposit.
  pub transfers-IsEntitled :
      (env : Env) (s : State) (call : Call) {o : Outcome}
      → perform env s call ≡ ok o
      → All (IsEntitled env s call o.state) o.transfers
  unfolding perform
  transfers-IsEntitled env s (withdraw_payment_call oracle recipient amount) {o} h =
      elim (Result-cases (withdraw_payment env s oracle recipient amount)) [
        | inr (m, e) ↦ absurd (ground arith)
        | inl (r, e) ↦
            let same : o ≡ sending r = ground arith in
            subst
              (λ (x : Outcome).
                All (IsEntitled env s (withdraw_payment_call oracle recipient amount) x.state)
                  x.transfers)
              (sym same) (withdraw_payment-IsEntitled env s oracle recipient amount e, tt)
      ]
  transfers-IsEntitled env s (withdraw_funds_call amount) {o} h =
      elim (Result-cases (withdraw_funds env s amount)) [
        | inr (m, e) ↦ absurd (ground arith)
        | inl (r, e) ↦
            let same : o ≡ sending r = ground arith in
            subst
              (λ (x : Outcome).
                All (IsEntitled env s (withdraw_funds_call amount) x.state) x.transfers)
              (sym same) (withdraw_funds-IsEntitled env s amount e, tt)
      ]
  transfers-IsEntitled env s (add_funds_call payment token) {o} h =
      nothing-IsEntitled env s (add_funds_call payment token) o
        (silent-transfers (λ t. t) (add_funds env s payment token) h)
  transfers-IsEntitled env s (submit_call round_id values) {o} h =
      nothing-IsEntitled env s (submit_call round_id values) o
        (silent-transfers (λ t. t) (submit env s round_id values) h)
  transfers-IsEntitled env s (change_oracles_call removed added admins lo hi delay) {o} h =
      nothing-IsEntitled env s (change_oracles_call removed added admins lo hi delay) o
        (silent-transfers (λ t. t) (change_oracles env s removed added admins lo hi delay) h)
  transfers-IsEntitled env s (update_future_rounds_call payment lo hi delay timeout) {o} h =
      nothing-IsEntitled env s (update_future_rounds_call payment lo hi delay timeout) o
        (silent-transfers (λ t. t) (update_future_rounds env s payment lo hi delay timeout) h)
  transfers-IsEntitled env s (transfer_admin_call oracle new_admin) {o} h =
      nothing-IsEntitled env s (transfer_admin_call oracle new_admin) o
        (silent-transfers (λ t. t) (transfer_admin env s oracle new_admin) h)
  transfers-IsEntitled env s (accept_admin_call oracle) {o} h =
      nothing-IsEntitled env s (accept_admin_call oracle) o
        (silent-transfers (λ t. t) (accept_admin env s oracle) h)
  transfers-IsEntitled env s (set_requester_permissions_call requester authorized delay) {o} h =
      nothing-IsEntitled env s (set_requester_permissions_call requester authorized delay) o
        (silent-transfers (λ t. t) (set_requester_permissions env s requester authorized delay) h)
  transfers-IsEntitled env s request_new_round_call {o} h =
      nothing-IsEntitled env s request_new_round_call o
        (silent-transfers (λ r. r.1) (request_new_round env s) h)
