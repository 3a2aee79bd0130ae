-- ===== src/Aggregator/Solvency/World.antt =====
-- The books of aggregator/src/lib.rs under one call, and the contract in its world under many.
use sc_chainlink_rs.Prelude.{
  ℕ, ◌+◌, ◌≤◌, ◌≡◌, ◌≢◌, refl, sym, ap, ◌∙◌, List, bytes_eq, arith, inl, inr,
}
use sc_chainlink_rs.Framework.{Holdings, ok, Env, Framework}
use sc_chainlink_rs.Framework.Holdings.{carry_out, sent, carry_out-sent, carry_out-le}
use mathlib.Core.Path.{subst}
use sc_chainlink_rs.Aggregator.State.{State}
use sc_chainlink_rs.Aggregator.Admin.{init}
use sc_chainlink_rs.Aggregator.Calls.{
  Call, add_funds_call, submit_call, change_oracles_call, update_future_rounds_call,
  withdraw_payment_call, withdraw_funds_call, transfer_admin_call, accept_admin_call,
  request_new_round_call, set_requester_permissions_call, Outcome, perform, paid_in, receive, World,
  Step, accept, reject, Reach, here, next,
}
use sc_chainlink_rs.Aggregator.Solvency.{IsFunded}
use sc_chainlink_rs.Aggregator.Solvency.Endpoints.{Books}
use sc_chainlink_rs.Aggregator.Solvency.Calls.{init-IsFunded}
use sc_chainlink_rs.Aggregator.Solvency.Tokens.{own-Books, other-tokens, bytes_cases}

module _ ⦃fw : Framework⦄ where
  -- Every accepted call keeps the books in order: the available and the allocated funds together
  -- change by exactly what the call brought in and what it sent out of the token of the contract,
  -- which stays the same; of any other token nothing comes in and nothing is sent.
  pub perform-Books :
      (env : Env) (s : State) (call : Call) {o : Outcome}
      → IsFunded s
      → perform env s call ≡ ok o
      → Books s o.state (paid_in call s.token_id) (sent o.transfers s.token_id)
        × ((other : List ℕ)
            → other ≢ s.token_id
            → (paid_in call other ≡ 0) × (sent o.transfers other ≡ 0))
  perform-Books env s call f h = (own-Books env s call f h, other-tokens env s call f h)

  -- the books are in order, and what they record is what the contract holds
  pub record IsSolvent (w : World) : Type 0 where
    pub funded : IsFunded w.state
    pub backed :
        w.held w.state.token_id
        ≡ w.state.recorded_funds.available + w.state.recorded_funds.allocated
    pub nothing_else : (other : List ℕ) → other ≢ w.state.token_id → w.held other ≡ 0

  receive-paid_in :
      (held : Holdings) (call : Call) (token : List ℕ)
      → receive held call token ≡ held token + paid_in call token
  receive-paid_in held (add_funds_call payment paid) token = ground arith
  receive-paid_in held (submit_call round_id values) token = omega arith
  receive-paid_in held (change_oracles_call removed added admins lo hi delay) token = omega arith
  receive-paid_in held (update_future_rounds_call payment lo hi delay timeout) token = omega arith
  receive-paid_in held (withdraw_payment_call oracle recipient amount) token = omega arith
  receive-paid_in held (withdraw_funds_call amount) token = omega arith
  receive-paid_in held (transfer_admin_call oracle new_admin) token = omega arith
  receive-paid_in held (accept_admin_call oracle) token = omega arith
  receive-paid_in held request_new_round_call token = omega arith
  receive-paid_in held (set_requester_permissions_call requester authorized delay) token =
      omega arith

  Step-IsSolvent : {w v : World} → IsSolvent w → Step w v → IsSolvent v
  Step-IsSolvent {w} h (accept env call o held run carried) =
      let (b, others) = perform-Books env w.state call h.funded run in
      let own = w.state.token_id in
      let kept = carry_out-sent (receive w.held call) o.transfers carried in
      record {
        funded = b.funded;
        backed =
            ap held b.token
            ∙ omega (arith, kept own, receive-paid_in w.held call own, b.moved, h.backed);
        nothing_else = λ other differs.
            let differs' : other ≢ own = λ e. differs (e ∙ sym b.token) in
            omega (
              arith,
              kept other,
              receive-paid_in w.held call other,
              others other differs',
              h.nothing_else other differs',
            );
      }
  Step-IsSolvent h reject = h

  pub Reach-IsSolvent : {w v : World} → IsSolvent w → Reach w v → IsSolvent v
  Reach-IsSolvent h here = h
  Reach-IsSolvent h (next r st) = Step-IsSolvent (Reach-IsSolvent h r) st

  -- Every contract that `init` accepted, holding no tokens yet, is solvent after any calls by
  -- anyone in any order: of its token it holds exactly its available and its allocated funds, of
  -- any other token it holds nothing, the deposits make up the available funds, and the allocated
  -- funds cover what the oracles may withdraw. Payments and transfers count in their own token.
  pub deployed-IsSolvent :
      (env : Env) (token : List ℕ) (payment timeout low high decimals : ℕ) (description : List ℕ)
      (values_count : ℕ) {s : State} {v : World}
      → init env token payment timeout low high decimals description values_count ≡ ok s
      → Reach (record { held = λ any. 0; state = s }) v
      → IsSolvent v
  deployed-IsSolvent env token payment timeout low high decimals description values_count h r =
      let (funded, zero_funds, same) =
        init-IsFunded env token payment timeout low high decimals description values_count h in
      Reach-IsSolvent
        (record { funded = funded; backed = sym zero_funds; nothing_else = λ other differs. refl })
        r

  -- In a solvent contract every transfer of an accepted call is carried out: no transfer of any
  -- token asks for more than is held once the payment of the call has come in.
  pub carry_out-solvent :
      (w : World) (env : Env) (call : Call) {o : Outcome}
      → IsSolvent w
      → perform env w.state call ≡ ok o
      → (left : Holdings) × (carry_out (receive w.held call) o.transfers ≡ ok left)
  carry_out-solvent w env call {o} h run =
      let (b, others) = perform-Books env w.state call h.funded run in
      let own = w.state.token_id in
      carry_out-le (receive w.held call) o.transfers λ token. elim (bytes_cases token own) [
        | inl e ↦
            subst (λ k. sent o.transfers k ≤ receive w.held call k) (sym e)
              (omega (arith, receive-paid_in w.held call own, b.moved, h.backed))
        | inr differs ↦ omega (arith, others token differs)
      ]
