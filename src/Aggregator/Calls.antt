-- ===== src/Aggregator/Calls.antt =====
-- The endpoints of aggregator/src/lib.rs as one type of calls, and the contract in its world: what
-- it holds of each token beside its storage, and the steps that calls make.
use sc_chainlink_rs.Prelude.{ℕ, ◌≡◌, Bool, List, [], ◌∷◌, ◌==◌, bytes_eq, if◌then◌else◌}
use sc_chainlink_rs.Framework.{Holdings, credit, Result, ok, err, Env, Transfer, Framework}
use sc_chainlink_rs.Framework.Holdings.{carry_out}
use sc_chainlink_rs.Aggregator.State.{State}
use sc_chainlink_rs.Aggregator.Rounds.{request_new_round}
use sc_chainlink_rs.Aggregator.Funds.{add_funds, withdraw_payment, withdraw_funds}
use sc_chainlink_rs.Aggregator.Submit.{submit}
use sc_chainlink_rs.Aggregator.Admin.{
  change_oracles, update_future_rounds, transfer_admin, accept_admin, set_requester_permissions,
}

-- the endpoints that write, with their arguments
pub data Call : Type 0 where
  add_funds_call : ℕ → List ℕ → Call
  submit_call : ℕ → List ℕ → Call
  change_oracles_call : List ℕ → List ℕ → List ℕ → ℕ → ℕ → ℕ → Call
  update_future_rounds_call : ℕ → ℕ → ℕ → ℕ → ℕ → Call
  withdraw_payment_call : ℕ → ℕ → ℕ → Call
  withdraw_funds_call : ℕ → Call
  transfer_admin_call : ℕ → ℕ → Call
  accept_admin_call : ℕ → Call
  request_new_round_call : Call
  set_requester_permissions_call : ℕ → Bool → ℕ → Call

-- what a call that is not rejected leaves: the storage, and the transfers it sent
pub record Outcome : Type 0 where
  pub state : State
  pub transfers : List Transfer

abbrev pub silent : State → Outcome
silent t = record { state = t; transfers = [] }

abbrev pub sending : Transfer × State → Outcome
sending r = record { state = r.1; transfers = r.0 ∷ [] }

abbrev pub fmap : {A B : Type 0} → (A → B) → Result A → Result B
fmap f (ok a) = ok (f a)
fmap f (err e) = err e

unfoldable pub perform : ⦃fw : Framework⦄ → Env → State → Call → Result Outcome
perform env s (add_funds_call payment token) = fmap silent (add_funds env s payment token)
perform env s (submit_call round_id values) = fmap silent (submit env s round_id values)
perform env s (change_oracles_call removed added admins lo hi delay) =
    fmap silent (change_oracles env s removed added admins lo hi delay)
perform env s (update_future_rounds_call payment lo hi delay timeout) =
    fmap silent (update_future_rounds env s payment lo hi delay timeout)
perform env s (withdraw_payment_call oracle recipient amount) =
    fmap sending (withdraw_payment env s oracle recipient amount)
perform env s (withdraw_funds_call amount) = fmap sending (withdraw_funds env s amount)
perform env s (transfer_admin_call oracle new_admin) =
    fmap silent (transfer_admin env s oracle new_admin)
perform env s (accept_admin_call oracle) = fmap silent (accept_admin env s oracle)
perform env s request_new_round_call = fmap (λ r. silent r.1) (request_new_round env s)
perform env s (set_requester_permissions_call requester authorized delay) =
    fmap silent (set_requester_permissions env s requester authorized delay)

-- What the contract holds when the endpoint runs: `addFunds` alone is payable.
abbrev pub receive : Holdings → Call → Holdings
receive held (add_funds_call payment token) = credit held token payment
receive held _ = held

-- what comes in with a call, of each token
abbrev pub paid_in : Call → List ℕ → ℕ
paid_in (add_funds_call payment token) other = if other == token then payment else 0
paid_in _ other = 0

-- the contract with what it holds of each token
pub record World : Type 0 where
  pub held : Holdings
  pub state : State

-- A call by anyone, at any time. The virtual machine credits the payment, runs the endpoint, and
-- carries out its transfers; if one of these fails, nothing changes.
pub data Step ⦃fw : Framework⦄ (w : World) : World → Type 0 where
  accept :
      (env : Env) (call : Call) (o : Outcome) (held : Holdings)
      → perform env w.state call ≡ ok o
      → carry_out (receive w.held call) o.transfers ≡ ok held
      → Step w (record { held = held; state = o.state })
  reject : Step w w

pub data Reach ⦃fw : Framework⦄ (w : World) : World → Type 0 where
  here : Reach w w
  next : {u v : World} → Reach w u → Step u v → Reach w v
