-- ===== src/PriceAggregator/Calls.antt =====
-- The endpoints of price-aggregator/src/lib.rs that write, views included, as one type of calls, and the contract
-- with what it holds of each token.
use sc_chainlink_rs.Prelude.{ℕ, ◌≡◌, List, [], ◌∷◌, Option, ◌==◌, bytes_eq, if◌then◌else◌}
use sc_chainlink_rs.Framework.{Holdings, credit, Result, ok, err, Env, Transfer, Framework}
use sc_chainlink_rs.Framework.Holdings.{carry_out}
use sc_chainlink_rs.PriceAggregator.Contract.{
  Feeds, deposit, withdraw, submit, latest_price_feed, latest_price_feed_optional,
  latest_round_data, set_submission_count,
}

pub data Call : Type 0 where
  deposit_call : ℕ → List ℕ → Option ℕ → Call
  withdraw_call : ℕ → Call
  submit_call : List ℕ → List ℕ → ℕ → Call
  latest_price_feed_call : List ℕ → List ℕ → Call
  latest_price_feed_optional_call : List ℕ → List ℕ → Call
  latest_round_data_call : Call
  set_submission_count_call : ℕ → Call

-- what an accepted call leaves, and the transfers it sent
pub record Outcome : Type 0 where
  pub feeds : Feeds
  pub transfers : List Transfer

abbrev pub settle : {A : Type 0} → (A → Outcome) → Result A → Result Outcome
settle f (ok a) = ok (f a)
settle f (err e) = err e

abbrev pub keeping : Feeds → Outcome
keeping t = record { feeds = t; transfers = [] }

unfoldable pub perform : ⦃fw : Framework⦄ → Env → Feeds → Call → Result Outcome
perform env s (deposit_call payment token on_behalf_of) =
    settle keeping (deposit env s payment token on_behalf_of)
perform env s (withdraw_call amount) =
    settle (λ r. record { feeds = r.1; transfers = r.0 ∷ [] }) (withdraw env s amount)
perform env s (submit_call from to price) = settle keeping (submit env s from to price)
perform env s (latest_price_feed_call from to) =
    settle (λ r. keeping r.1) (latest_price_feed env s from to)
perform env s (latest_price_feed_optional_call from to) =
    settle (λ r. keeping r.1) (latest_price_feed_optional env s from to)
perform env s latest_round_data_call = settle (λ r. keeping r.1) (latest_round_data env s)
perform env s (set_submission_count_call submission_count) =
    settle keeping (set_submission_count env s submission_count)

-- What the contract holds when the endpoint runs: `deposit` alone is payable.
abbrev pub receive : Holdings → Call → Holdings
receive held (deposit_call payment token on_behalf_of) = credit held token payment
receive held _ = held

-- what comes in with a call, of each token
abbrev pub paid_in : Call → List ℕ → ℕ
paid_in (deposit_call payment token on_behalf_of) other = if other == token then payment else 0
paid_in _ other = 0

-- the contract with what it holds of each token
pub record World : Type 0 where
  pub held : Holdings
  pub feeds : Feeds

-- A call by anyone, at any time: accepted, when its transfers are carried out, or rejected.
pub data Step ⦃fw : Framework⦄ (w : World) : World → Type 0 where
  accept :
      (env : Env) (call : Call) (o : Outcome) (held : Holdings)
      → perform env w.feeds call ≡ ok o
      → carry_out (receive w.held call) o.transfers ≡ ok held
      → Step w (record { held = held; feeds = o.feeds })
  reject : Step w w

pub data Reach ⦃fw : Framework⦄ (w : World) : World → Type 0 where
  here : Reach w w
  next : {u v : World} → Reach w u → Step u v → Reach w v
