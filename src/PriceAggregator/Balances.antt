-- ===== src/PriceAggregator/Balances.antt =====
-- The balances of price-aggregator/src/lib.rs under one call, token by token.
use sc_chainlink_rs.Prelude.{◌≢◌, [], bytes_eq, ℕ, ◌≡◌, List, arith, inl, inr, nat_eq}
use sc_chainlink_rs.Framework.{Result, ok, err, Env, Framework, Result-cases}
use sc_chainlink_rs.Framework.Holdings.{sent}
use sc_chainlink_rs.Framework.Map.{IsUnique}
use sc_chainlink_rs.PriceAggregator.Contract.{
  Feeds, deposit, withdraw, submit, latest_price_feed, latest_price_feed_optional,
  latest_round_data, set_submission_count,
}
use sc_chainlink_rs.PriceAggregator.Calls.{
  Call, deposit_call, withdraw_call, submit_call, latest_price_feed_call, latest_round_data_call,
  set_submission_count_call, latest_price_feed_optional_call, settle, keeping, Outcome, perform,
  paid_in,
}
use sc_chainlink_rs.PriceAggregator.Payments.{
  Moves, submit-balance, query-Moves, latest_price_feed-pays, latest_round_data-pays,
  optional-Moves, deposit-Moves, withdraw-Moves,
}

kept-transfers :
    {A : Type 0} (f : A → Feeds) (r : Result A) {o : Outcome}
    → settle (λ a. keeping (f a)) r ≡ ok o
    → o.transfers ≡ []
kept-transfers f (ok a) h = ground arith
kept-transfers f (err e) h = ground arith

module _ ⦃fw : Framework⦄ where
  own-Moves :
      (env : Env) (s : Feeds) (call : Call) {o : Outcome}
      → IsUnique s.balance
      → perform env s call ≡ ok o
      → Moves s o.feeds (paid_in call s.payment_token) (sent o.transfers s.payment_token)
  unfolding perform
  own-Moves env s (deposit_call payment token on_behalf_of) h e =
      elim (Result-cases (deposit env s payment token on_behalf_of)) [
        | inr (m, f) ↦ absurd (ground arith)
        | inl (t, f) ↦ ground (
          arith,
          deposit-Moves env s payment token on_behalf_of h f,
          bytes_eq.beq_law s.payment_token token,
        )
      ]
  own-Moves env s (withdraw_call amount) h e = elim (Result-cases (withdraw env s amount)) [
    | inr (m, f) ↦ absurd (ground arith)
    | inl (t, f) ↦
        ground (arith, withdraw-Moves env s amount h f, bytes_eq.beq_law s.payment_token t.0.token)
  ]
  own-Moves env s (submit_call from to price) h e =
      elim (Result-cases (submit env s from to price)) [
        | inr (m, f) ↦ absurd (ground arith)
        | inl (t, f) ↦ ground (arith, submit-balance env s from to price f)
      ]
  own-Moves env s (latest_price_feed_call from to) h e =
      elim (Result-cases (latest_price_feed env s from to)) [
        | inr (m, f) ↦ absurd (ground arith)
        | inl (t, f) ↦ ground (arith, query-Moves env s h (latest_price_feed-pays env s from to f))
      ]
  own-Moves env s (latest_price_feed_optional_call from to) h e =
      elim (Result-cases (latest_price_feed_optional env s from to)) [
        | inr (m, f) ↦ absurd (ground arith)
        | inl (t, f) ↦ ground (arith, optional-Moves env s from to h f)
      ]
  own-Moves env s latest_round_data_call h e = elim (Result-cases (latest_round_data env s)) [
    | inr (m, f) ↦ absurd (ground arith)
    | inl (t, f) ↦ ground (arith, query-Moves env s h (latest_round_data-pays env s f))
  ]
  own-Moves env s (set_submission_count_call submission_count) h e =
      unfold set_submission_count in ground arith

  -- a call moves no token but the payment token
  other-tokens :
      (env : Env) (s : Feeds) (call : Call) {o : Outcome}
      → IsUnique s.balance
      → perform env s call ≡ ok o
      → (other : List ℕ) → other ≢ s.payment_token
      → (paid_in call other ≡ 0) × (sent o.transfers other ≡ 0)
  unfolding perform
  other-tokens env s (deposit_call payment token on_behalf_of) h e other differs =
      elim (Result-cases (deposit env s payment token on_behalf_of)) [
        | inr (m, f) ↦ absurd (ground arith)
        | inl (t, f) ↦ ground (
          arith,
          deposit-Moves env s payment token on_behalf_of h f,
          bytes_eq.beq_law other token,
        )
      ]
  other-tokens env s (withdraw_call amount) h e other differs =
      elim (Result-cases (withdraw env s amount)) [
        | inr (m, f) ↦ absurd (ground arith)
        | inl (t, f) ↦
            ground (arith, withdraw-Moves env s amount h f, bytes_eq.beq_law other t.0.token)
      ]
  other-tokens env s (submit_call from to price) h e other differs =
      ground (arith, kept-transfers (λ t. t) (submit env s from to price) e)
  other-tokens env s (latest_price_feed_call from to) h e other differs =
      ground (arith, kept-transfers (λ r. r.1) (latest_price_feed env s from to) e)
  other-tokens env s (latest_price_feed_optional_call from to) h e other differs =
      ground (arith, kept-transfers (λ r. r.1) (latest_price_feed_optional env s from to) e)
  other-tokens env s latest_round_data_call h e other differs =
      ground (arith, kept-transfers (λ r. r.1) (latest_round_data env s) e)
  other-tokens env s (set_submission_count_call submission_count) h e other differs =
      ground (arith, kept-transfers (λ t. t) (set_submission_count env s submission_count) e)

  -- Every accepted call, the optional query included, keeps one entry for each account, and changes
  -- the sum of the balances by exactly what it brought in and what it sent out of the payment
  -- token, which stays the same; of any other token nothing comes in and nothing is sent.
  pub perform-Moves :
      (env : Env) (s : Feeds) (call : Call) {o : Outcome}
      → IsUnique s.balance
      → perform env s call ≡ ok o
      → Moves s o.feeds (paid_in call s.payment_token) (sent o.transfers s.payment_token)
        × ((other : List ℕ)
            → other ≢ s.payment_token
            → (paid_in call other ≡ 0) × (sent o.transfers other ≡ 0))
  perform-Moves env s call h e = (own-Moves env s call h e, other-tokens env s call h e)
