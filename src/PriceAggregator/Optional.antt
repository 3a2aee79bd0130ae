-- ===== src/PriceAggregator/Optional.antt =====
-- `latestPriceFeedOptional` of price-aggregator/src/lib.rs beside `latestPriceFeed`.
use sc_chainlink_rs.Prelude.{
  ℕ, ◌+◌, ◌-◌, ◌≤◌, ◌<◌, ◌≡◌, ◌≢◌, ◌↔◌, refl, false, List, none, some, arith, nat_eq, inl, inr,
  Bool-cases, ltb,
}
use sc_chainlink_rs.Framework.{ok, Env, Framework, is_ok}
use sc_chainlink_rs.Framework.Map.{get, insert}
use sc_chainlink_rs.Framework.Map.Laws.{get-insert, get-insert_self}
use sc_chainlink_rs.PriceAggregator.Contract.{
  pair_eq, Feeds, PriceFeed, get_balance, add_balance, subtract_balance, transfer,
  subtract_query_payment, latest_price_feed, latest_price_feed_optional,
}

module _ ⦃fw : Framework⦄ where
  -- the payment of a query fails exactly when the balance does not cover it
  payment_le :
      (env : Env) (s : Feeds)
      → s.query_payment_amount ≤ get_balance s env.caller
      → (t : Feeds) × (subtract_query_payment env s ≡ ok t)
        × (t.rounds ≡ s.rounds)
        × (env.caller ≢ env.sc_address
            → get_balance t env.caller + s.query_payment_amount ≡ get_balance s env.caller)
  unfolding subtract_query_payment transfer subtract_balance add_balance get_balance
  payment_le env s h =
      let left = get_balance s env.caller - s.query_payment_amount in
      let charged : Feeds = record s { balance = insert env.caller left s.balance } in
      let t = add_balance charged env.sc_address s.query_payment_amount in
      let more = get_balance charged env.sc_address + s.query_payment_amount in
      (
        t,
        ground (arith, fw.sub_le (get_balance s env.caller) s.query_payment_amount),
        refl,
        λ differs. ground (
          arith,
          get-insert env.caller env.sc_address more charged.balance,
          get-insert_self env.caller left s.balance,
        ),
      )

  payment_lt :
      (env : Env) (s : Feeds)
      → get_balance s env.caller < s.query_payment_amount
      → is_ok (subtract_query_payment env s) ≡ false
  unfolding subtract_query_payment transfer subtract_balance
  payment_lt env s h = ground arith

  -- `latestPriceFeedOptional` gives a feed exactly when `latestPriceFeed` is accepted, and then the
  -- same feed and the same storage; when it ends well without a feed, `latestPriceFeed` is refused.
  pub optional-agrees :
      (env : Env) (s : Feeds) (from to : List ℕ) (feed : PriceFeed) (t : Feeds)
      → ((latest_price_feed_optional env s from to ≡ ok (some feed, t))
          ↔ (latest_price_feed env s from to ≡ ok (feed, t)))
        × (latest_price_feed_optional env s from to ≡ ok (none, t)
            → is_ok (latest_price_feed env s from to) ≡ false)
  unfolding latest_price_feed latest_price_feed_optional
  optional-agrees env s from to feed t =
      elim (Bool-cases (ltb (get_balance s env.caller) s.query_payment_amount)) [
        | inl short ↦
            let refused = payment_lt env s (ground arith) in
            (((λ h. ground arith), (λ h. ground arith)), (λ h. ground arith))
        | inr enough ↦
            let (u, run, rounds, balance) = payment_le env s (ground arith) in
            (((λ h. ground arith), (λ h. ground arith)), (λ h. ground arith))
      ]

  -- An optional query for a pair without a round, by an account that can pay and is not the
  -- contract, ends well without a feed and keeps the query payment, where `latestPriceFeed` is
  -- refused and so takes nothing.
  pub optional-charges :
      (env : Env) (s : Feeds) (from to : List ℕ)
      → env.caller ≢ env.sc_address
      → s.query_payment_amount ≤ get_balance s env.caller
      → get (record { from = from; to = to }) s.rounds ≡ none
      → (t : Feeds) × (latest_price_feed_optional env s from to ≡ ok (none, t))
        × (get_balance t env.caller + s.query_payment_amount ≡ get_balance s env.caller)
        × (is_ok (latest_price_feed env s from to) ≡ false)
  unfolding latest_price_feed latest_price_feed_optional
  optional-charges env s from to differs covers unknown =
      let (t, run, rounds, balance) = payment_le env s covers in
      (t, ground arith, balance differs, ground arith)
