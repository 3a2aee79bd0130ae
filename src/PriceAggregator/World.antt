-- ===== src/PriceAggregator/World.antt =====
-- What the price aggregator holds, under every sequence of calls.
use sc_chainlink_rs.Prelude.{ℕ, ◌+◌, ◌≡◌, ◌≢◌, refl, sym, ap, ◌∙◌, List, bytes_eq, nat_eq, arith}
use sc_chainlink_rs.Framework.{Holdings, Framework}
use sc_chainlink_rs.Framework.Holdings.{carry_out-sent}
use sc_chainlink_rs.Framework.Map.{IsUnique}
use sc_chainlink_rs.PriceAggregator.Contract.{init}
use sc_chainlink_rs.PriceAggregator.Calls.{
  Call, deposit_call, withdraw_call, submit_call, latest_price_feed_call,
  latest_price_feed_optional_call, latest_round_data_call, set_submission_count_call, paid_in,
  receive, World, accept, reject, Reach, here, next,
}
use sc_chainlink_rs.PriceAggregator.Balances.{perform-Moves}
use sc_chainlink_rs.PriceAggregator.Payments.{balance_total}

-- There is one entry for each account, and the balances add up to what the contract holds.
pub record IsBacked (w : World) : Type 0 where
  pub unique : IsUnique w.feeds.balance
  pub backed : w.held w.feeds.payment_token ≡ balance_total w.feeds
  pub nothing_else : (other : List ℕ) → other ≢ w.feeds.payment_token → w.held other ≡ 0

receive-paid_in :
    (held : Holdings) (call : Call) (token : List ℕ)
    → receive held call token ≡ held token + paid_in call token
receive-paid_in held (deposit_call payment paid on_behalf_of) token = ground arith
receive-paid_in held (withdraw_call amount) token = omega arith
receive-paid_in held (submit_call from to price) token = omega arith
receive-paid_in held (latest_price_feed_call from to) token = omega arith
receive-paid_in held (latest_price_feed_optional_call from to) token = omega arith
receive-paid_in held latest_round_data_call token = omega arith
receive-paid_in held (set_submission_count_call submission_count) token = omega arith

module _ ⦃fw : Framework⦄ where
  Reach-IsBacked : {w v : World} → IsBacked w → Reach w v → IsBacked v
  Reach-IsBacked h here = h
  Reach-IsBacked h (next r reject) = Reach-IsBacked h r
  Reach-IsBacked h (next {u} r (accept env call o held run carried)) =
      let before = Reach-IsBacked h r in
      let (m, others) = perform-Moves env u.feeds call before.unique run in
      let own = u.feeds.payment_token in
      let kept = carry_out-sent (receive u.held call) o.transfers carried in
      record {
        unique = m.unique;
        backed =
            ap held m.token
            ∙ omega (arith, kept own, receive-paid_in u.held call own, m.moved, before.backed);
        nothing_else = λ other differs.
            let differs' : other ≢ own = λ e. differs (e ∙ sym m.token) in
            omega (
              arith,
              kept other,
              receive-paid_in u.held call other,
              others other differs',
              before.nothing_else other differs',
            );
      }

  -- Whatever is called after `init`, by anyone in any order, the optional query included, the
  -- balances of the accounts add up to exactly what the contract holds of its payment token, and it
  -- holds nothing of any other token. Payments and transfers count in their own token.
  pub deployed-IsBacked :
      (payment_token oracles : List ℕ) (submission_count decimals query_payment_amount : ℕ)
      {v : World}
      → Reach
          (record {
            held = λ any. 0;
            feeds = init payment_token oracles submission_count decimals query_payment_amount;
          })
          v
      → IsBacked v
  unfolding init
  deployed-IsBacked payment_token oracles submission_count decimals query_payment_amount r =
      Reach-IsBacked (record { unique = tt; backed = refl; nothing_else = λ other differs. refl }) r
