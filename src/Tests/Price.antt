-- ===== src/Tests/Price.antt =====
-- The price aggregator at concrete data: a round of two oracles, and deposits.
use sc_chainlink_rs.Prelude.{
  false, ◌↔◌, ◌+◌, ◌≤◌, arith, ℕ, ◌≡◌, ◌≢◌, refl, List, [], ◌∷◌, none, some, nat_eq, bytes_eq,
  codes,
}
use sc_chainlink_rs.Framework.{Holdings, credit, Result, ok, err, is_ok}
use sc_chainlink_rs.Framework.Holdings.{carry_out, sent}
use sc_chainlink_rs.Framework.Map.{get, insert, IsUnique}
use sc_chainlink_rs.PriceAggregator.Contract.{
  TokenPair, PriceFeed, latest_price_feed, pair_eq, Feeds, init, add_balance, get_balance,
  subtract_balance, transfer, subtract_query_payment, latest_price_feed_optional, deposit, submit,
  entries_of,
}
use sc_chainlink_rs.PriceAggregator.Calls.{
  deposit_call, latest_price_feed_optional_call, paid_in, perform, accept, here, next,
}
use sc_chainlink_rs.PriceAggregator.Balances.{perform-Moves}
use sc_chainlink_rs.PriceAggregator.Payments.{Moves}
use sc_chainlink_rs.PriceAggregator.Optional.{optional-agrees, optional-charges}
use sc_chainlink_rs.PriceAggregator.World.{IsBacked, deployed-IsBacked}
use sc_chainlink_rs.PriceAggregator.Rounds.{RoundEffects, submit-RoundEffects}
use sc_chainlink_rs.Tests.Setting.{plain_framework}
use sc_chainlink_rs.Tests.Aggregator.{owner_env, oracle_env}

abbrev value_feeds : {A : Type 0} → Result (A × Feeds) → Feeds
value_feeds (ok r) = r.1
value_feeds (err e) = init [] [] 0 0 0

abbrev link : List ℕ
link = codes "LINK"

abbrev started : Feeds
started = init link (2 ∷ 3 ∷ []) 2 5 1

abbrev deposited : Feeds
deposited = add_balance started 1 30

deposited_run :
    perform owner_env started (deposit_call 30 link none)
    ≡ ok (record { feeds = deposited; transfers = [] })
unfolding perform deposit init
deposited_run = refl

abbrev egld_usd : TokenPair
egld_usd = record { from = codes "EGLD"; to = codes "USD" }

-- the depositor asks for a pair that has no round: the query is paid for and finds nothing
abbrev queried : Feeds
queried = value_feeds (latest_price_feed_optional owner_env deposited (codes "EGLD") (codes "USD"))

queried_run :
    latest_price_feed_optional owner_env deposited (codes "EGLD") (codes "USD") ≡ ok (none, queried)
unfolding latest_price_feed_optional subtract_query_payment transfer subtract_balance init get
    insert add_balance get_balance
queried_run = refl

queried_balance : get 1 queried.balance ≡ some 29
unfolding latest_price_feed_optional subtract_query_payment transfer subtract_balance init get
    insert add_balance get_balance
queried_balance = refl

query_run :
    perform owner_env deposited (latest_price_feed_optional_call (codes "EGLD") (codes "USD"))
    ≡ ok (record { feeds = queried; transfers = [] })
unfolding perform latest_price_feed_optional subtract_query_payment transfer subtract_balance init
    get insert add_balance get_balance
query_run = refl

deposited-IsUnique : IsUnique deposited.balance
unfolding add_balance init insert get get_balance
deposited-IsUnique = (refl, tt)

perform-Moves_example :
    Moves deposited queried 0 0
    × ((other : List ℕ)
        → other ≢ link
        → (paid_in (latest_price_feed_optional_call (codes "EGLD") (codes "USD")) other ≡ 0)
          × (sent [] other ≡ 0))
unfolding init add_balance
perform-Moves_example =
    perform-Moves owner_env deposited (latest_price_feed_optional_call (codes "EGLD") (codes "USD"))
      deposited-IsUnique query_run

abbrev held_links : Holdings
held_links = credit (λ any. 0) link 30

carried : carry_out held_links [] ≡ ok held_links
unfolding carry_out
carried = refl

deployed-IsBacked_example : IsBacked (record { held = held_links; feeds = queried })
deployed-IsBacked_example = deployed-IsBacked link (2 ∷ 3 ∷ []) 2 5 1 (
    next
      (next here (
        accept owner_env (deposit_call 30 link none) (record { feeds = deposited; transfers = [] })
          held_links deposited_run carried))
      (accept owner_env (latest_price_feed_optional_call (codes "EGLD") (codes "USD"))
        (record { feeds = queried; transfers = [] }) held_links query_run carried))

-- the other oracle has submitted
abbrev waiting_feeds : Feeds
waiting_feeds = record started { submissions = (egld_usd, (3, 400) ∷ []) ∷ [] }

is_oracle :
    get 2 waiting_feeds.oracle_status
    ≡ some (record { accepted_submissions = 0; total_submissions = 0 })
unfolding init get insert
is_oracle = refl

submit-RoundEffects_example :
    (t : Feeds) × (submit oracle_env waiting_feeds (codes "EGLD") (codes "USD") 420 ≡ ok t)
    × RoundEffects waiting_feeds egld_usd
        (insert 2 420 (entries_of (get egld_usd waiting_feeds.submissions)))
        t
    × ((other : TokenPair)
        → other ≢ egld_usd
        → (get other t.rounds ≡ get other waiting_feeds.rounds)
          × (get other t.submissions ≡ get other waiting_feeds.submissions))
unfolding init get insert
submit-RoundEffects_example =
    submit-RoundEffects oracle_env waiting_feeds (codes "EGLD") (codes "USD") 420 refl

abbrev some_feed : PriceFeed
some_feed = record {
  round_id = 1;
  from = codes "EGLD";
  to = codes "USD";
  price = 420;
  decimals = 5;
}

optional-agrees_example :
    ((latest_price_feed_optional owner_env deposited (codes "EGLD") (codes "USD")
        ≡ ok (some some_feed, queried))
      ↔ (latest_price_feed owner_env deposited (codes "EGLD") (codes "USD")
          ≡ ok (some_feed, queried)))
    × (latest_price_feed_optional owner_env deposited (codes "EGLD") (codes "USD")
          ≡ ok (none, queried)
        → is_ok (latest_price_feed owner_env deposited (codes "EGLD") (codes "USD")) ≡ false)
optional-agrees_example =
    optional-agrees owner_env deposited (codes "EGLD") (codes "USD") some_feed queried

deposited_covers : deposited.query_payment_amount ≤ get_balance deposited 1
unfolding add_balance init get_balance insert get
deposited_covers = omega arith

deposited_rounds : get egld_usd deposited.rounds ≡ none
unfolding add_balance init get
deposited_rounds = refl

optional-charges_example :
    (t : Feeds) × (latest_price_feed_optional owner_env deposited (codes "EGLD") (codes "USD")
      ≡ ok (none, t))
    × (get_balance t 1 + deposited.query_payment_amount ≡ get_balance deposited 1)
    × (is_ok (latest_price_feed owner_env deposited (codes "EGLD") (codes "USD")) ≡ false)
optional-charges_example =
    optional-charges owner_env deposited (codes "EGLD") (codes "USD")
      (λ e. absurd (omega (arith, e))) deposited_covers deposited_rounds
