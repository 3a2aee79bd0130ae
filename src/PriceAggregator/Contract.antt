-- ===== src/PriceAggregator/Contract.antt =====
-- Storage, endpoints and views of price-aggregator/src/lib.rs, with the data of
-- price_aggregator_data.rs. A `VecMapper` is a list that grows at its end.
use sc_chainlink_rs.Prelude.{
  ℕ, ◌+◌, ◌%◌, ◌^◌, ◌-◌, Bool, true, ◌&&◌, not, Option, none, some, List, [], ◌∷◌, ◌++◌, leb, ltb,
  length, get_elem?, ◌==◌, ◌≡◌, ◌↔◌, Eq, nat_eq, bytes_eq, if◌then◌else◌, arith,
}
use sc_chainlink_rs.Framework.{
  Result, ok, ◌>>=◌, ◌>>◌, require, ok_or, Env, Transfer, Framework, ◌-!◌, add_u64,
}
use sc_chainlink_rs.Framework.Map.{Map, get, insert, contains_key, keys, measure}
use sc_chainlink_rs.PriceAggregator.Median.{calculate}

pub record TokenPair : Type 0 where
  pub from : List ℕ
  pub to : List ℕ

abbrev pub pair_beq : TokenPair → TokenPair → Bool
pair_beq a b = a.from == b.from && a.to == b.to

pub pair_beq_law : (a b : TokenPair) → (pair_beq a b ≡ true) ↔ (a ≡ b)
pair_beq_law a b = ground (arith, bytes_eq.beq_law a.from b.from, bytes_eq.beq_law a.to b.to)

instance abbrev pub pair_eq : Eq TokenPair
pair_eq = record { beq = pair_beq; beq_law = pair_beq_law }

pub record PriceFeed : Type 0 where
  pub round_id : ℕ
  pub from : List ℕ
  pub to : List ℕ
  pub price : ℕ
  pub decimals : ℕ

pub record OracleStatus : Type 0 where
  pub accepted_submissions : ℕ
  pub total_submissions : ℕ

-- the storage of the contract
pub record Feeds : Type 0 where
  pub payment_token : List ℕ
  pub query_payment_amount : ℕ
  pub submission_count : ℕ
  pub decimals : ℕ
  pub oracle_status : Map ℕ OracleStatus
  pub rounds : Map TokenPair (List ℕ)
  pub submissions : Map TokenPair (Map ℕ ℕ)
  pub balance : Map ℕ ℕ

-- the loop of `init` over the oracles
unfoldable pub enter_oracles : List ℕ → Map ℕ OracleStatus → Map ℕ OracleStatus
enter_oracles [] status = status
enter_oracles (oracle ∷ oracles) status =
    enter_oracles oracles
      (insert oracle (record { accepted_submissions = 0; total_submissions = 0 }) status)

unfoldable pub init : List ℕ → List ℕ → ℕ → ℕ → ℕ → Feeds
unfolding enter_oracles
init payment_token oracles submission_count decimals query_payment_amount = record {
  payment_token = payment_token;
  query_payment_amount = query_payment_amount;
  submission_count = submission_count;
  decimals = decimals;
  oracle_status = enter_oracles oracles [];
  rounds = [];
  submissions = [];
  balance = [];
}

unfoldable pub get_balance : Feeds → ℕ → ℕ
get_balance s address = measure (λ amount. amount) (get address s.balance)

unfoldable pub my_balance : Env → Feeds → ℕ
unfolding get_balance
my_balance env s = get_balance s env.caller

unfoldable pub add_balance : Feeds → ℕ → ℕ → Feeds
unfolding get_balance
add_balance s to amount = record s { balance = insert to (get_balance s to + amount) s.balance }

-- `deposit`
unfoldable pub deposit : Env → Feeds → ℕ → List ℕ → Option ℕ → Result Feeds
deposit env s payment token on_behalf_of = do
  require (token == s.payment_token) "wrong token type"
  let to : ℕ = elim on_behalf_of [ none ↦ env.caller | some address ↦ address ]
  ok (add_balance s to payment)

unfoldable pub require_is_oracle : Env → Feeds → Result (Unit {0})
require_is_oracle env s = require (contains_key env.caller s.oracle_status) "only oracles allowed"

-- the status of the caller after a submission
unfoldable pub count_submission : Env → Feeds → Bool → Feeds
count_submission env s accepted = elim (get env.caller s.oracle_status) [
  | none ↦ s
  | some status ↦ record s {
    oracle_status =
        insert env.caller
          (record {
            accepted_submissions = add_u64 status.accepted_submissions (if accepted then 1 else 0);
            total_submissions = add_u64 status.total_submissions 1;
          })
          s.oracle_status;
  }
]

-- `entry(key).or_default().get()` on a storage map of lists or of maps
abbrev pub entries_of : {A : Type 0} → Option (List A) → List A
entries_of none = []
entries_of (some xs) = xs

-- the values of a map
abbrev pub values : {K V : Type 0} → Map K V → List V
values [] = []
values ((k, v) ∷ m) = v ∷ values m

module _ ⦃fw : Framework⦄ where
  unfoldable pub subtract_balance : Feeds → ℕ → ℕ → Result Feeds
  unfolding get_balance
  subtract_balance s from amount = do
    let balance = get_balance s from
    require (leb amount balance) "insufficient balance"
    left ← balance -! amount
    ok (record s { balance = insert from left s.balance })

  -- `withdraw`
  unfoldable pub withdraw : Env → Feeds → ℕ → Result (Transfer × Feeds)
  withdraw env s amount = do
    s' ← subtract_balance s env.caller amount
    ok (record { to = env.caller; token = s.payment_token; amount = amount; message = [] }, s')

  unfoldable pub transfer : Feeds → ℕ → ℕ → ℕ → Result Feeds
  transfer s from to amount = do s' ← subtract_balance s from amount; ok (add_balance s' to amount)

  -- `submissions` is the map of the pair, with the new submission already in it
  unfoldable pub create_new_round : Feeds → TokenPair → Map ℕ ℕ → Result Feeds
  create_new_round s token_pair submissions =
      if leb s.submission_count (length submissions % 2 ^ 32)
      then (do
        result ← calculate (values (fw.iter ℕ ℕ submissions))
        price_feed ← ok_or result "no submissions"
        let feeds = entries_of (get token_pair s.rounds)
        ok (record s {
          rounds = insert token_pair (feeds ++ price_feed ∷ []) s.rounds;
          submissions = insert token_pair [] s.submissions;
        }))
      else ok (record s { submissions = insert token_pair submissions s.submissions })

  -- `submit`
  unfoldable pub submit : Env → Feeds → List ℕ → List ℕ → ℕ → Result Feeds
  unfolding require_is_oracle
  submit env s from to price = do
    require_is_oracle env s
    let token_pair : TokenPair = record { from = from; to = to }
    let submissions = entries_of (get token_pair s.submissions)
    let accepted = not (contains_key env.caller submissions)
    create_new_round (count_submission env s accepted) token_pair
        (insert env.caller price submissions)

  unfoldable pub subtract_query_payment : Env → Feeds → Result Feeds
  subtract_query_payment env s = transfer s env.caller env.sc_address s.query_payment_amount

  -- `VecMapper::get` counts from one and ends the call with an error out of range.
  unfoldable pub make_price_feed : Feeds → TokenPair → List ℕ → Result PriceFeed
  make_price_feed s token_pair round_values = do
    let round_id = length round_values
    require (not (round_id == 0)) "index out of range"
    price ← ok_or (get_elem? round_values (round_id - 1)) "index out of range"
    ok (record {
      round_id = round_id % 2 ^ 32;
      from = token_pair.from;
      to = token_pair.to;
      price = price;
      decimals = s.decimals;
    })

  -- `latestPriceFeed`
  unfoldable pub latest_price_feed : Env → Feeds → List ℕ → List ℕ → Result (PriceFeed × Feeds)
  latest_price_feed env s from to = do
    s' ← subtract_query_payment env s
    let token_pair : TokenPair = record { from = from; to = to }
    round_values ← ok_or (get token_pair s'.rounds) "token pair not found"
    feed ← make_price_feed s' token_pair round_values
    ok (feed, s')

  -- `latestPriceFeedOptional`. It turns an error of `latest_price_feed` into `None` and ends well,
  -- so what was written up to the error stays: the entry that `or_default` made for the caller when
  -- the balance is too low, and the whole query payment when the pair is not found.
  unfoldable pub latest_price_feed_optional :
      Env → Feeds → List ℕ → List ℕ → Result (Option PriceFeed × Feeds)
  unfolding get_balance
  latest_price_feed_optional env s from to =
      let balance = get_balance s env.caller in
      if ltb balance s.query_payment_amount
      then ok (none, record s { balance = insert env.caller balance s.balance })
      else (do
        s' ← subtract_query_payment env s
        let token_pair : TokenPair = record { from = from; to = to }
        elim (get token_pair s'.rounds) [
          | none ↦ ok (none, s')
          | some round_values ↦ do
            feed ← make_price_feed s' token_pair round_values
            ok (some feed, s')
        ])

  -- the iterator chain of `latest_round_data`
  unfoldable pub price_feeds : Feeds → Map TokenPair (List ℕ) → Result (List PriceFeed)
  price_feeds s [] = ok []
  price_feeds s ((token_pair, round_values) ∷ rest) = do
    feed ← make_price_feed s token_pair round_values
    feeds ← price_feeds s rest
    ok (feed ∷ feeds)

  unfoldable pub latest_round_data : Env → Feeds → Result (List PriceFeed × Feeds)
  unfolding price_feeds
  latest_round_data env s = do
    s' ← subtract_query_payment env s
    require (not (length s'.rounds == 0)) "no completed rounds"
    feeds ← price_feeds s' (fw.iter TokenPair (List ℕ) s'.rounds)
    ok (feeds, s')

  unfoldable pub get_oracles : Feeds → List ℕ
  get_oracles s = keys (fw.iter ℕ OracleStatus s.oracle_status)

-- `setSubmissionCount`
unfoldable pub set_submission_count : Env → Feeds → ℕ → Result Feeds
set_submission_count env s submission_count = do
  require (env.caller == env.owner) "Caller must be owner"
  ok (record s { submission_count = submission_count })
