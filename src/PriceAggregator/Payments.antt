-- ===== src/PriceAggregator/Payments.antt =====
-- What each endpoint of price-aggregator/src/lib.rs does to the sum of the balances.
use sc_chainlink_rs.Prelude.{
  bytes_eq, ℕ, ◌+◌, ◌-◌, ◌≡◌, List, Option, none, some, arith, inl, inr, nat_eq,
}
use sc_chainlink_rs.Framework.{ok, Env, Transfer, Framework, Result-cases}
use sc_chainlink_rs.Framework.Map.{insert, total, IsUnique}
use sc_chainlink_rs.Framework.Map.Laws.{insert-IsUnique, total-insert}
use sc_chainlink_rs.PriceAggregator.Contract.{
  Feeds, PriceFeed, get_balance, add_balance, deposit, count_submission, subtract_balance, withdraw,
  transfer, create_new_round, submit, subtract_query_payment, latest_price_feed,
  latest_price_feed_optional, latest_round_data,
}

abbrev pub balance_total : Feeds → ℕ
balance_total s = total (λ (amount : ℕ). amount) s.balance

-- From `s` to `t` the sum of the balances changes by what came in and what went out.
pub record Moves (s t : Feeds) (inflow outflow : ℕ) : Type 0 where
  pub unique : IsUnique t.balance
  pub token : t.payment_token ≡ s.payment_token
  pub moved : balance_total t + outflow ≡ balance_total s + inflow

set_balance_total :
    (s : Feeds) (address amount : ℕ)
    → IsUnique s.balance
    → total (λ (a : ℕ). a) (insert address amount s.balance) + get_balance s address
      ≡ balance_total s + amount
unfolding get_balance
set_balance_total s address amount h = total-insert (λ (a : ℕ). a) address amount s.balance

add_balance-Moves :
    (s : Feeds) (to amount : ℕ) → IsUnique s.balance → Moves s (add_balance s to amount) amount 0
unfolding add_balance
add_balance-Moves s to amount h = ground (
  arith,
  set_balance_total s to (get_balance s to + amount) h,
  insert-IsUnique to (get_balance s to + amount) s.balance h,
)

module _ ⦃fw : Framework⦄ where
  subtract_balance-Moves :
      (s : Feeds) (from amount : ℕ) {t : Feeds}
      → IsUnique s.balance
      → subtract_balance s from amount ≡ ok t
      → Moves s t 0 amount
  unfolding subtract_balance
  subtract_balance-Moves s from amount h e = ground (
    arith,
    fw.sub_le (get_balance s from) amount,
    set_balance_total s from (get_balance s from - amount) h,
    insert-IsUnique from (get_balance s from - amount) s.balance h,
  )

  transfer-Moves :
      (s : Feeds) (from to amount : ℕ) {t : Feeds}
      → IsUnique s.balance
      → transfer s from to amount ≡ ok t
      → Moves s t 0 0
  unfolding transfer
  transfer-Moves s from to amount {t} h e = elim (Result-cases (subtract_balance s from amount)) [
    | inr (m, f) ↦ absurd (ground arith)
    | inl (u, f) ↦
        let less = subtract_balance-Moves s from amount h f in
        let more = add_balance-Moves u to amount less.unique in ground (arith, less, more)
  ]

  -- A query takes its price from the balance of the caller to that of the contract.
  pub query-Moves :
      (env : Env) (s : Feeds) {t : Feeds}
      → IsUnique s.balance
      → subtract_query_payment env s ≡ ok t
      → Moves s t 0 0
  unfolding subtract_query_payment
  query-Moves env s h e = transfer-Moves s env.caller env.sc_address s.query_payment_amount h e

  pub submit-balance :
      (env : Env) (s : Feeds) (from to : List ℕ) (price : ℕ) {t : Feeds}
      → submit env s from to price ≡ ok t
      → (t.balance ≡ s.balance) × (t.payment_token ≡ s.payment_token)
  unfolding submit create_new_round count_submission
  submit-balance env s from to price h = ground arith

  -- what a query leaves is what its payment left
  pub latest_price_feed-pays :
      (env : Env) (s : Feeds) (from to : List ℕ) {r : PriceFeed × Feeds}
      → latest_price_feed env s from to ≡ ok r
      → subtract_query_payment env s ≡ ok (r.1)
  unfolding latest_price_feed
  latest_price_feed-pays env s from to h = elim (Result-cases (subtract_query_payment env s)) [
    | inr (m, f) ↦ absurd (ground arith)
    | inl (t, f) ↦ ground arith
  ]

  pub latest_round_data-pays :
      (env : Env) (s : Feeds) {r : List PriceFeed × Feeds}
      → latest_round_data env s ≡ ok r
      → subtract_query_payment env s ≡ ok (r.1)
  unfolding latest_round_data
  latest_round_data-pays env s h = elim (Result-cases (subtract_query_payment env s)) [
    | inr (m, f) ↦ absurd (ground arith)
    | inl (t, f) ↦ ground arith
  ]

  -- what `or_default` enters for the caller does not count
  entered-Moves :
      (s : Feeds) (address : ℕ)
      → IsUnique s.balance
      → Moves s (record s { balance = insert address (get_balance s address) s.balance }) 0 0
  entered-Moves s address h = ground (
    arith,
    set_balance_total s address (get_balance s address) h,
    insert-IsUnique address (get_balance s address) s.balance h,
  )

  -- an optional query leaves what its payment left, or the entry of the caller
  pub optional-Moves :
      (env : Env) (s : Feeds) (from to : List ℕ) {r : Option PriceFeed × Feeds}
      → IsUnique s.balance
      → latest_price_feed_optional env s from to ≡ ok r
      → Moves s r.1 0 0
  unfolding latest_price_feed_optional
  optional-Moves env s from to h e = elim (Result-cases (subtract_query_payment env s)) [
    | inr (m, f) ↦ ground (arith, entered-Moves s env.caller h)
    | inl (t, f) ↦ ground (arith, entered-Moves s env.caller h, query-Moves env s h f)
  ]

  pub deposit-Moves :
      (env : Env) (s : Feeds) (payment : ℕ) (token : List ℕ) (on_behalf_of : Option ℕ) {t : Feeds}
      → IsUnique s.balance
      → deposit env s payment token on_behalf_of ≡ ok t
      → Moves s t payment 0 × (token ≡ s.payment_token)
  unfolding deposit
  deposit-Moves env s payment token none h e =
      ground
        (arith, add_balance-Moves s env.caller payment h, bytes_eq.beq_law token s.payment_token)
  deposit-Moves env s payment token (some to) h e =
      ground (arith, add_balance-Moves s to payment h, bytes_eq.beq_law token s.payment_token)

  pub withdraw-Moves :
      (env : Env) (s : Feeds) (amount : ℕ) {r : Transfer × Feeds}
      → IsUnique s.balance
      → withdraw env s amount ≡ ok r
      → Moves s r.1 0 (r.0.amount) × (r.0.token ≡ s.payment_token)
  unfolding withdraw
  withdraw-Moves env s amount h e = elim (Result-cases (subtract_balance s env.caller amount)) [
    | inr (m, f) ↦ absurd (ground arith)
    | inl (t, f) ↦ ground (arith, subtract_balance-Moves s env.caller amount h f)
  ]
