-- ===== src/Exchange/Contract.antt =====
-- The endpoints, the callback and the balances of exchange/src/lib.rs. A callback is not rolled
-- back by the errors that it handles itself, so these are values next to the storage they leave.
use sc_chainlink_rs.Prelude.{
  ℕ, ◌+◌, ◌*◌, ◌/◌, ◌%◌, ◌^◌, Bool, true, false, ◌&&◌, Option, none, some, List, [], ◌∷◌, ◌++◌, ltb,
  ◌==◌, nat_eq, bytes_eq, if◌then◌else◌, codes,
}
use sc_chainlink_rs.Framework.{
  Holdings, Result, ok, ◌>>=◌, ◌>>◌, require, Env, Transfer, Framework, ◌-!◌,
}
use sc_chainlink_rs.Framework.Map.{Map, get, insert, contains_key, measure}
use sc_chainlink_rs.Aggregator.State.{Round}
use sc_chainlink_rs.Exchange.Api.{ExchangeApi}
use sc_chainlink_rs.Exchange.Format.{format_biguint, format_fixed_precision}

pub record Exchange : Type 0 where
  pub aggregator : ℕ
  pub balance : Map (List ℕ) ℕ

-- Rust's `Result<A, BoxedBytes>` inside the callback
pub data Attempt (A : Type 0) : Type 0 where
  done : A → Attempt A
  failed : List ℕ → Attempt A

-- `AsyncCallResult<OptionalArg<Round>>`
pub data CallResult : Type 0 where
  answered : Option Round → CallResult
  call_error : List ℕ → CallResult

-- the asynchronous call of `exchange` to the aggregator, with the arguments of its callback
pub record Pending : Type 0 where
  pub to : ℕ
  pub caller : ℕ
  pub payment : ℕ
  pub source_token : List ℕ
  pub target_token : List ℕ

-- `init`
unfoldable pub init : ℕ → Exchange
init aggregator = record { aggregator = aggregator; balance = [] }

unfoldable pub balance_of : Exchange → List ℕ → ℕ
balance_of s token = measure (λ amount. amount) (get token s.balance)

unfoldable pub increase_balance : Exchange → List ℕ → ℕ → Exchange
unfolding balance_of
increase_balance s token amount = record s {
  balance = insert token (balance_of s token + amount) s.balance;
}

-- `deposit`
unfoldable pub deposit : Env → Exchange → ℕ → List ℕ → Result Exchange
deposit env s payment token = do
  require (env.caller == env.owner) "Only the owner can deposit tokens"
  ok (increase_balance s token payment)

-- `exchange`
unfoldable pub exchange : Env → Exchange → ℕ → List ℕ → List ℕ → Result (Pending × Exchange)
exchange env s payment source_token target_token = do
  require (ltb 0 payment) "Payment must be more than 0"
  require (contains_key source_token s.balance)
      "ESDT provided as payment not supported by the exchange"
  require (contains_key target_token s.balance) "Target ESDT token not supported by the exchange"
  ok (
    record {
      to = s.aggregator;
      caller = env.caller;
      payment = payment;
      source_token = source_token;
      target_token = target_token;
    },
    increase_balance s source_token payment,
  )

-- `slice.iter().position(|item| *item == '/' as u8)`, counted from `index`
unfoldable pub slash_position : ℕ → List ℕ → Option ℕ
slash_position index [] = none
slash_position index (item ∷ rest) =
    if item == b'/' then some index else slash_position (index + 1) rest

-- `10u64.pow(decimals)`: the product wraps around
unfoldable pub precision_factor : ℕ → ℕ
precision_factor decimals = 10 ^ decimals % 2 ^ 64

module _ ⦃api : ExchangeApi⦄ where
  -- whether the exchange goes against the direction of the description
  unfoldable pub check_aggregator_tokens : List ℕ → List ℕ → List ℕ → Attempt Bool
  unfolding slash_position
  check_aggregator_tokens description source_token target_token =
      elim (slash_position 0 description) [
        | none ↦ failed (codes "Invalid aggregator description format (expected 2 tokens)")
        | some delimiter_position ↦
            let parts = api.split description delimiter_position in
            let first_token = api.token_from parts.0 in
            let second_token = api.token_from parts.1 in
            if first_token == source_token && second_token == target_token
            then done false
            else if first_token == target_token && second_token == source_token
            then done true
            else failed (codes "Exchange between chosen token types not supported.")
      ]

  unfoldable pub conversion_message : ℕ → List ℕ → ℕ → ℕ → ℕ → List ℕ → List ℕ
  conversion_message payment source_token rate rate_precision converted_token target_token =
      codes "conversion from "
      ++ (format_biguint payment
          ++ (codes " of "
              ++ (api.as_name source_token
                  ++ (codes ", using exchange rate "
                      ++ (format_fixed_precision rate rate_precision
                          ++ (codes ", results in "
                              ++ (format_biguint converted_token
                                  ++ (codes " of " ++ api.as_name target_token))))))))

  unfoldable pub convert : ℕ → List ℕ → List ℕ → ℕ → ℕ → ℕ → ℕ → Attempt (ℕ × List ℕ)
  convert amount source_token target_token multiplier divisor precision_factor decimals =
      if divisor == 0
      then failed (codes "Convert - dividing by 0")
      else let converted_amount = amount * multiplier / divisor in
        let rate = multiplier * precision_factor / divisor in
        done (
          converted_amount,
          conversion_message amount source_token rate decimals converted_amount target_token,
        )

  unfoldable pub get_converted_sum : ℕ → List ℕ → List ℕ → ℕ → ℕ → Bool → Attempt (ℕ × List ℕ)
  unfolding convert
  get_converted_sum payment source_token target_token exchange_rate decimals reverse_exchange =
      let factor = precision_factor decimals in
      if reverse_exchange
      then convert payment source_token target_token factor exchange_rate factor decimals
      else convert payment source_token target_token exchange_rate factor factor decimals

  -- the part of `try_convert` up to the conversion, which reads the storage nowhere
  unfoldable pub quote : Option Round → ℕ → List ℕ → List ℕ → Attempt (ℕ × List ℕ)
  quote none payment source_token target_token = failed (codes "no round data")
  quote (some round) payment source_token target_token = elim (round.answer) [
    | none ↦ failed (codes "no aggregator data")
    | some submission ↦ elim (submission.values) [
      | [] ↦ failed (codes "invalid aggregator data format")
      | exchange_rate ∷ more ↦ elim more [
        | (x ∷ xs) ↦ failed (codes "invalid aggregator data format")
        | [] ↦ elim (check_aggregator_tokens round.description source_token target_token) [
          | failed message ↦ failed message
          | done reverse_exchange ↦
              get_converted_sum payment source_token target_token exchange_rate round.decimals
                reverse_exchange
        ]
      ]
    ]
  ]

  module _ ⦃fw : Framework⦄ where
    unfoldable pub decrease_balance : Exchange → List ℕ → ℕ → Result Exchange
    unfolding balance_of
    decrease_balance s token amount = do
      balance ← balance_of s token -! amount
      ok (record s { balance = insert token balance s.balance })

    -- the two messages of `checked_decrease_balance`
    abbrev pub no_tokens : List ℕ → List ℕ
    no_tokens token = codes "No " ++ (api.as_name token ++ codes " tokens are available")

    abbrev pub insufficient : List ℕ → ℕ → List ℕ
    insufficient token balance =
        codes "Insufficient balance: only "
        ++ (format_biguint balance ++ (codes " of " ++ (api.as_name token ++ codes " available")))

    unfoldable pub checked_decrease_balance :
        Exchange → List ℕ → ℕ → Result (Attempt (Unit {0}) × Exchange)
    unfolding decrease_balance
    checked_decrease_balance s token amount = elim (get token s.balance) [
      | none ↦ ok (failed (no_tokens token), s)
      | some balance ↦
          if ltb balance amount
          then ok (failed (insufficient token balance), s)
          else (do s' ← decrease_balance s token amount; ok (done tt, s'))
    ]

    -- the match on the balance at the end of the answered branch of `try_convert`
    unfoldable pub charge :
        Exchange → List ℕ → ℕ × List ℕ → Result (Attempt (ℕ × List ℕ) × Exchange)
    unfolding checked_decrease_balance
    charge s target_token (converted_amount, conversion_message) = do
      r ← checked_decrease_balance s target_token converted_amount
      elim (r.0) [
        | failed error ↦
            ok (failed (error ++ (codes " (" ++ (conversion_message ++ codes ")"))), r.1)
        | done _ ↦ ok (done (converted_amount, conversion_message), r.1)
      ]

    unfoldable pub try_convert :
        Exchange → CallResult → ℕ → List ℕ → List ℕ → Result (Attempt (ℕ × List ℕ) × Exchange)
    unfolding charge checked_decrease_balance
    try_convert s (answered round) payment source_token target_token =
        elim (quote round payment source_token target_token) [
          | failed message ↦ ok (failed message, s)
          | done conversion ↦ charge s target_token conversion
        ]
    try_convert s (call_error message) payment source_token target_token = do
      r ← checked_decrease_balance s source_token payment
      elim (r.0) [
        | failed error ↦ ok (failed error, r.1)
        | done _ ↦ ok (
          failed (codes "Error when getting the price feed from the aggregator: " ++ message),
          r.1,
        )
      ]

    -- the two transfers that `finalize_exchange` may send
    abbrev pub exchange_transfer : ℕ → List ℕ → ℕ × List ℕ → Transfer
    exchange_transfer caller target_token conversion = record {
      to = caller;
      token = target_token;
      amount = conversion.0;
      message = codes "exchange succesful " ++ (codes "(" ++ (conversion.1 ++ codes ")"));
    }

    abbrev pub refund_transfer : ℕ → List ℕ → ℕ → List ℕ → Transfer
    refund_transfer caller source_token payment error = record {
      to = caller;
      token = source_token;
      amount = payment;
      message = codes "refund (" ++ (error ++ codes ")");
    }

    -- the transfer that `finalize_exchange` asks for, and the storage it leaves
    unfoldable pub chosen_transfer :
        Exchange → CallResult → ℕ → ℕ → List ℕ → List ℕ → Result (Transfer × Exchange)
    unfolding try_convert
    chosen_transfer s result caller payment source_token target_token = do
      r ← try_convert s result payment source_token target_token
      elim (r.0) [
        | done conversion ↦ ok (exchange_transfer caller target_token conversion, r.1)
        | failed error ↦ ok (refund_transfer caller source_token payment error, r.1)
      ]

    -- The callback `finalize_exchange`. Its `send().direct` ends the callback with an error when the
    -- contract holds less than the transfer asks for; else what is left is held.
    unfoldable pub finalize_exchange :
        Holdings
        → Exchange
        → CallResult
        → ℕ
        → ℕ
        → List ℕ
        → List ℕ
        → Result (Transfer × Holdings × Exchange)
    finalize_exchange held s result caller payment source_token target_token = do
      r ← chosen_transfer s result caller payment source_token target_token
      left ← fw.direct held (r.0)
      ok (r.0, left, r.1)
