-- ===== src/Tests/Exchange.antt =====
-- tests/formatting_tests.rs, and the theorems on the exchange at concrete data.
use sc_chainlink_rs.Prelude.{
  ℕ, zero, suc, ◌+◌, ◌*◌, ◌/◌, ◌%◌, ◌^◌, ◌≤◌, ◌<◌, ◌≡◌, refl, ap, true, false, List, [], ◌∷◌, ◌++◌,
  none, some, arith, ◌==◌, nat_eq, bytes_eq, codes, if◌then◌else◌, length, take, drop, All,
}
use sc_chainlink_rs.Framework.{Holdings, credit, debit, is_ok, ok, Transfer}
use sc_chainlink_rs.Framework.Map.{get}
use sc_chainlink_rs.Aggregator.State.{Round}
use sc_chainlink_rs.Exchange.Api.{ExchangeApi}
use sc_chainlink_rs.Exchange.Format.{digit_char, format_biguint, format_fixed_precision}
use sc_chainlink_rs.Exchange.Format.Decimal.{value_from, IsDigit}
use sc_chainlink_rs.Exchange.Format.Fixed.{format_biguint-value, format_fixed_precision-value}
use sc_chainlink_rs.Exchange.Contract.{
  Exchange, Pending, done, failed, answered, balance_of, increase_balance, exchange,
  precision_factor, conversion_message, convert, get_converted_sum, quote, finalize_exchange,
}
use sc_chainlink_rs.Exchange.Rates.{
  get_converted_sum-floor, round_trip_le, get_converted_sum-wrapped,
}
use sc_chainlink_rs.Exchange.Settlement.{
  Settlement, finalize_exchange-Settlement, answered_refund-overstates,
}
use sc_chainlink_rs.Tests.Setting.{plain_framework}
use sc_chainlink_rs.Tests.Aggregator.{oracle_env}

unfoldable bytes : ℕ → ℕ → List ℕ
bytes zero n = []
bytes (suc fuel) n = let rest = bytes fuel (n / 256) in if n == 0 then [] else rest ++ n % 256 ∷ []

bytes_zero : (fuel : ℕ) → bytes fuel 0 ≡ []
unfolding bytes
bytes_zero zero = refl
bytes_zero (suc fuel) = refl

bytes_byte : (d : ℕ) → 0 < d → d < 256 → bytes d d ≡ d ∷ []
unfolding bytes
bytes_byte zero h g = absurd (omega arith)
bytes_byte (suc k) h g =
    let small : suc k / 256 ≡ 0 = omega arith in
    let same : suc k % 256 ≡ suc k = omega arith in ground (arith, ap (bytes k) small, bytes_zero k)

instance abbrev plain_api : ExchangeApi
unfolding bytes
plain_api = record {
  to_bytes_be = λ n. bytes n n;
  to_bytes_be_zero = refl;
  to_bytes_be_byte = bytes_byte;
  split = λ text position. (take position text, drop (suc position) text);
  token_from = λ text. text;
  as_name = λ text. text;
}

test_format_biguint : format_biguint 1000000000 ≡ codes "1000000000"
unfolding format_biguint digit_char bytes native.Mathlib.Decide.dec_lt
test_format_biguint = refl

test_format_fixed_precision : format_fixed_precision 123 5 ≡ codes "0.00123"
unfolding format_fixed_precision format_biguint digit_char bytes native.Mathlib.Decide.dec_lt
test_format_fixed_precision = refl

format_biguint-value_example :
    All IsDigit (format_biguint 120)
    × (0 < length (format_biguint 120))
    × (value_from 0 (format_biguint 120) ≡ 120)
format_biguint-value_example = format_biguint-value 120

format_fixed_precision-value_example :
    (whole fraction : List ℕ) × (format_fixed_precision 123 5 ≡ whole ++ b'.' ∷ fraction)
    × (All IsDigit whole × (0 < length whole) × (value_from 0 whole ≡ 123 / 10 ^ 5))
    × (All IsDigit fraction × (length fraction ≡ 5) × (value_from 0 fraction ≡ 123 % 10 ^ 5))
format_fixed_precision-value_example = format_fixed_precision-value 123 5

abbrev usd : List ℕ
usd = codes "USD"

abbrev eth : List ℕ
eth = codes "ETH"

factor_two : precision_factor 2 ≡ 100
unfolding precision_factor
factor_two = refl

get_converted_sum-floor_example :
    (amount : ℕ) × (message : List ℕ) × (get_converted_sum 7 eth usd 250 2 false
      ≡ done (amount, message))
    × (amount * precision_factor 2 ≤ 7 * 250)
    × (7 * 250 < (amount + 1) * precision_factor 2)
get_converted_sum-floor_example =
    get_converted_sum-floor 7 eth usd 250 2 false (omega (arith, factor_two))

there_run :
    get_converted_sum 7 eth usd 250 2 false ≡ done (17, conversion_message 7 eth 250 2 17 usd)
unfolding get_converted_sum convert precision_factor
there_run = refl

back_run : get_converted_sum 17 usd eth 250 2 true ≡ done (6, conversion_message 17 usd 40 2 6 eth)
unfolding get_converted_sum convert precision_factor
back_run = refl

round_trip_le_example : 6 ≤ 7
round_trip_le_example = round_trip_le 7 eth usd 250 2 false there_run back_run

get_converted_sum-wrapped_example :
    (get_converted_sum 7 eth usd 250 64 false ≡ failed (codes "Convert - dividing by 0"))
    × (0 < 250 → (message : List ℕ) × (get_converted_sum 7 eth usd 250 64 true ≡ done (0, message)))
get_converted_sum-wrapped_example = get_converted_sum-wrapped 7 eth usd 250 64 (omega arith)

abbrev shop : Exchange
shop = record { aggregator = 8; balance = (eth, 10) ∷ (usd, 20) ∷ [] }

abbrev price_round : Round
price_round = record {
  round_id = 1;
  answer = some (record { values = 250 ∷ [] });
  decimals = 2;
  description = codes "ETH/USD";
  started_at = 400;
  updated_at = 400;
  answered_in_round = 1;
}

finalize_exchange-Settlement_example :
    (sent : Transfer) × (s' : Exchange) × (sent.to ≡ 3)
    × Settlement shop (answered (some price_round)) 7 eth usd sent s'
    × (sent.amount ≤ 20
        → finalize_exchange (λ token. 20) shop (answered (some price_round)) 3 7 eth usd
          ≡ ok (sent, debit (λ token. 20) sent.token sent.amount, s'))
    × (20 < sent.amount
        → is_ok (finalize_exchange (λ token. 20) shop (answered (some price_round)) 3 7 eth usd)
          ≡ false)
finalize_exchange-Settlement_example =
    finalize_exchange-Settlement (λ token. 20) shop (answered (some price_round)) 3 7 eth usd

abbrev asked : Pending
asked = record { to = 8; caller = 2; payment = 7; source_token = eth; target_token = usd }

asked_run : exchange oracle_env shop 7 eth usd ≡ ok (asked, increase_balance shop eth 7)
unfolding exchange get
asked_run = refl

unanswered : quote none 7 eth usd ≡ failed (codes "no round data")
unfolding quote
unanswered = refl

answered_refund-overstates_example :
    (sent : Transfer) × (left : Holdings) × (s' : Exchange) × (finalize_exchange
        (credit (λ token. 20) eth 7)
        (increase_balance shop eth 7)
        (answered none)
        2
        7
        eth
        usd
      ≡ ok (sent, left, s'))
    × ((token : List ℕ) → left token ≡ 20)
    × (sent.to ≡ 2)
    × (sent.token ≡ eth)
    × (sent.amount ≡ 7)
    × (balance_of s' eth ≡ balance_of shop eth + 7)
answered_refund-overstates_example =
    answered_refund-overstates oracle_env (λ token. 20) shop 7 eth usd none (codes "no round data")
      asked_run unanswered
