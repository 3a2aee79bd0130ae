-- ===== src/Exchange/Format.antt =====
-- Decimal text: `format_biguint` and `format_fixed_precision` of exchange/src/lib.rs.
pub mod Decimal
pub mod Fixed
use sc_chainlink_rs.Prelude.{
  ℕ, zero, suc, ◌+◌, ◌-◌, ◌/◌, ◌%◌, ◌<◌, List, [], ◌∷◌, ◌++◌, arith, length, take, drop, replicate,
}
use mathlib.Core.List.{reverse}
use mathlib.Core.Logic.{dite}
use mathlib.Core.WellFounded.{Acc}
use native.Mathlib.Decide.{dec_lt}
use sc_chainlink_rs.Exchange.Api.{ExchangeApi}

-- Every number is reached from below.
pub reach_below : (bound n : ℕ) → n < bound → Acc ◌<◌ n
reach_below zero n h = absurd (omega arith)
reach_below (suc bound) n h = Acc.intro n λ m below. reach_below bound m (omega arith)

pub tenth_lt : {n : ℕ} → 0 < n / 10 → n / 10 < n
tenth_lt h = omega arith

-- `slice.get(0).unwrap_or(&0)`
abbrev pub first_or_zero : List ℕ → ℕ
first_or_zero [] = 0
first_or_zero (b ∷ bs) = b

module _ ⦃api : ExchangeApi⦄ where
  -- `'0' as u8 + digit`, on bytes
  unfoldable pub digit_char : ℕ → ℕ
  digit_char last_digit = (b'0' + first_or_zero (api.to_bytes_be last_digit) % 256) % 256

  -- The `loop`, with the digits from the last one on: it divides `nr` by ten until nothing is left.
  unfoldable pub push_digits : (nr : ℕ) → Acc ◌<◌ nr → List ℕ → List ℕ
  push_digits nr (Acc.intro _ smaller) result =
      let result' = result ++ digit_char (nr % 10) ∷ [] in
      dite (dec_lt 0 (nr / 10))
        (λ more. push_digits (nr / 10) (smaller (nr / 10) (tenth_lt more)) result')
        (λ done. result')

  unfoldable pub format_biguint : ℕ → List ℕ
  unfolding push_digits reach_below
  format_biguint number =
      reverse (push_digits number (reach_below (suc number) number (omega arith)) [])

  unfoldable pub format_fixed_precision : ℕ → ℕ → List ℕ
  format_fixed_precision number decimals =
      let formatted_number = format_biguint number in
      let padding_length = decimals + 1 - length formatted_number in
      let padded_number = replicate padding_length b'0' ++ formatted_number in
      let digits_before_dot = length padded_number - decimals in
      take digits_before_dot padded_number ++ (b'.' ∷ drop digits_before_dot padded_number)
