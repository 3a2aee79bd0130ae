-- ===== src/Exchange/Rates.antt =====
-- The arithmetic of a conversion: `convert` and `get_converted_sum` of exchange/src/lib.rs.
use sc_chainlink_rs.Prelude.{
  ℕ, zero, suc, ◌+◌, ◌-◌, ◌*◌, ◌/◌, ◌%◌, ◌^◌, ◌≤◌, ◌<◌, ◌≡◌, refl, ap, ◌∙◌, sym, Bool, true, false,
  not, List, arith, codes, if◌then◌else◌,
}
use native.Mathlib.Nat.{div-mul-le_self, le_of_mul-le-mul_right, lt-div-mul-add, pow-suc}
use sc_chainlink_rs.Exchange.Api.{ExchangeApi}
use sc_chainlink_rs.Exchange.Contract.{
  done, failed, precision_factor, conversion_message, convert, get_converted_sum,
}

-- Scaling up by `m / d` and back by `d / m`, rounding down both times, gains nothing.
scale_back_le : (a m d : ℕ) {b c : ℕ} → 0 < m → b ≡ a * m / d → c ≡ b * d / m → c ≤ a
scale_back_le a m d {b} {c} positive there back =
    let below : c * m ≤ b * d = rw back (div-mul-le_self (b * d) m) in
    let above : b * d ≤ a * m = rw there (div-mul-le_self (a * m) d) in
    le_of_mul-le-mul_right (omega (arith, below, above)) positive

-- what an amount is multiplied and divided by, at the rate `rate` and the precision `factor`
abbrev pub multiplier : ℕ → ℕ → Bool → ℕ
multiplier rate factor reverse = if reverse then factor else rate

abbrev pub divisor : ℕ → ℕ → Bool → ℕ
divisor rate factor reverse = if reverse then rate else factor

module _ ⦃api : ExchangeApi⦄ where
  get_converted_sum-parts :
      (payment : ℕ) (source target : List ℕ) (rate decimals : ℕ) (reverse : Bool) {amount : ℕ}
      {message : List ℕ}
      → get_converted_sum payment source target rate decimals reverse ≡ done (amount, message)
      → let factor = precision_factor decimals in
        (0 < divisor rate factor reverse)
        × (amount ≡ payment * multiplier rate factor reverse / divisor rate factor reverse)
  unfolding get_converted_sum convert
  get_converted_sum-parts payment source target rate decimals true h = ground arith
  get_converted_sum-parts payment source target rate decimals false h = ground arith

  -- A conversion succeeds unless it divides by zero, and its result is the exact quotient rounded
  -- down: forwards the payment times the rate over `10u64.pow(decimals)`, in reverse the payment
  -- times that power over the rate.
  pub get_converted_sum-floor :
      (payment : ℕ) (source target : List ℕ) (rate decimals : ℕ) (reverse : Bool)
      → let factor = precision_factor decimals in
        0 < divisor rate factor reverse
        → (amount : ℕ) × (message : List ℕ) × (get_converted_sum payment source target rate decimals
              reverse
            ≡ done (amount, message))
          × (amount * divisor rate factor reverse ≤ payment * multiplier rate factor reverse)
          × (payment * multiplier rate factor reverse < (amount + 1) * divisor rate factor reverse)
  unfolding get_converted_sum convert
  get_converted_sum-floor payment source target rate decimals true h =
      let factor = precision_factor decimals in
      let amount = payment * factor / rate in
      (
        amount,
        conversion_message payment source (factor * factor / rate) decimals amount target,
        ground arith,
        div-mul-le_self (payment * factor) rate,
        ground (arith, lt-div-mul-add {a = payment * factor} h),
      )
  get_converted_sum-floor payment source target rate decimals false h =
      let factor = precision_factor decimals in
      let amount = payment * rate / factor in
      (
        amount,
        conversion_message payment source (rate * factor / factor) decimals amount target,
        ground arith,
        div-mul-le_self (payment * rate) factor,
        ground (arith, lt-div-mul-add {a = payment * rate} h),
      )

  -- To convert a payment and to convert the result back at the same rate never gains anything,
  -- whichever direction comes first.
  pub round_trip_le :
      (payment : ℕ) (source target : List ℕ) (rate decimals : ℕ) (reverse : Bool) {there back : ℕ}
      {message message' : List ℕ}
      → get_converted_sum payment source target rate decimals reverse ≡ done (there, message)
      → get_converted_sum there target source rate decimals (not reverse) ≡ done (back, message')
      → back ≤ payment
  round_trip_le payment source target rate decimals true h g =
      let (_, e) = get_converted_sum-parts payment source target rate decimals true h in
      let (positive, f) = get_converted_sum-parts _ target source rate decimals false g in
      scale_back_le payment (precision_factor decimals) rate positive e f
  round_trip_le payment source target rate decimals false h g =
      let (_, e) = get_converted_sum-parts payment source target rate decimals false h in
      let (positive, f) = get_converted_sum-parts _ target source rate decimals true g in
      scale_back_le payment rate (precision_factor decimals) positive e f

power_wraps : (n : ℕ) → 10 ^ (n + 64) % 2 ^ 64 ≡ 0
power_wraps zero = refl
power_wraps (suc n) =
    let step : 10 ^ (suc n + 64) ≡ 10 ^ (n + 64) * 10 =
      ap (λ k. 10 ^ k) (omega arith) ∙ pow-suc 10 (n + 64) in
    omega (arith, power_wraps n, step)

precision_factor-zero : (decimals : ℕ) → 64 ≤ decimals → precision_factor decimals ≡ 0
unfolding precision_factor
precision_factor-zero decimals h =
    let back : decimals - 64 + 64 ≡ decimals = omega arith in
    ap (λ d. 10 ^ d % 2 ^ 64) (sym back) ∙ power_wraps (decimals - 64)

module _ ⦃api : ExchangeApi⦄ where
  -- For a price with 64 decimals or more every forward exchange is refused as a division by zero,
  -- and every reverse exchange at a positive rate yields nothing at all for the payment.
  pub get_converted_sum-wrapped :
      (payment : ℕ) (source target : List ℕ) (rate decimals : ℕ)
      → 64 ≤ decimals
      → (get_converted_sum payment source target rate decimals false
          ≡ failed (codes "Convert - dividing by 0"))
        × (0 < rate
            → (message : List ℕ) × (get_converted_sum payment source target rate decimals true
                ≡ done (0, message)))
  unfolding get_converted_sum convert
  get_converted_sum-wrapped payment source target rate decimals h =
      let gone = precision_factor-zero decimals h in
      (
        ground arith,
        λ positive. (conversion_message payment source 0 decimals 0 target, ground arith),
      )
