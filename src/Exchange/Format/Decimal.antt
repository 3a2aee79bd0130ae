-- ===== src/Exchange/Format/Decimal.antt =====
-- What the decimal text says: the digits of the number, and the point at the right place.
use sc_chainlink_rs.Prelude.{
  ℕ, zero, suc, ◌+◌, ◌-◌, ◌*◌, ◌/◌, ◌%◌, ◌^◌, ◌≤◌, ◌<◌, ◌≡◌, refl, ap, sym, ◌∙◌, List, [], ◌∷◌,
  ◌++◌, arith, length, replicate, All,
}
use mathlib.Core.Path.{ap₂}
use mathlib.Core.List.{reverse, reverse-append}
use mathlib.Core.Logic.{dif_pos, dif_neg}
use mathlib.Core.WellFounded.{Acc}
use native.Mathlib.Bridge.{le_prop}
use native.Mathlib.Decide.{dec_lt}
use native.Mathlib.Nat.{pow-suc, mul-le-mul_right}
use sc_chainlink_rs.Exchange.Api.{ExchangeApi}
use sc_chainlink_rs.Exchange.Format.{digit_char, tenth_lt, push_digits}

-- the number that decimal text stands for, read from the left on top of `acc`
abbrev pub value_from : ℕ → List ℕ → ℕ
value_from acc [] = acc
value_from acc (c ∷ cs) = value_from (acc * 10 + (c - b'0')) cs

abbrev pub IsDigit : ℕ → Type 0
IsDigit c = (b'0' ≤ c) × (c ≤ b'9')

shift_step : (a d p v : ℕ) → (a * 10 + d) * p + v ≡ a * (p * 10) + ((0 * 10 + d) * p + v)
shift_step a d p v = grind arith

-- the same value, with the start taken apart
value_from-shift : (acc : ℕ) (l : List ℕ) → value_from acc l ≡ acc * 10 ^ length l + value_from 0 l
value_from-shift acc [] = omega arith
value_from-shift acc (c ∷ cs) =
    let d = c - b'0' in
    let p = 10 ^ length cs in
    let power : 10 ^ length (c ∷ cs) ≡ p * 10 = pow-suc 10 (length cs) in
    value_from-shift (acc * 10 + d) cs
    ∙ shift_step acc d p (value_from 0 cs)
    ∙ ap₂ (λ q v. acc * q + v) (sym power) (sym (value_from-shift (0 * 10 + d) cs))

pub value_from-append_from :
    (acc : ℕ) (l r : List ℕ)
    → value_from acc (l ++ r) ≡ value_from acc l * 10 ^ length r + value_from 0 r
value_from-append_from acc [] r = value_from-shift acc r
value_from-append_from acc (c ∷ cs) r = value_from-append_from (acc * 10 + (c - b'0')) cs r

pub value_from_lt : (l : List ℕ) → All IsDigit l → value_from 0 l < 10 ^ length l
value_from_lt [] h = omega arith
value_from_lt (c ∷ cs) h =
    let d = c - b'0' in
    let power : 10 ^ length (c ∷ cs) ≡ 10 ^ length cs * 10 = pow-suc 10 (length cs) in
    let small : d * 10 ^ length cs ≤ 9 * 10 ^ length cs =
      mul-le-mul_right (10 ^ length cs) (omega (arith, h)) in
    omega (arith, value_from_lt cs h.1, value_from-shift (0 * 10 + d) cs, small, power)

pub value_from_zeros : (k : ℕ) (l : List ℕ) → value_from 0 (replicate k b'0' ++ l) ≡ value_from 0 l
value_from_zeros zero l = refl
value_from_zeros (suc k) l = value_from_zeros k l

pub replicate-IsDigit : (k : ℕ) → All IsDigit (replicate k b'0')
replicate-IsDigit zero = tt
replicate-IsDigit (suc k) = ((omega arith, omega arith), replicate-IsDigit k)

module _ ⦃api : ExchangeApi⦄ where
  pub digit_char_lem : (d : ℕ) → d < 10 → digit_char d ≡ b'0' + d
  unfolding digit_char
  digit_char_lem zero h = rw api.to_bytes_be_zero
  digit_char_lem (suc d) h =
      rw (api.to_bytes_be_byte (suc d) (omega arith) (omega arith)) (omega arith)

  module _ (n : ℕ) (smaller : (m : ℕ) → m < n → Acc ◌<◌ m) (r : List ℕ) where
    pub push_digits_more :
        (more : 0 < n / 10)
        → push_digits n (Acc.intro n smaller) r
          ≡ push_digits (n / 10) (smaller (n / 10) (tenth_lt more)) (r ++ digit_char (n % 10) ∷ [])
    unfolding push_digits
    push_digits_more more = dif_pos (dec_lt 0 (n / 10)) le_prop more _ _

    pub push_digits_last :
        ¬ (0 < n / 10) → push_digits n (Acc.intro n smaller) r ≡ r ++ digit_char (n % 10) ∷ []
    unfolding push_digits
    push_digits_last last = dif_neg (dec_lt 0 (n / 10)) last _ _

  pub reverse_push : (r : List ℕ) (c : ℕ) → reverse (r ++ c ∷ []) ≡ c ∷ reverse r
  reverse_push r c = reverse-append r (c ∷ [])

  pub push_digits_value :
      (n : ℕ) (w : Acc ◌<◌ n) (r : List ℕ)
      → value_from 0 (reverse (push_digits n w r)) ≡ value_from n (reverse r)
  push_digits_value n (Acc.intro _ smaller) r =
      let digit = digit_char_lem (n % 10) (omega arith) in
      elim (dec_lt 0 (n / 10)) [
        | yes more ↦
            let rest : n / 10 * 10 + (digit_char (n % 10) - b'0') ≡ n = omega arith in
            rw (push_digits_more n smaller r more) (
              push_digits_value (n / 10) (smaller (n / 10) (tenth_lt more)) _
              ∙ ap (value_from (n / 10)) (reverse_push r (digit_char (n % 10)))
              ∙ ap (λ k. value_from k (reverse r)) rest)
        | no last ↦
            let rest : 0 * 10 + (digit_char (n % 10) - b'0') ≡ n = omega arith in
            rw (push_digits_last n smaller r last) (
              ap (value_from 0) (reverse_push r (digit_char (n % 10)))
              ∙ ap (λ k. value_from k (reverse r)) rest)
      ]
