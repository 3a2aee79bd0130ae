-- ===== src/Exchange/Format/Fixed.antt =====
-- `format_biguint` and `format_fixed_precision` of exchange/src/lib.rs against the value of the text.
use sc_chainlink_rs.Prelude.{
  ℕ, suc, ◌+◌, ◌-◌, ◌*◌, ◌/◌, ◌%◌, ◌^◌, ◌<◌, ◌≡◌, refl, ap, sym, ◌∙◌, List, [], ◌∷◌, ◌++◌, arith,
  length, take, drop, replicate, All, All-append, All-append_left, All-append_right,
  append-take-drop, length-append, length-replicate, length-drop,
}
use mathlib.Core.List.{reverse, reverse-cons}
use mathlib.Core.Path.{subst}
use mathlib.Core.WellFounded.{Acc}
use native.Mathlib.Decide.{dec_lt}
use native.Mathlib.Nat.{div-eq_of_lt-le, add-mul-mod_self_right, mod-eq_of_lt}
use sc_chainlink_rs.Exchange.Api.{ExchangeApi}
use sc_chainlink_rs.Exchange.Format.{
  digit_char, tenth_lt, push_digits, reach_below, format_biguint, format_fixed_precision,
}
use sc_chainlink_rs.Exchange.Format.Decimal.{
  value_from, IsDigit, value_from-append_from, value_from_lt, value_from_zeros, replicate-IsDigit,
  digit_char_lem, push_digits_more, push_digits_last, reverse_push, push_digits_value,
}

-- the quotient and the rest are determined by the number
divided : (n q r m : ℕ) → n ≡ q * m + r → r < m → (q ≡ n / m) × (r ≡ n % m)
divided n q r m e h =
    let quotient : n / m ≡ q = div-eq_of_lt-le m (omega arith) (grind arith) in
    let rest : n % m ≡ r =
      ap (λ k. k % m) (omega (arith, e)) ∙ add-mul-mod_self_right r q m ∙ mod-eq_of_lt h in
    (sym quotient, sym rest)

length-reverse : (l : List ℕ) → length (reverse l) ≡ length l
length-reverse [] = refl
length-reverse (x ∷ l) =
    ap length (reverse-cons x l)
    ∙ omega (arith, length-append (reverse l) (x ∷ []), length-reverse l)

module _ ⦃api : ExchangeApi⦄ where
  push_digits_digits :
      (n : ℕ) (w : Acc ◌<◌ n) (r : List ℕ)
      → All IsDigit (reverse r)
      → All IsDigit (reverse (push_digits n w r)) × (length r < length (push_digits n w r))
  push_digits_digits n (Acc.intro _ smaller) r h =
      let digit : IsDigit (digit_char (n % 10)) =
        rw (digit_char_lem (n % 10) (omega arith)) (omega arith, omega arith) in
      let longer = length-append r (digit_char (n % 10) ∷ []) in
      let all : All IsDigit (reverse (r ++ digit_char (n % 10) ∷ [])) =
        rw (reverse_push r (digit_char (n % 10))) (digit, h) in
      elim (dec_lt 0 (n / 10)) [
        | yes more ↦
            let (d, l) = push_digits_digits (n / 10) (smaller (n / 10) (tenth_lt more)) _ all in
            rw (push_digits_more n smaller r more) (d, omega arith)
        | no last ↦ rw (push_digits_last n smaller r last) (all, omega arith)
      ]

  -- The text of a number is not empty, consists of digits, and its value is the number.
  pub format_biguint-value :
      (n : ℕ)
      → All IsDigit (format_biguint n)
        × (0 < length (format_biguint n))
        × (value_from 0 (format_biguint n) ≡ n)
  unfolding format_biguint
  format_biguint-value n =
      let w = reach_below (suc n) n (omega arith) in
      let (d, l) = push_digits_digits n w [] tt in
      (d, omega (arith, l, length-reverse (push_digits n w [])), push_digits_value n w [])

  -- The text with a fixed number of decimals is digits, at least one of them, then a point, then
  -- exactly that many digits; before the point it says the quotient of the number by that power of
  -- ten, after the point the rest.
  pub format_fixed_precision-value :
      (number decimals : ℕ)
      → (whole fraction : List ℕ) × (format_fixed_precision number decimals
          ≡ whole ++ b'.' ∷ fraction)
        × (All IsDigit whole × (0 < length whole) × (value_from 0 whole ≡ number / 10 ^ decimals))
        × (All IsDigit fraction
            × (length fraction ≡ decimals)
            × (value_from 0 fraction ≡ number % 10 ^ decimals))
  unfolding format_fixed_precision
  format_fixed_precision-value number decimals =
      let text = format_biguint number in
      let (digits, some_digit, value) = format_biguint-value number in
      let padding = decimals + 1 - length text in
      let padded = replicate padding b'0' ++ text in
      let size : length padded ≡ padding + length text = omega (
        arith,
        length-append (replicate padding b'0') text,
        length-replicate {A = ℕ} padding b'0',
      ) in
      let before = length padded - decimals in
      let whole = take before padded in
      let fraction = drop before padded in
      let cut = append-take-drop before padded in
      let all : All IsDigit (whole ++ fraction) =
        subst (All IsDigit) cut
          (All-append IsDigit (replicate padding b'0') text (replicate-IsDigit padding) digits) in
      let after : length fraction ≡ decimals = omega (arith, length-drop before padded, size) in
      let some_whole : 0 < length whole =
        omega (arith, ap length cut, length-append whole fraction, size, after) in
      let fine = All-append_right IsDigit whole fraction all in
      let says : number ≡ value_from 0 whole * 10 ^ decimals + value_from 0 fraction =
        sym value
        ∙ sym (value_from_zeros padding text)
        ∙ ap (value_from 0) cut
        ∙ value_from-append_from 0 whole fraction
        ∙ ap (λ k. value_from 0 whole * 10 ^ k + value_from 0 fraction) after in
      let small : value_from 0 fraction < 10 ^ decimals =
        subst (λ k. value_from 0 fraction < 10 ^ k) after (value_from_lt fraction fine) in
      let (quotient, rest) =
        divided number (value_from 0 whole) (value_from 0 fraction) (10 ^ decimals) says small in
      (
        whole,
        fraction,
        refl,
        (All-append_left IsDigit whole fraction all, some_whole, quotient),
        (fine, after, rest),
      )
