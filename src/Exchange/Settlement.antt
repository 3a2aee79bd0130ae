-- ===== src/Exchange/Settlement.antt =====
-- What `finalize_exchange` of exchange/src/lib.rs sends and what it writes off, on every branch.
use sc_chainlink_rs.Prelude.{
  false, ℕ, ◌+◌, ◌≤◌, ◌<◌, ◌≡◌, ◌⊎◌, refl, List, Option, arith, inl, inr, bytes_eq, codes, ◌++◌,
}
use sc_chainlink_rs.Framework.{
  Result, err, Holdings, credit, debit, ok, ◌>>=◌, is_ok, Env, Transfer, Framework,
}
use sc_chainlink_rs.Framework.Map.Laws.{get-insert_self}
use sc_chainlink_rs.Aggregator.State.{Round}
use sc_chainlink_rs.Exchange.Api.{ExchangeApi}
use sc_chainlink_rs.Exchange.Contract.{
  Exchange, Pending, Attempt, done, failed, CallResult, answered, call_error, balance_of,
  increase_balance, exchange, quote, exchange_transfer, refund_transfer, charge, try_convert,
  chosen_transfer, finalize_exchange,
}
use sc_chainlink_rs.Exchange.Charging.{
  Charged, IsShort, passed, stopped, checked_decrease_balance-Check,
}

Attempt-cases :
    {A : Type 0} (r : Attempt A) → ((a : A) × (r ≡ done a)) ⊎ ((m : List ℕ) × (r ≡ failed m))
Attempt-cases (done a) = inl (a, refl)
Attempt-cases (failed m) = inr (m, refl)

-- The answer cannot be used: it gives no conversion, or the target balance does not cover what the
-- conversion gives.
abbrev pub IsUnusable : ⦃api : ExchangeApi⦄ → Exchange → Option Round → ℕ → List ℕ → List ℕ → Type 0
IsUnusable s round payment source target =
    ((message : List ℕ) × (quote round payment source target ≡ failed message))
    ⊎ ((amount : ℕ) × (message : List ℕ) × (quote round payment source target
          ≡ done (amount, message))
        × IsShort s target amount)

-- The four ways in which an exchange of `payment` ends.
pub data Settlement ⦃api : ExchangeApi⦄ (s : Exchange) (result : CallResult) (payment : ℕ)
    (source target : List ℕ) (sent : Transfer) (s' : Exchange) : Type 0 where
  exchanged :
      (round : Option Round) (message : List ℕ)
      → result ≡ answered round
      → quote round payment source target ≡ done (sent.amount, message)
      → sent.token ≡ target
      → Charged s target sent.amount s'
      → Settlement s result payment source target sent s'
  refused :
      (round : Option Round)
      → result ≡ answered round
      → IsUnusable s round payment source target
      → sent.token ≡ source
      → sent.amount ≡ payment
      → s' ≡ s
      → Settlement s result payment source target sent s'
  refunded :
      (message : List ℕ)
      → result ≡ call_error message
      → sent.token ≡ source
      → sent.amount ≡ payment
      → Charged s source payment s'
      → Settlement s result payment source target sent s'
  unbacked :
      (message : List ℕ)
      → result ≡ call_error message
      → sent.token ≡ source
      → sent.amount ≡ payment
      → s' ≡ s
      → IsShort s source payment
      → Settlement s result payment source target sent s'

-- What comes after a refused action is not reached.
refused_then :
    {A B : Type 0} (first : Result A) (next : A → Result B)
    → is_ok first ≡ false
    → is_ok (first >>= next) ≡ false
refused_then (err e) next h = refl
refused_then (ok a) next h = absurd (ground arith)

module _ ⦃api : ExchangeApi⦄ ⦃fw : Framework⦄ where
  chosen_transfer-Settlement :
      (s : Exchange) (result : CallResult) (caller payment : ℕ) (source target : List ℕ)
      → (sent : Transfer) × (s' : Exchange) × (chosen_transfer s result caller payment source target
          ≡ ok (sent, s'))
        × (sent.to ≡ caller)
        × Settlement s result payment source target sent s'
  unfolding chosen_transfer try_convert charge
  chosen_transfer-Settlement s (call_error message) caller payment source target =
      elim (checked_decrease_balance-Check s source payment) [
        | passed s' e c ↦ (
          refund_transfer caller source payment
              (codes "Error when getting the price feed from the aggregator: " ++ message),
          s',
          ground arith,
          refl,
          refunded message refl refl refl c,
        )
        | stopped m e short ↦ (
          refund_transfer caller source payment m,
          s,
          ground arith,
          refl,
          unbacked message refl refl refl refl short,
        )
      ]
  chosen_transfer-Settlement s (answered round) caller payment source target =
      elim (Attempt-cases (quote round payment source target)) [
        | inr (m, e) ↦ (
          refund_transfer caller source payment m,
          s,
          ground arith,
          refl,
          refused round refl (inl (m, e)) refl refl refl,
        )
        | inl ((amount, text), e) ↦ elim (checked_decrease_balance-Check s target amount) [
          | passed s' f c ↦ (
            exchange_transfer caller target (amount, text),
            s',
            ground arith,
            refl,
            exchanged round text refl e refl c,
          )
          | stopped m f short ↦ (
            refund_transfer caller source payment (m ++ (codes " (" ++ (text ++ codes ")"))),
            s,
            ground arith,
            refl,
            refused round refl (inr (amount, text, e, short)) refl refl refl,
          )
        ]
      ]

  -- The callback chooses one transfer to the caller of the exchange, and carries it out exactly if
  -- the contract holds that much of its token; else it fails and nothing changes. It sends the
  -- converted amount of the target token and takes it off the recorded balance, if the aggregator
  -- answered with a usable price and the balance covers the amount. If the aggregator answered and
  -- the answer gives no conversion or the balance is short, it sends the whole payment back and no
  -- balance changes. If the call to the aggregator failed, it sends the payment back, and takes it
  -- off the recorded balance if that covers it.
  pub finalize_exchange-Settlement :
      (held : Holdings) (s : Exchange) (result : CallResult) (caller payment : ℕ)
      (source target : List ℕ)
      → (sent : Transfer) × (s' : Exchange) × (sent.to ≡ caller)
        × Settlement s result payment source target sent s'
        × (sent.amount ≤ held sent.token
            → finalize_exchange held s result caller payment source target
              ≡ ok (sent, debit held sent.token sent.amount, s'))
        × (held sent.token < sent.amount
            → is_ok (finalize_exchange held s result caller payment source target) ≡ false)
  unfolding finalize_exchange
  finalize_exchange-Settlement held s result caller payment source target =
      let (sent, s', run, to, settled) =
        chosen_transfer-Settlement s result caller payment source target in
      (
        sent,
        s',
        to,
        settled,
        λ covers. rw (run, ◌>>=◌, fw.direct_le held sent covers) refl,
        λ short.
            rw (run, ◌>>=◌) (refused_then (fw.direct held sent) _ (fw.direct_lt held sent short)),
      )

  -- When the aggregator answers an exchange and the answer gives no conversion, the caller gets the
  -- whole payment back, so the contract holds of every token what it held before the exchange, yet
  -- the recorded balance of the source token stays raised by the payment.
  pub answered_refund-overstates :
      (env : Env) (held : Holdings) (s : Exchange) (payment : ℕ) (source target : List ℕ)
      {pending : Pending} {s₁ : Exchange} (round : Option Round) (message : List ℕ)
      → exchange env s payment source target ≡ ok (pending, s₁)
      → quote round payment source target ≡ failed message
      → (sent : Transfer) × (left : Holdings) × (s' : Exchange) × (finalize_exchange
            (credit held source payment)
            s₁
            (answered round)
            pending.caller
            pending.payment
            pending.source_token
            pending.target_token
          ≡ ok (sent, left, s'))
        × ((token : List ℕ) → left token ≡ held token)
        × (sent.to ≡ env.caller)
        × (sent.token ≡ source)
        × (sent.amount ≡ payment)
        × (balance_of s' source ≡ balance_of s source + payment)
  unfolding exchange increase_balance balance_of finalize_exchange chosen_transfer try_convert
  answered_refund-overstates env held s payment source target {pending} {s₁} round message h q =
      let raised = balance_of s source + payment in
      let sent = refund_transfer env.caller source payment message in
      let full = credit held source payment in
      let covers : payment ≤ full source = ground (arith, bytes_eq.beq_law source source) in
      (
        sent,
        debit full source payment,
        s₁,
        ground (arith, fw.direct_le full sent covers),
        λ token. ground (arith, bytes_eq.beq_law token source),
        refl,
        refl,
        refl,
        ground (arith, get-insert_self source raised s.balance),
      )
