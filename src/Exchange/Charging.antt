-- ===== src/Exchange/Charging.antt =====
-- `checked_decrease_balance` of exchange/src/lib.rs: what it writes off, and when it refuses.
use sc_chainlink_rs.Prelude.{
  ℕ, ◌+◌, ◌-◌, ◌≤◌, ◌<◌, ◌≡◌, ◌≢◌, ◌⊎◌, List, none, arith, inl, inr, bytes_eq, Option-cases,
  Bool-cases, ltb,
}
use sc_chainlink_rs.Framework.{ok, Framework}
use sc_chainlink_rs.Framework.Map.{get, insert}
use sc_chainlink_rs.Framework.Map.Laws.{get-insert, get-insert_self}
use sc_chainlink_rs.Exchange.Api.{ExchangeApi}
use sc_chainlink_rs.Exchange.Contract.{
  Exchange, done, failed, balance_of, decrease_balance, no_tokens, insufficient,
  checked_decrease_balance,
}

-- The recorded balance of `token` goes down by `amount`, which it covers, and no other changes.
pub record Charged (s : Exchange) (token : List ℕ) (amount : ℕ) (s' : Exchange) : Type 0 where
  pub covered : amount ≤ balance_of s token
  pub charged : balance_of s' token + amount ≡ balance_of s token
  pub others : (other : List ℕ) → other ≢ token → balance_of s' other ≡ balance_of s other

-- The balance of `token` does not cover `amount`: it was never recorded, or it is smaller.
abbrev pub IsShort : Exchange → List ℕ → ℕ → Type 0
IsShort s token amount = (get token s.balance ≡ none) ⊎ (balance_of s token < amount)

module _ ⦃api : ExchangeApi⦄ ⦃fw : Framework⦄ where
  insert-Charged :
      (s : Exchange) (token : List ℕ) (amount : ℕ)
      → amount ≤ balance_of s token
      → Charged s token amount
          (record s { balance = insert token (balance_of s token - amount) s.balance })
  unfolding balance_of
  insert-Charged s token amount h =
      let left = balance_of s token - amount in
      record {
        covered = h;
        charged = ground (arith, get-insert_self token left s.balance);
        others = λ other differs.
            ground (arith, get-insert other token left s.balance, bytes_eq.beq_law other token);
      }

  decrease_balance-le :
      (s : Exchange) (token : List ℕ) (amount : ℕ)
      → amount ≤ balance_of s token
      → decrease_balance s token amount
        ≡ ok (record s { balance = insert token (balance_of s token - amount) s.balance })
  unfolding decrease_balance
  decrease_balance-le s token amount h = ground (arith, fw.sub_le (balance_of s token) amount)

  -- how `checked_decrease_balance` ends
  pub data Check (s : Exchange) (token : List ℕ) (amount : ℕ) : Type 0 where
    passed :
        (s' : Exchange)
        → checked_decrease_balance s token amount ≡ ok (done tt, s')
        → Charged s token amount s'
        → Check s token amount
    stopped :
        (message : List ℕ)
        → checked_decrease_balance s token amount ≡ ok (failed message, s)
        → IsShort s token amount
        → Check s token amount

  pub checked_decrease_balance-Check :
      (s : Exchange) (token : List ℕ) (amount : ℕ) → Check s token amount
  unfolding checked_decrease_balance balance_of
  checked_decrease_balance-Check s token amount = elim (Option-cases (get token s.balance)) [
    | inl e ↦ stopped (no_tokens token) (ground arith) (inl e)
    | inr (b, e) ↦
        let known : balance_of s token ≡ b = ground arith in
        elim (Bool-cases (ltb b amount)) [
          | inl short ↦ stopped (insufficient token b) (ground arith) (inr (ground arith))
          | inr enough ↦
              let covers : amount ≤ balance_of s token = ground arith in
              passed _ (ground (arith, decrease_balance-le s token amount covers))
                (insert-Charged s token amount covers)
        ]
  ]
