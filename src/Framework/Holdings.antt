-- ===== src/Framework/Holdings.antt =====
-- What a contract holds of each token while the transfers of a call are carried out. A transfer to
-- the contract's own address counts as sent.
use sc_chainlink_rs.Prelude.{
  ℕ, ◌+◌, ◌≤◌, ◌≡◌, refl, List, [], ◌∷◌, leb, ◌==◌, bytes_eq, if◌then◌else◌, arith, inl, inr,
  Bool-cases, leb→le, sym, ap, ◌∙◌,
}
use sc_chainlink_rs.Framework.{
  Result, ok, err, ◌>>=◌, Transfer, Holdings, debit, Framework, Result-cases,
}

-- what some transfers take of one token
abbrev pub sent : List Transfer → List ℕ → ℕ
sent [] token = 0
sent (t ∷ ts) token = if token == t.token then t.amount + sent ts token else sent ts token

module _ ⦃fw : Framework⦄ where
  -- the transfers of a call, in their order
  unfoldable pub carry_out : Holdings → List Transfer → Result Holdings
  carry_out held [] = ok held
  carry_out held (t ∷ ts) = do left ← fw.direct held t; carry_out left ts

  -- the holdings in a result
  abbrev held_in : Result Holdings → Holdings → Holdings
  held_in (ok left) other = left
  held_in (err e) other = other

  -- A transfer that is sent was covered, and takes its amount of its token and nothing else.
  direct-sent :
      (held : Holdings) (t : Transfer) {left : Holdings}
      → fw.direct held t ≡ ok left
      → (t.amount ≤ held t.token) × (left ≡ debit held t.token t.amount)
  direct-sent held t {left} h = elim (Bool-cases (leb t.amount (held t.token))) [
    | inl e ↦
        let covers = leb→le t.amount (held t.token) e in
        (covers, ap (λ r. held_in r held) (sym h ∙ fw.direct_le held t covers))
    | inr e ↦ absurd (ground (arith, fw.direct_lt held t))
  ]

  -- Transfers that are carried out take exactly what they say of each token.
  pub carry_out-sent :
      (held : Holdings) (ts : List Transfer) {left : Holdings}
      → carry_out held ts ≡ ok left
      → (token : List ℕ) → left token + sent ts token ≡ held token
  unfolding carry_out
  carry_out-sent held [] {left} h token =
      let same : held token ≡ left token = ap (λ r. held_in r held token) h in omega arith
  carry_out-sent held (t ∷ ts) {left} h token = elim (Result-cases (fw.direct held t)) [
    | inr (m, e) ↦ absurd (ground arith)
    | inl (next, e) ↦
        let (covers, taken) = direct-sent held t e in
        let rest : carry_out next ts ≡ ok left =
          sym (ap (λ r. r >>= λ left. carry_out left ts) e) ∙ h in
        let less : next token ≡ debit held t.token t.amount token = ap (λ g. g token) taken in
        ground (arith, carry_out-sent next ts rest token, bytes_eq.beq_law token t.token)
  ]

  -- Transfers that take of each token at most what is held are carried out.
  pub carry_out-le :
      (held : Holdings) (ts : List Transfer)
      → ((token : List ℕ) → sent ts token ≤ held token)
      → (left : Holdings) × (carry_out held ts ≡ ok left)
  unfolding carry_out
  carry_out-le held [] h = (held, refl)
  carry_out-le held (t ∷ ts) h =
      let covers : t.amount ≤ held t.token =
        ground (arith, h t.token, bytes_eq.beq_law t.token t.token) in
      let (left, e) =
        carry_out-le (debit held t.token t.amount) ts
          λ token. ground (arith, h token, bytes_eq.beq_law token t.token) in
      (left, rw (fw.direct_le held t covers) e)
