-- ===== src/Aggregator/Funds/Deposits.antt =====
-- How a payment is taken out of the deposits, in whatever order the storage iterates over them.
use sc_chainlink_rs.Prelude.{
  ℕ, ◌+◌, ◌-◌, ◌≤◌, ◌≡◌, refl, ap, List, [], ◌∷◌, none, arith, leb, ◌==◌, nat_eq, Bool-cases, inl,
  inr, min,
}
use sc_chainlink_rs.Framework.{ok, ◌>>=◌, Framework, Result-cases}
use sc_chainlink_rs.Framework.Map.{Map, get, total, measure, IsUnique}
use sc_chainlink_rs.Framework.Map.Laws.{
  get-insert, get-remove, insert-IsUnique, remove-IsUnique, total-insert, total-remove,
}
use sc_chainlink_rs.Framework.Map.Order.{Agrees, perm-IsUnique, perm-Agrees, perm-total}
use sc_chainlink_rs.Aggregator.State.{State}
use sc_chainlink_rs.Aggregator.Funds.{
  set_deposit, set_deposits, final_amounts, subtract_amount_from_deposits,
}

abbrev pub deposit_total : Map ℕ ℕ → ℕ
deposit_total = total (λ amount. amount)

-- `set_deposit` touches the deposits alone.
set_deposits-rest :
    (s : State) (fs : List (ℕ × ℕ))
    → set_deposits s fs ≡ record s { deposits = (set_deposits s fs).deposits }
unfolding set_deposits set_deposit
set_deposits-rest s [] = refl
set_deposits-rest s ((a, x) ∷ fs) = set_deposits-rest (record s { deposits = _ }) fs

-- Writing one deposit replaces the old amount in the sum.
pub set_deposit_total :
    (s : State) (a x : ℕ)
    → IsUnique s.deposits
    → let m = (set_deposit s a x).deposits in
      IsUnique m
      × (deposit_total m + measure (λ amount. amount) (get a s.deposits)
          ≡ deposit_total s.deposits + x)
unfolding set_deposit
set_deposit_total s a x u = elim (Bool-cases (x == 0)) [
  | inl e ↦ rw e (
    remove-IsUnique a s.deposits u,
    ground (arith, total-remove (λ amount. amount) a s.deposits u),
  )
  | inr e ↦ rw e (insert-IsUnique a x s.deposits u, total-insert (λ amount. amount) a x s.deposits)
]

set_deposit-Agrees :
    (s : State) (a x : ℕ) (es : Map ℕ ℕ)
    → get a es ≡ none
    → Agrees s.deposits es
    → Agrees (set_deposit s a x).deposits es
unfolding set_deposit get
set_deposit-Agrees s a x [] h g = tt
set_deposit-Agrees s a x ((b, d) ∷ es) h g =
    ground
      (arith, set_deposit-Agrees s a x es, get-insert b a x s.deposits, get-remove b a s.deposits)

module _ ⦃fw : Framework⦄ where
  -- what the two loops do to a map that holds the entries that they go through
  drain :
      (es : Map ℕ ℕ) (remaining : ℕ) (s : State)
      → IsUnique es
      → Agrees s.deposits es
      → IsUnique s.deposits
      → (fs : List (ℕ × ℕ)) × (final_amounts es remaining ≡ ok fs)
        × IsUnique (set_deposits s fs).deposits
        × (deposit_total (set_deposits s fs).deposits + min remaining (deposit_total es)
            ≡ deposit_total s.deposits)
  unfolding final_amounts set_deposits
  drain [] remaining s ue g u = ([], refl, u, omega arith)
  drain ((a, d) ∷ es) remaining s ue g u = elim (Bool-cases (remaining == 0)) [
    | inl done ↦ ([], rw done, u, ground arith)
    | inr more ↦ elim (Bool-cases (leb d remaining)) [
      | inl fits ↦
          let (u', t) = set_deposit_total s a 0 u in
          let (fs, e, w, sum) =
            drain es (remaining - d) (set_deposit s a 0) ue.1 (set_deposit-Agrees s a 0 es ue.0 g.1)
              u' in
          (
            (a, 0) ∷ fs,
            rw (more, fits, fw.sub_le remaining d (ground arith), ◌>>=◌, e),
            w,
            ground arith,
          )
      | inr large ↦
          let (u', t) = set_deposit_total s a (d - remaining) u in
          let (fs, e, w, sum) =
            drain es 0 (set_deposit s a (d - remaining)) ue.1
              (set_deposit-Agrees s a (d - remaining) es ue.0 g.1) u' in
          (
            (a, d - remaining) ∷ fs,
            rw (more, large, fw.sub_le d remaining (ground arith), ◌>>=◌, e),
            w,
            ground arith,
          )
    ]
  ]

  -- the payment touches the deposits alone
  pub subtract_amount-rest :
      (s : State) (amount : ℕ) {t : State}
      → subtract_amount_from_deposits s amount ≡ ok t
      → t ≡ record s { deposits = t.deposits }
  unfolding subtract_amount_from_deposits
  subtract_amount-rest s amount h =
      elim (Result-cases (final_amounts (fw.iter ℕ ℕ s.deposits) amount)) [
        | inr (m, e) ↦ ground arith
        | inl (fs, e) ↦ ground (arith, set_deposits-rest s fs)
      ]

  -- A payment that the deposits cover is taken out of them exactly, the keys stay unique, and
  -- nothing else of the storage changes; this holds for every order of the iteration.
  pub subtract_amount-total :
      (s : State) (amount : ℕ)
      → IsUnique s.deposits
      → amount ≤ deposit_total s.deposits
      → (m : Map ℕ ℕ) × (subtract_amount_from_deposits s amount ≡ ok (record s { deposits = m }))
        × IsUnique m
        × (deposit_total m + amount ≡ deposit_total s.deposits)
  unfolding subtract_amount_from_deposits
  subtract_amount-total s amount u h =
      let p = fw.iter-perm ℕ ℕ s.deposits in
      let (fs, e, w, sum) =
        drain (fw.iter ℕ ℕ s.deposits) amount s (perm-IsUnique p u) (perm-Agrees p u) u in
      (
        (set_deposits s fs).deposits,
        rw (e, ◌>>=◌) (ap ok (set_deposits-rest s fs)),
        w,
        omega (arith, sum, perm-total (λ a. a) p),
      )
