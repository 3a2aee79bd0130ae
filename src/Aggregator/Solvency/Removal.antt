-- ===== src/Aggregator/Solvency/Removal.antt =====
-- What `changeOracles` of aggregator/src/lib.rs does to the rewards of an oracle that it removes.
use sc_chainlink_rs.Prelude.{
  ℕ, ◌≡◌, ◌≢◌, refl, false, List, [], ◌∷◌, ◌++◌, none, arith, inl, inr, nat_eq, All,
}
use sc_chainlink_rs.Framework.{ok, Env, Framework, is_ok, Result-cases}
use sc_chainlink_rs.Framework.Map.{get, insert, remove}
use sc_chainlink_rs.Framework.Map.Laws.{get-insert, get-remove, get-remove_self}
use sc_chainlink_rs.Aggregator.State.{State}
use sc_chainlink_rs.Aggregator.Reads.{get_oracle_status_result, get_starting_round}
use sc_chainlink_rs.Aggregator.Funds.{withdraw_payment}
use sc_chainlink_rs.Aggregator.Admin.{
  update_future_rounds_internal, remove_oracles, new_oracle, add_oracle, add_oracles,
  change_oracles,
}

remove_oracles-none :
    (s : State) (removed : List ℕ) (oracle : ℕ)
    → get oracle s.oracles ≡ none
    → get oracle (remove_oracles s removed).oracles ≡ none
unfolding remove_oracles
remove_oracles-none s [] oracle h = h
remove_oracles-none s (o ∷ removed) oracle h =
    remove_oracles-none (record s { oracles = remove o s.oracles }) removed oracle
      (ground (arith, get-remove oracle o s.oracles))

remove_oracles-gone :
    (s : State) (first rest : List ℕ) (oracle : ℕ)
    → get oracle (remove_oracles s (first ++ oracle ∷ rest)).oracles ≡ none
unfolding remove_oracles
remove_oracles-gone s [] rest oracle =
    remove_oracles-none (record s { oracles = remove oracle s.oracles }) rest oracle
      (get-remove_self oracle s.oracles)
remove_oracles-gone s (o ∷ first) rest oracle =
    remove_oracles-gone (record s { oracles = remove o s.oracles }) first rest oracle

remove_oracles-funds :
    (s : State) (removed : List ℕ) → (remove_oracles s removed).recorded_funds ≡ s.recorded_funds
unfolding remove_oracles
remove_oracles-funds s [] = refl
remove_oracles-funds s (o ∷ removed) =
    remove_oracles-funds (record s { oracles = remove o s.oracles }) removed

add_oracles-none :
    (s : State) (added admins : List ℕ) (oracle : ℕ) {t : State}
    → All (λ a. oracle ≢ a) added
    → get oracle s.oracles ≡ none
    → add_oracles s added admins ≡ ok t
    → (get oracle t.oracles ≡ none) × (t.recorded_funds ≡ s.recorded_funds)
unfolding add_oracles add_oracle
add_oracles-none s (o ∷ added) (a ∷ admins) oracle {t} others gone h =
    elim (Result-cases (add_oracle s o a)) [
      | inr (m, e) ↦ absurd (ground arith)
      | inl (u, e) ↦
          let status = new_oracle (get_starting_round s o) a in
          let enters : u ≡ record s { oracles = insert o status s.oracles } = ground arith in
          let kept : get oracle u.oracles ≡ none =
            ground (arith, get-insert oracle o status s.oracles, others.0) in
          ground (arith, add_oracles-none u added admins oracle {t = t} others.1 kept)
    ]
add_oracles-none s [] _ oracle others gone h = ground arith
add_oracles-none s _ [] oracle others gone h = ground arith

-- When an accepted `changeOracles` removes an oracle, which stands anywhere in the list of those to
-- remove and is not added again, its rewards are
-- lost: the recorded funds are as before, the allocated ones included, and every withdrawal for
-- the oracle is refused, whoever asks.
pub removed-forfeits :
    ⦃fw : Framework⦄ (env env' : Env) (s : State) (oracle : ℕ) (first rest added admins : List ℕ)
    (lo hi delay recipient amount : ℕ) {t : State}
    → All (λ a. oracle ≢ a) added
    → change_oracles env s (first ++ oracle ∷ rest) added admins lo hi delay ≡ ok t
    → (t.recorded_funds ≡ s.recorded_funds)
      × (is_ok (withdraw_payment env' t oracle recipient amount) ≡ false)
unfolding change_oracles update_future_rounds_internal withdraw_payment get_oracle_status_result
removed-forfeits env env' s oracle first rest added admins lo hi delay recipient amount {t} others
      h =
    let removed = first ++ oracle ∷ rest in
    let s₁ = remove_oracles s removed in
    let gone = remove_oracles-gone s first rest oracle in
    let funds = remove_oracles-funds s removed in
    elim (Result-cases (add_oracles s₁ added admins)) [
      | inr (m, e) ↦ absurd (ground arith)
      | inl (u, e) ↦ ground (arith, funds, add_oracles-none s₁ added admins oracle others gone e)
    ]
