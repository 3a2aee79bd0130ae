-- ===== src/Aggregator/Deadlock/Forever.antt =====
-- The endpoints of aggregator/src/lib.rs in a wedged state: what each leaves of the rounds.
use sc_chainlink_rs.Prelude.{ℕ, ◌≡◌, refl, List, [], ◌∷◌, arith, inl, inr, nat_eq}
use sc_chainlink_rs.Framework.{ok, Env, Framework, Result-cases}
use sc_chainlink_rs.Framework.Map.{remove}
use sc_chainlink_rs.Aggregator.State.{State}
use sc_chainlink_rs.Aggregator.Funds.{add_funds, withdraw_payment, withdraw_funds, set_deposit}
use sc_chainlink_rs.Aggregator.Admin.{
  update_future_rounds_internal, update_future_rounds, remove_oracles, add_oracle, add_oracles,
  change_oracles, transfer_admin, accept_admin, set_requester_permissions,
}
use sc_chainlink_rs.Aggregator.Views.{latest_round_data}
use sc_chainlink_rs.Aggregator.Calls.{
  Call, add_funds_call, submit_call, change_oracles_call, update_future_rounds_call,
  withdraw_payment_call, withdraw_funds_call, transfer_admin_call, accept_admin_call,
  request_new_round_call, set_requester_permissions_call, Outcome, perform, World, accept, reject,
  Reach, here, next,
}
use sc_chainlink_rs.Aggregator.Deadlock.{IsWedged, submit_wedged, request_new_round_wedged}

-- the storage of rounds is the same
pub record SameRounds (s t : State) : Type 0 where
  pub reporting : t.reporting_round_id ≡ s.reporting_round_id
  pub latest : t.latest_round_id ≡ s.latest_round_id
  pub rounds : t.rounds ≡ s.rounds
  pub details : t.details ≡ s.details

remove_oracles-SameRounds : (s : State) (removed : List ℕ) → SameRounds s (remove_oracles s removed)
unfolding remove_oracles
remove_oracles-SameRounds s [] = ground arith
remove_oracles-SameRounds s (o ∷ removed) =
    ground (arith, remove_oracles-SameRounds (record s { oracles = remove o s.oracles }) removed)

add_oracles-SameRounds :
    (s : State) (added admins : List ℕ) {t : State}
    → add_oracles s added admins ≡ ok t
    → SameRounds s t
unfolding add_oracles add_oracle
add_oracles-SameRounds s (o ∷ added) (a ∷ admins) {t} h = elim (Result-cases (add_oracle s o a)) [
  | inr (m, e) ↦ ground arith
  | inl (s', e) ↦ ground (arith, add_oracles-SameRounds s' added admins {t = t})
]
add_oracles-SameRounds s _ _ h = ground arith

change_oracles-SameRounds :
    (env : Env) (s : State) (removed added admins : List ℕ) (lo hi delay : ℕ) {t : State}
    → change_oracles env s removed added admins lo hi delay ≡ ok t
    → SameRounds s t
unfolding change_oracles update_future_rounds_internal
change_oracles-SameRounds env s removed added admins lo hi delay h =
    elim (Result-cases (add_oracles (remove_oracles s removed) added admins)) [
      | inr (m, e) ↦ ground arith
      | inl (s₂, e) ↦ ground (
        arith,
        remove_oracles-SameRounds s removed,
        add_oracles-SameRounds (remove_oracles s removed) added admins e,
      )
    ]

module _ ⦃fw : Framework⦄ where
  withdraw_funds-SameRounds :
      (env : Env) (s : State) (amount : ℕ) {o : Outcome}
      → perform env s (withdraw_funds_call amount) ≡ ok o
      → SameRounds s o.state
  unfolding perform withdraw_funds set_deposit
  withdraw_funds-SameRounds env s amount h = ground arith

  withdraw_payment-SameRounds :
      (env : Env) (s : State) (oracle recipient amount : ℕ) {o : Outcome}
      → perform env s (withdraw_payment_call oracle recipient amount) ≡ ok o
      → SameRounds s o.state
  unfolding perform withdraw_payment
  withdraw_payment-SameRounds env s oracle recipient amount h = ground arith

  wedged-SameRounds :
      (env : Env) (s : State) (call : Call) {o : Outcome}
      → IsWedged s
      → perform env s call ≡ ok o
      → SameRounds s o.state
  unfolding perform
  wedged-SameRounds env s (add_funds_call payment token) w h =
      unfold add_funds set_deposit in ground arith
  wedged-SameRounds env s (submit_call round_id values) w h =
      ground (arith, submit_wedged env s round_id values w)
  wedged-SameRounds env s (change_oracles_call removed added admins lo hi delay) w h =
      elim (Result-cases (change_oracles env s removed added admins lo hi delay)) [
        | inr (m, e) ↦ ground arith
        | inl (t, e) ↦
            ground (arith, change_oracles-SameRounds env s removed added admins lo hi delay e)
      ]
  wedged-SameRounds env s (update_future_rounds_call payment lo hi delay timeout) w h =
      unfold update_future_rounds update_future_rounds_internal in ground arith
  wedged-SameRounds env s (withdraw_payment_call oracle recipient amount) w h =
      withdraw_payment-SameRounds env s oracle recipient amount h
  wedged-SameRounds env s (withdraw_funds_call amount) w h =
      withdraw_funds-SameRounds env s amount h
  wedged-SameRounds env s (transfer_admin_call oracle new_admin) w h =
      unfold transfer_admin in ground arith
  wedged-SameRounds env s (accept_admin_call oracle) w h = unfold accept_admin in ground arith
  wedged-SameRounds env s request_new_round_call w h =
      ground (arith, request_new_round_wedged env s w)
  wedged-SameRounds env s (set_requester_permissions_call requester authorized delay) w h =
      unfold set_requester_permissions in ground arith

  SameRounds-IsWedged : (s t : State) → SameRounds s t → IsWedged s → IsWedged t
  SameRounds-IsWedged s t same w = record {
    started = rw same.reporting w.started;
    bounded = rw same.reporting w.bounded;
    round = w.round;
    found = rw (same.reporting, same.rounds) w.found;
    updated = w.updated;
    undetailed = rw (same.reporting, same.details) w.undetailed;
  }

  -- Once wedged, the contract stays wedged under every sequence of calls by anyone, the owner
  -- included, and its latest round data never change again.
  pub Reach-IsWedged :
      {w v : World}
      → IsWedged w.state
      → Reach w v
      → IsWedged v.state × (latest_round_data v.state ≡ latest_round_data w.state)
  unfolding latest_round_data
  Reach-IsWedged h here = (h, refl)
  Reach-IsWedged h (next {u} r reject) = Reach-IsWedged h r
  Reach-IsWedged h (next {u} r (accept env call o held run balance)) =
      let (w, same) = Reach-IsWedged h r in
      let keep = wedged-SameRounds env u.state call w run in
      (SameRounds-IsWedged u.state o.state keep w, rw (keep.latest, keep.rounds) same)
