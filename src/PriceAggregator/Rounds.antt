-- ===== src/PriceAggregator/Rounds.antt =====
-- How a submission of price-aggregator/src/lib.rs is stored, and how the last one closes a round.
use sc_chainlink_rs.Prelude.{
  ℕ, ◌%◌, ◌^◌, ◌≤◌, ◌<◌, ◌≡◌, ◌≢◌, refl, ap, sym, ◌∙◌, Bool, true, List, [], ◌∷◌, ◌++◌, some, arith,
  inl, inr, nat_eq, length, leb, Bool-cases, not, ◌==◌, leb→le, bytes_eq,
}
use mathlib.Core.Path.{subst}
use mathlib.Core.Logic.{∥∥₁_map}
use mathlib.Core.List.{Perm, Permᴰ}
use sc_chainlink_rs.Framework.{ok, Env, Framework}
use sc_chainlink_rs.Framework.Map.{Map, get, insert, contains_key}
use sc_chainlink_rs.Framework.Map.Laws.{get-insert, get-insert_self}
use sc_chainlink_rs.Median
use sc_chainlink_rs.Median.Rank.{IsMedian, calculate-IsMedian, calculate-eq_of_perm}
use sc_chainlink_rs.PriceAggregator.Median.{calculate, calculate-eq}
use sc_chainlink_rs.PriceAggregator.Contract.{
  TokenPair, pair_eq, Feeds, require_is_oracle, count_submission, entries_of, values,
  create_new_round, submit,
}

values-permᴰ : {m m' : Map ℕ ℕ} → Permᴰ m m' → Permᴰ (values m) (values m')
values-permᴰ Permᴰ.nil = Permᴰ.nil
values-permᴰ (Permᴰ.cons p d) = Permᴰ.cons (ap (λ e. e.1) p) (values-permᴰ d)
values-permᴰ (Permᴰ.swap p q) = Permᴰ.swap (ap (λ e. e.1) p) (ap (λ e. e.1) q)
values-permᴰ (Permᴰ.trans p q) = Permᴰ.trans (values-permᴰ p) (values-permᴰ q)

insert_cons : (k v : ℕ) (m : Map ℕ ℕ) → (x : ℕ) × (xs : List ℕ) × (values (insert k v m) ≡ x ∷ xs)
unfolding insert
insert_cons k v [] = (v, [], refl)
insert_cons k v ((j, w) ∷ m) = elim (Bool-cases (k == j)) [
  | inl e ↦ (v, values m, ground arith)
  | inr e ↦ (w, values (insert k v m), ground arith)
]

-- A storage map that is not empty has a median of its values, in whatever order they are read.
calculate-entries :
    ⦃fw : Framework⦄ (k : ℕ) (v : ℕ) (m : Map ℕ ℕ)
    → (price : ℕ) × (calculate (values (fw.iter ℕ ℕ (insert k v m))) ≡ ok (some price))
      × IsMedian price (values (insert k v m))
calculate-entries ⦃fw⦄ k v m =
    let m' = insert k v m in
    let (x, xs, e) = insert_cons k v m in
    let (price, f, median) = calculate-IsMedian x xs in
    let order : Perm (values (fw.iter ℕ ℕ m')) (values m') =
      ∥∥₁_map (fw.iter-perm ℕ ℕ m') values-permᴰ in
    (
      price,
      calculate-eq (values (fw.iter ℕ ℕ m'))
          ∙ calculate-eq_of_perm order
          ∙ ap Median.calculate e
          ∙ f,
      subst (IsMedian price) (sym e) median,
    )

-- How an accepted submission with the prices `submissions` leaves the feed of its pair.
pub data RoundEffects (s : Feeds) (pair : TokenPair) (submissions : Map ℕ ℕ) (t : Feeds)
    : Type 0 where
  closed :
      (price : ℕ)
      → s.submission_count ≤ length submissions % 2 ^ 32
      → IsMedian price (values submissions)
      → get pair t.rounds ≡ some (entries_of (get pair s.rounds) ++ price ∷ [])
      → get pair t.submissions ≡ some []
      → RoundEffects s pair submissions t
  waiting :
      length submissions % 2 ^ 32 < s.submission_count
      → t.rounds ≡ s.rounds
      → get pair t.submissions ≡ some submissions
      → RoundEffects s pair submissions t

abbrev Untouched : Feeds → TokenPair → Feeds → Type 0
Untouched s pair t =
    (other : TokenPair)
    → other ≢ pair
    → (get other t.rounds ≡ get other s.rounds)
      × (get other t.submissions ≡ get other s.submissions)

create_new_round-RoundEffects :
    ⦃fw : Framework⦄ (s : Feeds) (pair : TokenPair) (k v : ℕ) (m : Map ℕ ℕ)
    → (t : Feeds) × (create_new_round s pair (insert k v m) ≡ ok t)
      × RoundEffects s pair (insert k v m) t
      × Untouched s pair t
unfolding create_new_round
create_new_round-RoundEffects s pair k v m =
    let submissions = insert k v m in
    elim (Bool-cases (leb s.submission_count (length submissions % 2 ^ 32))) [
      | inl full ↦
          let (price, e, median) = calculate-entries k v m in
          let feeds = entries_of (get pair s.rounds) ++ price ∷ [] in
          (
            record s {
              rounds = insert pair feeds s.rounds;
              submissions = insert pair [] s.submissions;
            },
            ground arith,
            closed price (leb→le _ _ full) median (get-insert_self pair feeds s.rounds)
                (get-insert_self pair [] s.submissions),
            λ other differs. ground (
              arith,
              get-insert other pair feeds s.rounds,
              get-insert other pair [] s.submissions,
              pair_eq.beq_law other pair,
            ),
          )
      | inr short ↦ (
        record s { submissions = insert pair submissions s.submissions },
        ground arith,
        waiting (ground arith) refl (get-insert_self pair submissions s.submissions),
        λ other differs.
            ground
              (arith, get-insert other pair submissions s.submissions, pair_eq.beq_law other pair),
      )
    ]

count_submission-rest :
    (env : Env) (s : Feeds) (accepted : Bool)
    → let t = count_submission env s accepted in
      (t.submission_count ≡ s.submission_count)
      × (t.rounds ≡ s.rounds)
      × (t.submissions ≡ s.submissions)
unfolding count_submission
count_submission-rest env s accepted = ground arith

RoundEffects-same :
    (s u : Feeds) (pair : TokenPair) (submissions : Map ℕ ℕ) {t : Feeds}
    → u.submission_count ≡ s.submission_count
    → u.rounds ≡ s.rounds
    → RoundEffects u pair submissions t
    → RoundEffects s pair submissions t
RoundEffects-same s u pair submissions e f (closed price enough median rounds none_left) =
    closed price (rw (sym e) enough) median (rw (sym f) rounds) none_left
RoundEffects-same s u pair submissions e f (waiting few rounds kept) =
    waiting (rw (sym e) few) (rounds ∙ f) kept

-- Every submission of an oracle is accepted, whatever else is stored. It puts the price under the
-- oracle among the open submissions of the pair, and either these are fewer than the required
-- number, and stay, or the round closes with a median of them and no submission stays open. No
-- other pair is touched.
pub submit-RoundEffects :
    ⦃fw : Framework⦄ (env : Env) (s : Feeds) (from to : List ℕ) (price : ℕ)
    → contains_key env.caller s.oracle_status ≡ true
    → let pair : TokenPair = record { from = from; to = to } in
      let submissions = insert env.caller price (entries_of (get pair s.submissions)) in
      (t : Feeds) × (submit env s from to price ≡ ok t)
      × RoundEffects s pair submissions t
      × ((other : TokenPair)
          → other ≢ pair
          → (get other t.rounds ≡ get other s.rounds)
            × (get other t.submissions ≡ get other s.submissions))
unfolding submit require_is_oracle
submit-RoundEffects env s from to price h =
    let pair : TokenPair = record { from = from; to = to } in
    let submissions = entries_of (get pair s.submissions) in
    let accepted = not (contains_key env.caller submissions) in
    let s' = count_submission env s accepted in
    let (count, rounds, open_ones) = count_submission-rest env s accepted in
    let (t, run, effects, others) =
      create_new_round-RoundEffects s' pair env.caller price submissions in
    (
      t,
      ground arith,
      RoundEffects-same s s' pair (insert env.caller price submissions) count rounds effects,
      λ other differs. (
        (others other differs).0 ∙ ap (get other) rounds,
        (others other differs).1 ∙ ap (get other) open_ones,
      ),
    )
