-- ===== src/Tests/Median.antt =====
-- tests/median_tests.rs, and the theorems on medians at concrete submissions.
use sc_chainlink_rs.Prelude.{ℕ, ◌≡◌, refl, [], ◌∷◌, none, some, length}
use mathlib.Core.List.Perm
use sc_chainlink_rs.Framework.{ok}
use sc_chainlink_rs.Median.{Submission, calculate, calculate_submission_median}
use sc_chainlink_rs.Median.Rank.{IsMedian, calculate-IsMedian, calculate-eq_of_perm}
use sc_chainlink_rs.Median.Columns.{AreMedians, calculate_submission_median-AreMedians}

test_median_empty : calculate [] ≡ ok none
unfolding calculate
test_median_empty = refl

test_median_odd : calculate (20 ∷ 10 ∷ 15 ∷ 17 ∷ 19 ∷ 11 ∷ 12 ∷ []) ≡ ok (some 15)
unfolding calculate
test_median_odd = refl

test_median_even : calculate (20 ∷ 10 ∷ 15 ∷ 16 ∷ 17 ∷ 19 ∷ 11 ∷ 12 ∷ []) ≡ ok (some 15)
unfolding calculate
test_median_even = refl

abbrev submission_a : Submission
submission_a = record { values = 100 ∷ 5000 ∷ 200 ∷ [] }

abbrev submission_b : Submission
submission_b = record { values = 110 ∷ 5010 ∷ 210 ∷ [] }

test_median_submission :
    calculate_submission_median (submission_a ∷ submission_b ∷ [])
    ≡ ok (some (record { values = 105 ∷ 5005 ∷ 205 ∷ [] }))
unfolding calculate_submission_median
test_median_submission = refl

calculate-IsMedian_example :
    (m : ℕ) × (calculate (7 ∷ 1 ∷ 3 ∷ []) ≡ ok (some m)) × IsMedian m (7 ∷ 1 ∷ 3 ∷ [])
calculate-IsMedian_example = calculate-IsMedian 7 (1 ∷ 3 ∷ [])

calculate-eq_of_perm_example : calculate (7 ∷ 1 ∷ []) ≡ calculate (1 ∷ 7 ∷ [])
calculate-eq_of_perm_example = calculate-eq_of_perm (Perm.swap 1 7 [])

calculate_submission_median-AreMedians_example :
    (m : Submission) × (calculate_submission_median (submission_a ∷ submission_b ∷ [])
      ≡ ok (some m))
    × (length m.values ≡ 3)
    × AreMedians (submission_a ∷ submission_b ∷ []) 0 m.values
calculate_submission_median-AreMedians_example =
    calculate_submission_median-AreMedians submission_a (submission_b ∷ []) (refl, tt)
