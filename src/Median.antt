-- ===== src/Median.antt =====
-- The median of submissions: aggregator/src/median.rs.
-- A `Vec` of big numbers is a list; `list.sort()` is an insertion sort, which returns the one
-- ascending rearrangement as every sort does.
pub mod Sorting
pub mod Rank
pub mod Columns
use sc_chainlink_rs.Prelude.{
  ℕ, zero, suc, ◌+◌, ◌-◌, ◌/◌, ◌%◌, Option, none, some, List, [], ◌∷◌, ◌++◌, length, get_elem?,
  drop, leb, ◌==◌, nat_eq, if◌then◌else◌,
}
use sc_chainlink_rs.Framework.{Result, ok, err, ◌>>=◌, ok_or}

-- `Submission`
pub record Submission : Type 0 where
  pub values : List ℕ

unfoldable pub insert_sorted : ℕ → List ℕ → List ℕ
insert_sorted x [] = x ∷ []
insert_sorted x (y ∷ ys) = if leb x y then x ∷ y ∷ ys else y ∷ insert_sorted x ys

-- `list.sort()`
unfoldable pub sort : List ℕ → List ℕ
unfolding insert_sorted
sort [] = []
sort (x ∷ xs) = insert_sorted x (sort xs)

-- the part of `calculate` behind `list.sort()`
abbrev pub middle : List ℕ → Result (Option ℕ)
middle list =
    let len = length list in
    let middle_index = len / 2 in
    if len % 2 == 0
    then (do
      median1 ← ok_or (get_elem? list (middle_index - 1)) "median1 invalid index"
      median2 ← ok_or (get_elem? list middle_index) "median2 invalid index"
      ok (some ((median1 + median2) / 2)))
    else (do median ← ok_or (get_elem? list middle_index) "median invalid index"; ok (some median))

unfoldable pub calculate : List ℕ → Result (Option ℕ)
unfolding sort
calculate [] = ok none
calculate (x ∷ xs) = middle (sort (x ∷ xs))

-- `.map(|submission| submission.values.iter()).flatten()`
unfoldable pub flatten_values : List Submission → List ℕ
flatten_values [] = []
flatten_values (s ∷ ss) = s.values ++ flatten_values ss

-- `.step_by(step)`, with the number of elements that are still passed over
unfoldable pub step_by : ℕ → ℕ → List ℕ → List ℕ
step_by step skip [] = []
step_by step zero (x ∷ xs) = x ∷ step_by step (step - 1) xs
step_by step (suc skip) (x ∷ xs) = step_by step skip xs

-- the values that the iterator of one index yields
unfoldable pub column : List Submission → ℕ → ℕ → List ℕ
unfolding flatten_values step_by
column submissions values_count index =
    step_by values_count 0 (drop index (flatten_values submissions))

-- the `for` loop over the indices from `index` on, `rounds` of them
unfoldable pub medians_from : List Submission → ℕ → ℕ → ℕ → Result (List ℕ)
unfolding column calculate
medians_from submissions values_count index zero = ok []
medians_from submissions values_count index (suc rounds) = do
  result ← calculate (column submissions values_count index)
  median ← ok_or result "called `Option::unwrap()` on a `None` value"
  rest ← medians_from submissions values_count (index + 1) rounds
  ok (median ∷ rest)

unfoldable pub calculate_submission_median : List Submission → Result (Option Submission)
unfolding medians_from
calculate_submission_median [] = ok none
calculate_submission_median (s ∷ ss) = do
  values ← medians_from (s ∷ ss) (length s.values) 0 (length s.values)
  ok (some (record { values = values }))
