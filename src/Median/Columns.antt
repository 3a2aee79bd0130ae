-- ===== src/Median/Columns.antt =====
-- The medians of a submission, value by value: the iterator chain of `skip` and `step_by` picks
-- the value of one index out of every submission, where all have the same number of values.
use sc_chainlink_rs.Prelude.{
  ℕ, zero, suc, ◌+◌, ◌-◌, ◌<◌, ◌≡◌, refl, ap, ◌∙◌, List, [], ◌∷◌, ◌++◌, none, some, arith, length,
  get_elem?, get_elem?-some, drop, All,
}
use sc_chainlink_rs.Framework.{ok}
use sc_chainlink_rs.Median.{
  Submission, calculate, flatten_values, step_by, column, medians_from, calculate_submission_median,
}
use sc_chainlink_rs.Median.Rank.{IsMedian, calculate-IsMedian}

-- Every submission has `n` values.
abbrev pub HaveLength : ℕ → List Submission → Type 0
HaveLength n = All (λ s. length s.values ≡ n)

-- the value of each submission at one index
unfoldable pub nth_values : ℕ → List Submission → List ℕ
nth_values index [] = []
nth_values index (s ∷ ss) = elim (get_elem? s.values index) [
  | none ↦ nth_values index ss
  | some v ↦ v ∷ nth_values index ss
]

-- Passing over a whole number of elements.
step_by-skip :
    (step skip k : ℕ) (xs ys : List ℕ)
    → k ≡ skip + length xs
    → step_by step k (xs ++ ys) ≡ step_by step skip ys
unfolding step_by
step_by-skip step skip k [] ys h = ap (λ j. step_by step j ys) (omega arith)
step_by-skip step skip zero (x ∷ xs) ys h = absurd (omega arith)
step_by-skip step skip (suc k) (x ∷ xs) ys h = step_by-skip step skip k xs ys (omega arith)

step_by-block :
    (step k i : ℕ) (xs ys : List ℕ) {v : ℕ}
    → get_elem? xs i ≡ some v
    → k + length xs ≡ step + i
    → step_by step i (xs ++ ys) ≡ v ∷ step_by step k ys
unfolding step_by
step_by-block step k i [] ys e h = cc
step_by-block step k zero (x ∷ xs) ys e h =
    ground (arith, step_by-skip step k (step - 1) xs ys (omega arith))
step_by-block step k (suc i) (x ∷ xs) ys e h = step_by-block step k i xs ys e (omega arith)

step_by-drop : (step i : ℕ) (xs : List ℕ) → step_by step 0 (drop i xs) ≡ step_by step i xs
unfolding step_by
step_by-drop step zero xs = refl
step_by-drop step (suc i) [] = refl
step_by-drop step (suc i) (x ∷ xs) = step_by-drop step i xs

step_by-flatten_values :
    (n i : ℕ) (ss : List Submission)
    → i < n
    → HaveLength n ss
    → step_by n i (flatten_values ss) ≡ nth_values i ss
unfolding flatten_values nth_values step_by
step_by-flatten_values n i [] h ls = refl
step_by-flatten_values n i (s ∷ ss) h (l, ls) =
    let (v, e) = get_elem?-some s.values i (omega arith) in
    rw (e, nth_values)
      (step_by-block n i i s.values (flatten_values ss) e (omega arith)
        ∙ ap (◌∷◌ v) (step_by-flatten_values n i ss h ls))

-- The iterator of an index yields that value of each submission, in order.
pub column-nth_values :
    (n i : ℕ) (ss : List Submission) → i < n → HaveLength n ss → column ss n i ≡ nth_values i ss
unfolding column
column-nth_values n i ss h ls =
    step_by-drop n i (flatten_values ss) ∙ step_by-flatten_values n i ss h ls

calculate-nth_values :
    (n i : ℕ) (s : Submission) (ss : List Submission)
    → i < n
    → HaveLength n (s ∷ ss)
    → (m : ℕ) × (calculate (column (s ∷ ss) n i) ≡ ok (some m)) × IsMedian m (nth_values i (s ∷ ss))
unfolding nth_values
calculate-nth_values n i s ss h ls =
    let (v, e) = get_elem?-some s.values i (omega arith) in
    let split : nth_values i (s ∷ ss) ≡ v ∷ nth_values i ss = rw (e, nth_values) in
    rw (column-nth_values n i (s ∷ ss) h ls, split) (calculate-IsMedian v (nth_values i ss))

-- The value at each index is a median of the values that the submissions have there.
abbrev pub AreMedians : List Submission → ℕ → List ℕ → Type 0
AreMedians ss i [] = Unit
AreMedians ss i (m ∷ ms) = IsMedian m (nth_values i ss) × AreMedians ss (i + 1) ms

medians_from-AreMedians :
    (n i rounds : ℕ) (s : Submission) (ss : List Submission)
    → i + rounds ≡ n
    → HaveLength n (s ∷ ss)
    → (ms : List ℕ) × (medians_from (s ∷ ss) n i rounds ≡ ok ms)
      × (length ms ≡ rounds)
      × AreMedians (s ∷ ss) i ms
unfolding medians_from
medians_from-AreMedians n i zero s ss h ls = ([], refl, refl, tt)
medians_from-AreMedians n i (suc rounds) s ss h ls =
    let (m, e, median) = calculate-nth_values n i s ss (omega arith) ls in
    let (ms, es, size, medians) = medians_from-AreMedians n (i + 1) rounds s ss (omega arith) ls in
    (m ∷ ms, rw (e, es), ap suc size, (median, medians))

-- When all submissions have the same number of values, the result exists and has as many, and
-- each of its values is a median of the values that the submissions have at that index.
pub calculate_submission_median-AreMedians :
    (s : Submission) (ss : List Submission)
    → HaveLength (length s.values) ss
    → (m : Submission) × (calculate_submission_median (s ∷ ss) ≡ ok (some m))
      × (length m.values ≡ length s.values)
      × AreMedians (s ∷ ss) 0 m.values
unfolding calculate_submission_median
calculate_submission_median-AreMedians s ss ls =
    let n = length s.values in
    let (ms, e, size, medians) = medians_from-AreMedians n 0 n s ss (omega arith) (refl, ls) in
    (record { values = ms }, rw e, size, medians)
