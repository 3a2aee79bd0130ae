-- ===== src/PriceAggregator/Median.antt =====
-- price-aggregator/src/median.rs, a copy of the function of the Aggregator.
use sc_chainlink_rs.Prelude.{
  ℕ, ◌+◌, ◌-◌, ◌/◌, ◌%◌, ◌≡◌, refl, Option, none, some, List, [], ◌∷◌, length, get_elem?, ◌==◌,
  nat_eq, if◌then◌else◌,
}
use sc_chainlink_rs.Framework.{Result, ok, ◌>>=◌, ok_or}
use sc_chainlink_rs.Median
use sc_chainlink_rs.Median.{sort}

abbrev middle : List ℕ → Result (Option ℕ)
middle list =
    let len = length list in
    let middle_index = len / 2 in
    if len % 2 == 0
    then (do
      median1 ← ok_or (get_elem? list (middle_index - 1)) "median1 invalid index"
      median2 ← ok_or (get_elem? list middle_index) "median2 invalid index"
      ok (some ((median1 + median2) / 2)))
    else (do median ← ok_or (get_elem? list middle_index) "median invalid index"; ok (some median))

unfoldable pub calculate : List ℕ → Result (Option ℕ)
unfolding sort
calculate [] = ok none
calculate (x ∷ xs) = middle (sort (x ∷ xs))

-- The two copies are the same function.
pub calculate-eq : (list : List ℕ) → calculate list ≡ Median.calculate list
unfolding calculate Median.calculate
calculate-eq [] = refl
calculate-eq (x ∷ xs) = refl
