-- ===== src/Median/Rank.antt =====
-- What a median is: at least half of the values lie at or below it, and at least half at or
-- above it. `calculate` finds such a value in every list that is not empty.
use sc_chainlink_rs.Prelude.{
  ℕ, zero, suc, ◌+◌, ◌-◌, ◌*◌, ◌/◌, ◌%◌, ◌≤◌, ◌<◌, ◌≡◌, ◌≢◌, refl, ap, List, [], ◌∷◌, some, arith,
  leb, length, get_elem?, get_elem?-some, All, if◌then◌else◌, Bool-cases, inl, inr, ◌==◌, nat_eq,
}
use mathlib.Core.List.{Perm}
use sc_chainlink_rs.Framework.{ok}
use sc_chainlink_rs.Median.{calculate, middle, sort, insert_sorted}
use sc_chainlink_rs.Median.Sorting.{
  IsSorted, All-weaken, sort-IsSorted, length-sort, sort-eq_of_perm,
}

-- the number of values that are at most `m`
abbrev pub at_most : ℕ → List ℕ → ℕ
at_most m [] = 0
at_most m (x ∷ xs) = (if leb x m then 1 else 0) + at_most m xs

-- the number of values that are at least `m`
abbrev pub at_least : ℕ → List ℕ → ℕ
at_least m [] = 0
at_least m (x ∷ xs) = (if leb m x then 1 else 0) + at_least m xs

All-get_elem? :
    (P : ℕ → Type 0) (xs : List ℕ) (i : ℕ) {v : ℕ} → All P xs → get_elem? xs i ≡ some v → P v
All-get_elem? P [] i h e = cc
All-get_elem? P (x ∷ xs) zero h e = ground arith
All-get_elem? P (x ∷ xs) (suc i) h e = All-get_elem? P xs i h.1 e

at_least-All : (m : ℕ) (xs : List ℕ) → All (λ y. m ≤ y) xs → at_least m xs ≡ length xs
at_least-All m [] h = refl
at_least-All m (x ∷ xs) h = ground (arith, at_least-All m xs h.1)

at_most-get_elem? :
    (m v : ℕ) (xs : List ℕ) (i : ℕ)
    → IsSorted xs
    → get_elem? xs i ≡ some v
    → v ≤ m
    → i < at_most m xs
at_most-get_elem? m v [] i s e h = cc
at_most-get_elem? m v (x ∷ xs) zero s e h = ground arith
at_most-get_elem? m v (x ∷ xs) (suc i) s e h =
    ground (arith, at_most-get_elem? m v xs i s.1 e h, All-get_elem? (λ y. x ≤ y) xs i s.0 e)

at_least-get_elem? :
    (m v : ℕ) (xs : List ℕ) (i : ℕ)
    → IsSorted xs
    → get_elem? xs i ≡ some v
    → m ≤ v
    → length xs ≤ i + at_least m xs
at_least-get_elem? m v [] i s e h = cc
at_least-get_elem? m v (x ∷ xs) zero s e h =
    ground (arith, at_least-All m xs (All-weaken x m xs (ground arith) s.0))
at_least-get_elem? m v (x ∷ xs) (suc i) s e h = ground (arith, at_least-get_elem? m v xs i s.1 e h)

at_most-insert_sorted :
    (m x : ℕ) (xs : List ℕ) → at_most m (insert_sorted x xs) ≡ at_most m (x ∷ xs)
unfolding insert_sorted
at_most-insert_sorted m x [] = refl
at_most-insert_sorted m x (y ∷ ys) = ground (arith, at_most-insert_sorted m x ys)

at_least-insert_sorted :
    (m x : ℕ) (xs : List ℕ) → at_least m (insert_sorted x xs) ≡ at_least m (x ∷ xs)
unfolding insert_sorted
at_least-insert_sorted m x [] = refl
at_least-insert_sorted m x (y ∷ ys) = ground (arith, at_least-insert_sorted m x ys)

at_most-sort : (m : ℕ) (xs : List ℕ) → at_most m (sort xs) ≡ at_most m xs
unfolding sort
at_most-sort m [] = refl
at_most-sort m (x ∷ xs) = omega (arith, at_most-insert_sorted m x (sort xs), at_most-sort m xs)

at_least-sort : (m : ℕ) (xs : List ℕ) → at_least m (sort xs) ≡ at_least m xs
unfolding sort
at_least-sort m [] = refl
at_least-sort m (x ∷ xs) = omega (arith, at_least-insert_sorted m x (sort xs), at_least-sort m xs)

-- `m` has at least half of the values on either side.
pub record IsMedian (m : ℕ) (xs : List ℕ) : Type 0 where
  pub below : length xs ≤ 2 * at_most m xs
  pub above : length xs ≤ 2 * at_least m xs

get_elem?_mono :
    (xs : List ℕ) (i j : ℕ) {a b : ℕ}
    → IsSorted xs
    → i ≤ j
    → get_elem? xs i ≡ some a
    → get_elem? xs j ≡ some b
    → a ≤ b
get_elem?_mono [] i j s h ea eb = cc
get_elem?_mono (x ∷ xs) zero zero s h ea eb = ground arith
get_elem?_mono (x ∷ xs) zero (suc j) s h ea eb =
    ground (arith, All-get_elem? (λ y. x ≤ y) xs j s.0 eb)
get_elem?_mono (x ∷ xs) (suc i) zero s h ea eb = absurd (omega arith)
get_elem?_mono (x ∷ xs) (suc i) (suc j) s h ea eb = get_elem?_mono xs i j s.1 (omega arith) ea eb

middle_even :
    (l : List ℕ) (a b : ℕ)
    → IsSorted l
    → 0 < length l
    → length l % 2 ≡ 0
    → get_elem? l (length l / 2 - 1) ≡ some a
    → get_elem? l (length l / 2) ≡ some b
    → IsMedian ((a + b) / 2) l
middle_even l a b s pos even ea eb =
    let ordered = get_elem?_mono l _ _ s (omega arith) ea eb in
    let below = at_most-get_elem? ((a + b) / 2) a l _ s ea (omega arith) in
    let above = at_least-get_elem? ((a + b) / 2) b l _ s eb (omega arith) in omega arith

middle_odd :
    (l : List ℕ) (a : ℕ)
    → IsSorted l
    → length l % 2 ≢ 0
    → get_elem? l (length l / 2) ≡ some a
    → IsMedian a l
middle_odd l a s odd ea =
    let below = at_most-get_elem? a a l _ s ea (omega arith) in
    let above = at_least-get_elem? a a l _ s ea (omega arith) in omega arith

middle-IsMedian :
    (l : List ℕ) → IsSorted l → 0 < length l → (m : ℕ) × (middle l ≡ ok (some m)) × IsMedian m l
middle-IsMedian l s pos = elim (Bool-cases (length l % 2 == 0)) [
  | inl even ↦
      let (a, ea) = get_elem?-some l (length l / 2 - 1) (ground arith) in
      let (b, eb) = get_elem?-some l (length l / 2) (ground arith) in
      ((a + b) / 2, rw (even, ea, eb), middle_even l a b s pos (ground arith) ea eb)
  | inr odd ↦
      let (a, ea) = get_elem?-some l (length l / 2) (ground arith) in
      (a, rw (odd, ea), middle_odd l a s (ground arith) ea)
]

-- Of a list that is not empty `calculate` returns a median: at least half of the values are at
-- most the result, and at least half are at least the result.
pub calculate-IsMedian :
    (x : ℕ) (xs : List ℕ) → (m : ℕ) × (calculate (x ∷ xs) ≡ ok (some m)) × IsMedian m (x ∷ xs)
unfolding calculate
calculate-IsMedian x xs =
    let l = x ∷ xs in
    let (m, e, h) = middle-IsMedian (sort l) (sort-IsSorted l) (rw (length-sort l) (omega arith)) in
    (m, e, omega (arith, length-sort l, at_most-sort m l, at_least-sort m l, h.below, h.above))

-- The median does not depend on the order in which the values came in.
pub calculate-eq_of_perm : {xs ys : List ℕ} → Perm xs ys → calculate xs ≡ calculate ys
unfolding calculate
calculate-eq_of_perm {xs = []} {ys = []} p = refl
calculate-eq_of_perm {xs = []} {ys = y ∷ ys} p =
    absurd (omega (arith, ap length (sort-eq_of_perm p), length-sort (y ∷ ys)))
calculate-eq_of_perm {xs = x ∷ xs} {ys = []} p =
    absurd (omega (arith, ap length (sort-eq_of_perm p), length-sort (x ∷ xs)))
calculate-eq_of_perm {xs = x ∷ xs} {ys = y ∷ ys} p = ap middle (sort-eq_of_perm p)
