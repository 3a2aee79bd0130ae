-- ===== src/Framework/Map/Laws.antt =====
-- The laws of the storage maps: what is found after a write, unique keys, and sums over entries.
use sc_chainlink_rs.Prelude.{
  ℕ, ◌+◌, ◌≤◌, ◌≡◌, refl, none, some, [], ◌∷◌, arith, Eq, ◌==◌, beq_refl, if◌then◌else◌,
}
use sc_chainlink_rs.Framework.Map.{Map, measure, total, get, insert, remove, IsUnique}

module _ {K V : Type 0} ⦃e : Eq K⦄ where
  pub get-insert :
      (j k : K) (v : V) (m : Map K V) → get j (insert k v m) ≡ (if j == k then some v else get j m)
  unfolding get insert
  get-insert j k v [] = refl
  get-insert j k v ((i, w) ∷ m) =
      ground (arith, e.beq_law j k, e.beq_law k i, e.beq_law j i, get-insert j k v m)

  pub get-remove : (j k : K) (m : Map K V) → get j (remove k m) ≡ (if j == k then none else get j m)
  unfolding get remove
  get-remove j k [] = ground arith
  get-remove j k ((i, w) ∷ m) =
      ground (arith, e.beq_law j k, e.beq_law k i, e.beq_law j i, get-remove j k m)

  pub get-insert_self : (k : K) (v : V) (m : Map K V) → get k (insert k v m) ≡ some v
  get-insert_self k v m = simp (get-insert, beq_refl)

  pub get-remove_self : (k : K) (m : Map K V) → get k (remove k m) ≡ none
  get-remove_self k m = simp (get-remove, beq_refl)

  pub insert-IsUnique : (k : K) (v : V) (m : Map K V) → IsUnique m → IsUnique (insert k v m)
  unfolding insert get
  insert-IsUnique k v [] h = (refl, tt)
  insert-IsUnique k v ((j, w) ∷ m) h =
      ground (arith, insert-IsUnique k v m h.1, get-insert j k v m, e.beq_law j k, e.beq_law k j)

  pub remove-IsUnique : (k : K) (m : Map K V) → IsUnique m → IsUnique (remove k m)
  unfolding remove
  remove-IsUnique k [] h = tt
  remove-IsUnique k ((j, w) ∷ m) h = ground (arith, remove-IsUnique k m h.1, get-remove j k m)

  remove_absent : (k : K) (m : Map K V) → get k m ≡ none → remove k m ≡ m
  unfolding get remove
  remove_absent k [] h = refl
  remove_absent k ((j, w) ∷ m) h = ground (arith, remove_absent k m)

  module _ (f : V → ℕ) where
    pub total-insert :
        (k : K) (v : V) (m : Map K V)
        → total f (insert k v m) + measure f (get k m) ≡ total f m + f v
    unfolding get insert
    total-insert k v [] = omega arith
    total-insert k v ((j, w) ∷ m) = ground (arith, total-insert k v m)

    pub total-remove :
        (k : K) (m : Map K V) → IsUnique m → total f (remove k m) + measure f (get k m) ≡ total f m
    unfolding get remove
    total-remove k [] h = omega arith
    total-remove k ((j, w) ∷ m) h =
        ground (arith, total-remove k m h.1, e.beq_law k j, remove_absent k m)

    pub total-remove-le : (k : K) (m : Map K V) → total f (remove k m) ≤ total f m
    unfolding remove
    total-remove-le k [] = omega arith
    total-remove-le k ((j, w) ∷ m) = ground (arith, total-remove-le k m)

    pub get-le-total : (k : K) (m : Map K V) → measure f (get k m) ≤ total f m
    unfolding get
    get-le-total k [] = omega arith
    get-le-total k ((j, w) ∷ m) = ground (arith, get-le-total k m)
