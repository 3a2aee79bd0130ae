-- ===== src/Framework/Map/Order.antt =====
-- What the order of the entries does not change: unique keys, lookups and sums.
use sc_chainlink_rs.Prelude.{
  ℕ, ◌≡◌, refl, sym, ◌∙◌, [], ◌∷◌, Option, some, beq_refl, arith, Eq, nat_eq,
}
use mathlib.Core.List.{Perm, Permᴰ}
use mathlib.Core.Logic.{∥∥₁_elim}
use mathlib.Core.HLevel.{×_prop, Unit-prop}
use native.Mathlib.Nat.{ℕ_set}
use sc_chainlink_rs.Framework.Map.{Map, get, total, IsUnique}

module _ {K V : Type 0} ⦃e : Eq K⦄ where
  -- what a map keeps under a change of the order of its entries
  record SameEntries (a b : Map K V) : Type 0 where
    unique : IsUnique b → IsUnique a
    found : IsUnique b → (k : K) → get k a ≡ get k b

  permᴰ-SameEntries : {a b : Map K V} → Permᴰ a b → SameEntries a b
  unfolding get
  permᴰ-SameEntries Permᴰ.nil = record { unique = λ h. h; found = λ h k. refl }
  permᴰ-SameEntries (Permᴰ.cons {a = x} {b = y} p d) =
      let s = permᴰ-SameEntries d in
      record {
        unique = λ h. ground (arith, s.unique h.1, s.found h.1 y.0);
        found = λ h k. ground (arith, s.found h.1 k);
      }
  permᴰ-SameEntries (Permᴰ.swap {a = x} {b = y} p q) = record {
    unique = λ h. ground (arith, e.beq_law x.0 y.0, e.beq_law y.0 x.0);
    found = λ h k.
        ground (arith, e.beq_law x.0 y.0, e.beq_law y.0 x.0, e.beq_law k x.0, e.beq_law k y.0);
  }
  permᴰ-SameEntries (Permᴰ.trans p q) =
      let s = permᴰ-SameEntries p in
      let t = permᴰ-SameEntries q in
      record {
        unique = λ h. s.unique (t.unique h);
        found = λ h k. s.found (t.unique h) k ∙ t.found h k;
      }

  permᴰ-total : (f : V → ℕ) {a b : Map K V} → Permᴰ a b → total f a ≡ total f b
  permᴰ-total f Permᴰ.nil = refl
  permᴰ-total f (Permᴰ.cons {a = x} {b = y} p d) = ground (arith, permᴰ-total f d)
  permᴰ-total f (Permᴰ.swap {a = x} {b = y} p q) = ground arith
  permᴰ-total f (Permᴰ.trans p q) = permᴰ-total f p ∙ permᴰ-total f q

  -- every entry of the second map is found in the first
  abbrev pub Agrees : Map K V → Map K V → Type 0
  Agrees m [] = Unit
  Agrees m ((k, v) ∷ es) = (get k m ≡ some v) × Agrees m es

  Agrees-of_found :
      (m es : Map K V)
      → ((k : K) (v : V) → get k es ≡ some v → get k m ≡ some v)
      → IsUnique es
      → Agrees m es
  unfolding get
  Agrees-of_found m [] h u = tt
  Agrees-of_found m ((k, v) ∷ es) h u = (
    h k v (rw (beq_refl k)),
    Agrees-of_found m es (λ j w g. h j w (ground (arith, e.beq_law j k))) u.1,
  )

Option_ℕ-set : IsSet (Option ℕ)
Option_ℕ-set = hlevel

IsUnique-prop : (m : Map ℕ ℕ) → IsProp (IsUnique m)
IsUnique-prop [] = Unit-prop
IsUnique-prop ((k, v) ∷ m) = ×_prop (Option_ℕ-set _ _) (IsUnique-prop m)

Agrees-prop : (m es : Map ℕ ℕ) → IsProp (Agrees m es)
Agrees-prop m [] = Unit-prop
Agrees-prop m ((k, v) ∷ es) = ×_prop (Option_ℕ-set _ _) (Agrees-prop m es)

-- At the types of the deposits: an iteration in any order has unique keys, agrees with the map, and
-- has its sum.
pub perm-IsUnique : {a b : Map ℕ ℕ} → Perm a b → IsUnique b → IsUnique a
perm-IsUnique {a} p u = ∥∥₁_elim p (IsUnique-prop a) (λ d. (permᴰ-SameEntries d).unique u)

pub perm-Agrees : {a b : Map ℕ ℕ} → Perm a b → IsUnique b → Agrees b a
perm-Agrees {a} {b} p u = ∥∥₁_elim p (Agrees-prop b a) λ d.
    let s = permᴰ-SameEntries d in Agrees-of_found b a (λ k v g. sym (s.found u k) ∙ g) (s.unique u)

pub perm-total : (f : ℕ → ℕ) {a b : Map ℕ ℕ} → Perm a b → total f a ≡ total f b
perm-total f p = ∥∥₁_elim p (ℕ_set _ _) (permᴰ-total f)
