-- ===== src/Common/Census.antt =====
-- How many keys have a row that passes a test, without the dict that holds the rows.
use Prim.Native.Nat.{ℕ}
use mathlib.Core.Path.{◌≡◌, refl}
use mathlib.Core.Bool.{Bool, false}
use mathlib.Core.Logic.{inl, inr}
use mathlib.Core.Option.{Option, none, some}
use mathlib.Core.List.{List, [], ◌∷◌}
use native.Mathlib.Omega.{arith}
use flowtona.Common.Tests.{if◌then◌else◌, Bool-cases}
use flowtona.Common.Equality.{Comparable, ==_iff}
use flowtona.Common.Dicts.{Dict, lookup, HasDistinctKeys}
use flowtona.Common.Sweep.{count_where, is_listed}
use flowtona.Common.Lengths.{length}

module _ {ℓ} {K : Type ℓ} ⦃e : Comparable K⦄ where
  -- No key stands twice.
  abbrev pub AreDistinct : List K → Type 0
  AreDistinct [] = Unit
  AreDistinct (k ∷ ks) = (is_listed k ks ≡ false) × AreDistinct ks

module _ {κ} {V : Type κ} (test : V → Bool) where
  abbrev pub passes : Option V → Bool
  passes none = false
  passes (some v) = test v

  module _ {ℓ} {K : Type ℓ} ⦃e : Comparable K⦄ where
    -- Exactly `n` keys have a row that passes.
    abbrev pub HasCount : (K → Option V) → ℕ → Type ℓ
    HasCount row n =
        (ks : List K) × AreDistinct ks
        × (length ks ≡ n)
        × ((k : K) → is_listed k ks ≡ passes (row k))

    unfoldable keys_where : Dict K V → List K
    keys_where [] = []
    keys_where ((k, v) ∷ d) = let rest = keys_where d in if test v then k ∷ rest else rest

    length-keys_where : (d : Dict K V) → length (keys_where d) ≡ count_where test d
    unfolding keys_where count_where
    length-keys_where [] = refl
    length-keys_where ((k, v) ∷ d) = ground (arith, length-keys_where d)

    listed-keys_where :
        (j : K) (d : Dict K V)
        → HasDistinctKeys d
        → is_listed j (keys_where d) ≡ passes (lookup j d)
    unfolding keys_where is_listed lookup
    listed-keys_where j [] h = refl
    listed-keys_where j ((k, v) ∷ d) h =
        ground (arith, listed-keys_where j d h.1, ==_iff j k, ==_iff k j)

    keys_where-AreDistinct : (d : Dict K V) → HasDistinctKeys d → AreDistinct (keys_where d)
    unfolding keys_where
    keys_where-AreDistinct [] h = tt
    keys_where-AreDistinct ((k, v) ∷ d) h = elim (Bool-cases (test v)) [
      | inl p ↦ rw p (ground (arith, listed-keys_where k d h.1), keys_where-AreDistinct d h.1)
      | inr p ↦ rw p (keys_where-AreDistinct d h.1)
    ]

    pub count_where-HasCount :
        (d : Dict K V) → HasDistinctKeys d → HasCount (λ k. lookup k d) (count_where test d)
    count_where-HasCount d h = (
      keys_where d,
      keys_where-AreDistinct d h,
      length-keys_where d,
      λ k. listed-keys_where k d h,
    )
