-- ===== src/Common/Dicts.antt =====
-- Python's `dict`: an association list in insertion order, each key once.
use mathlib.Core.Path.{◌≡◌, refl}
use mathlib.Core.Logic.{◌≢◌}
use mathlib.Core.Bool.{Bool, false}
use mathlib.Core.Option.{Option, none, some}
use mathlib.Core.List.{List, [], ◌∷◌}
use native.Mathlib.Omega.{arith}
use flowtona.Common.Tests.{is_some, if◌then◌else◌}
use flowtona.Common.Equality.{Comparable, ◌==◌, ==_iff, ==_refl}

abbrev pub Dict {ℓ κ} : Type ℓ → Type κ → Type (ℓ ⊔ κ)
Dict K V = List (K × V)

module _ {ℓ κ} {K : Type ℓ} {V : Type κ} ⦃e : Comparable K⦄ where
  -- `d.get(k)`
  unfoldable pub lookup : K → Dict K V → Option V
  lookup k [] = none
  lookup k ((j, v) ∷ d) = if j == k then some v else lookup k d

  -- `k in d`
  abbrev pub contains : K → Dict K V → Bool
  contains k d = is_some (lookup k d)

  -- `d[k] = v`
  unfoldable pub insert : K → V → Dict K V → Dict K V
  insert k v [] = (k, v) ∷ []
  insert k v ((j, w) ∷ d) = if j == k then (j, v) ∷ d else (j, w) ∷ insert k v d

  pub lookup-insert :
      (j k : K) (v : V) (d : Dict K V)
      → lookup j (insert k v d) ≡ (if k == j then some v else lookup j d)
  unfolding lookup insert
  lookup-insert j k v [] = refl
  lookup-insert j k v ((i, w) ∷ d) =
      ground (arith, ==_iff i k, ==_iff i j, ==_iff k j, lookup-insert j k v d)

  pub lookup-insert_self : (k : K) (v : V) (d : Dict K V) → lookup k (insert k v d) ≡ some v
  lookup-insert_self k v d = ground (arith, lookup-insert k k v d, ==_refl k)

  pub lookup-insert_ne :
      (j k : K) (v : V) (d : Dict K V) → k ≢ j → lookup j (insert k v d) ≡ lookup j d
  lookup-insert_ne j k v d h = ground (arith, lookup-insert j k v d, ==_iff k j)

  -- Each key stands once.
  abbrev pub HasDistinctKeys : Dict K V → Type 0
  HasDistinctKeys [] = Unit
  HasDistinctKeys ((k, v) ∷ d) = (contains k d ≡ false) × HasDistinctKeys d

  pub insert-HasDistinctKeys :
      (k : K) (v : V) (d : Dict K V) → HasDistinctKeys d → HasDistinctKeys (insert k v d)
  unfolding lookup insert
  insert-HasDistinctKeys k v [] h = (refl, tt)
  insert-HasDistinctKeys k v ((j, w) ∷ d) h =
      ground
        (arith, ==_iff k j, ==_iff j k, lookup-insert j k v d, insert-HasDistinctKeys k v d h.1)

  pub lookup_below :
      (j k : K) (v w : V) (d : Dict K V)
      → contains k d ≡ false
      → lookup j d ≡ some w
      → lookup j ((k, v) ∷ d) ≡ some w
  unfolding lookup
  lookup_below j k v w d fresh h = ground (arith, ==_iff k j)

  pub lookup_head : (k : K) (v : V) (d : Dict K V) → lookup k ((k, v) ∷ d) ≡ some v
  unfolding lookup
  lookup_head k v d = ground (arith, ==_refl k)

  -- Every value satisfies the predicate.
  abbrev pub AllValues {μ} : (V → Type μ) → Dict K V → Type μ
  AllValues P [] = Unit
  AllValues P ((_, v) ∷ d) = P v × AllValues P d

  pub AllValues-of_lookup {μ} :
      (P : V → Type μ) (d : Dict K V)
      → HasDistinctKeys d
      → ((k : K) (v : V) → lookup k d ≡ some v → P v)
      → AllValues P d
  AllValues-of_lookup P [] h each = tt
  AllValues-of_lookup P ((k, v) ∷ d) h each = (
    each k v (lookup_head k v d),
    AllValues-of_lookup P d h.1 (λ j w found. each j w (lookup_below j k v w d h.0 found)),
  )
