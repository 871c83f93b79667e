-- ===== src/Common/Sweep.antt =====
-- What a loop over a `dict` that rewrites the entries passing a test leaves behind.
use Prim.Native.Nat.{ℕ, ◌+◌}
use mathlib.Core.Path.{◌≡◌, refl}
use mathlib.Core.Bool.{Bool, true, false, ◌||◌}
use mathlib.Core.Logic.{inl, inr}
use mathlib.Core.Option.{Option, none, some}
use mathlib.Core.List.{List, [], ◌∷◌}
use native.Mathlib.Omega.{arith}
use flowtona.Common.Tests.{if◌then◌else◌, Bool-cases, Option-cases}
use flowtona.Common.Equality.{Comparable, ◌==◌, ==_iff}
use flowtona.Common.Dicts.{
  Dict, lookup, insert, lookup-insert, HasDistinctKeys, insert-HasDistinctKeys,
}

module _ {ℓ} {V : Type ℓ} (test : V → Bool) where
  abbrev pub one_if : V → ℕ
  one_if v = if test v then 1 else 0

  abbrev pub tally_found : Option V → ℕ
  tally_found none = 0
  tally_found (some v) = one_if v

  -- How many entries pass the test.
  unfoldable pub count_where {κ} : {K : Type κ} → Dict K V → ℕ
  count_where [] = 0
  count_where ((_, v) ∷ d) = one_if v + count_where d

module _ {ℓ} {K : Type ℓ} ⦃e : Comparable K⦄ where
  -- `k in ks`
  unfoldable pub is_listed : K → List K → Bool
  is_listed j [] = false
  is_listed j (k ∷ ks) = j == k || is_listed j ks

module _ {ℓ} {V : Type ℓ} (test : V → Bool) (f : V → V) where
  abbrev pub rewrite : V → V
  rewrite v = if test v then f v else v

  abbrev swept : Option V → Option V → Option V
  swept none old = old
  swept (some v) old = if test v then some (f v) else old

  abbrev pub rewrite_entry : Option V → Option V
  rewrite_entry none = none
  rewrite_entry (some v) = some (rewrite v)

  rewrite_twice :
      (o : Option V)
      → ((v : V) → test v ≡ true → test (f v) ≡ false)
      → rewrite_entry (rewrite_entry o) ≡ rewrite_entry o
  rewrite_twice none stops = refl
  rewrite_twice (some v) stops = ground (arith, stops v)

module _ {ℓ κ} {K : Type ℓ} {V : Type κ} ⦃e : Comparable K⦄ (test : V → Bool) (f : V → V) where
  -- The loop over a snapshot of the entries.
  unfoldable pub sweep : Dict K V → Dict K V → Dict K V
  sweep [] d = d
  sweep ((k, v) ∷ rest) d = sweep rest (if test v then insert k (f v) d else d)

  pub sweep-HasDistinctKeys :
      (rest d : Dict K V) → HasDistinctKeys d → HasDistinctKeys (sweep rest d)
  unfolding sweep
  sweep-HasDistinctKeys [] d h = h
  sweep-HasDistinctKeys ((k, v) ∷ rest) d h = elim (Bool-cases (test v)) [
    | inl p ↦
        rw p (sweep-HasDistinctKeys rest (insert k (f v) d) (insert-HasDistinctKeys k (f v) d h))
    | inr p ↦ rw p (sweep-HasDistinctKeys rest d h)
  ]

  lookup-sweep :
      (j : K) (rest d : Dict K V)
      → HasDistinctKeys rest
      → lookup j (sweep rest d) ≡ swept test f (lookup j rest) (lookup j d)
  unfolding sweep lookup
  lookup-sweep j [] d h = refl
  lookup-sweep j ((k, v) ∷ rest) d h = ground (
    arith,
    ==_iff k j,
    lookup-insert j k (f v) d,
    lookup-sweep j rest (insert k (f v) d) h.1,
    lookup-sweep j rest d h.1,
  )

  -- Swept over itself, a `dict` has each entry that passes the test rewritten, and no other.
  pub lookup-sweep_self :
      (j : K) (d : Dict K V)
      → HasDistinctKeys d
      → lookup j (sweep d d) ≡ rewrite_entry test f (lookup j d)
  lookup-sweep_self j d h = ground (arith, lookup-sweep j d d h)

  -- The loop over a set of keys, each read from the `dict` as it then stands.
  abbrev pub sweep_found : Option V → K → Dict K V → Dict K V
  sweep_found none k d = d
  sweep_found (some v) k d = if test v then insert k (f v) d else d

  abbrev pub sweep_key : K → Dict K V → Dict K V
  sweep_key k d = sweep_found (lookup k d) k d

  unfoldable pub sweep_keys : List K → Dict K V → Dict K V
  sweep_keys [] d = d
  sweep_keys (k ∷ ks) d = sweep_keys ks (sweep_key k d)

  unfoldable pub tally_keys : List K → Dict K V → ℕ
  tally_keys [] d = 0
  tally_keys (k ∷ ks) d = tally_found test (lookup k d) + tally_keys ks (sweep_key k d)

  pub lookup-sweep_key :
      (j k : K) (d : Dict K V)
      → lookup j (sweep_key k d)
        ≡ (if k == j then rewrite_entry test f (lookup j d) else lookup j d)
  lookup-sweep_key j k d = elim (Option-cases (lookup k d)) [
    | inl p ↦ ground (arith, ==_iff k j)
    | inr (v, p) ↦ ground (arith, ==_iff k j, lookup-insert j k (f v) d)
  ]

  pub sweep_found-HasDistinctKeys :
      (o : Option V) (k : K) (d : Dict K V)
      → HasDistinctKeys d
      → HasDistinctKeys (sweep_found o k d)
  sweep_found-HasDistinctKeys none k d h = h
  sweep_found-HasDistinctKeys (some v) k d h = ground (arith, insert-HasDistinctKeys k (f v) d h)

  pub sweep_keys-HasDistinctKeys :
      (ks : List K) (d : Dict K V) → HasDistinctKeys d → HasDistinctKeys (sweep_keys ks d)
  unfolding sweep_keys
  sweep_keys-HasDistinctKeys [] d h = h
  sweep_keys-HasDistinctKeys (k ∷ ks) d h =
      sweep_keys-HasDistinctKeys ks (sweep_key k d) (sweep_found-HasDistinctKeys (lookup k d) k d h)

  module _ (stops : (v : V) → test v ≡ true → test (f v) ≡ false) where
    -- The result at a key depends on whether the key is listed, not on where or how often.
    pub lookup-sweep_keys :
        (j : K) (ks : List K) (d : Dict K V)
        → lookup j (sweep_keys ks d)
          ≡ (if is_listed j ks then rewrite_entry test f (lookup j d) else lookup j d)
    unfolding sweep_keys is_listed
    lookup-sweep_keys j [] d = refl
    lookup-sweep_keys j (k ∷ ks) d = ground (
      arith,
      ==_iff k j,
      ==_iff j k,
      lookup-sweep_keys j ks (sweep_key k d),
      lookup-sweep_key j k d,
      rewrite_twice test f (lookup j d) stops,
    )
