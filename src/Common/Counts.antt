-- ===== src/Common/Counts.antt =====
-- How many entries of a `dict` pass a test, as entries are rewritten.
use Prim.Native.Nat.{◌+◌}
use mathlib.Core.Path.{◌≡◌, refl}
use mathlib.Core.Bool.{Bool, true, false, ◌||◌}
use mathlib.Core.Option.{Option, none, some}
use mathlib.Core.List.{List, [], ◌∷◌, ◌++◌}
use native.Mathlib.Omega.{arith}
use flowtona.Common.Equality.{◌==◌, Comparable, ==_iff, ==_refl}
use flowtona.Common.Dicts.{Dict, lookup, insert, HasDistinctKeys, lookup_below, lookup_head}
use flowtona.Common.Sweep.{
  one_if, count_where, is_listed, sweep_found, sweep_key, sweep_keys, tally_found, tally_keys,
  rewrite_entry, lookup-sweep_key,
}

module _ {ℓ κ} {K : Type ℓ} {V : Type κ} ⦃e : Comparable K⦄ (P : V → Bool) where
  pub count_where-insert :
      (k : K) (v w : V) (d : Dict K V)
      → lookup k d ≡ some v
      → count_where P (insert k w d) + one_if P v ≡ count_where P d + one_if P w
  unfolding lookup insert count_where
  count_where-insert k v w [] h = ground arith
  count_where-insert k v w ((j, x) ∷ d) h = ground (arith, ==_iff j k, count_where-insert k v w d)

  -- Nothing is counted where no entry that can be looked up passes the test.
  pub count_where_none :
      (d : Dict K V)
      → HasDistinctKeys d
      → ((k : K) (v : V) → lookup k d ≡ some v → P v ≡ false)
      → count_where P d ≡ 0
  unfolding count_where
  count_where_none [] h none_passes = refl
  count_where_none ((k, v) ∷ d) h none_passes = ground (
    arith,
    none_passes k v (lookup_head k v d),
    count_where_none d h.1 (λ j w found. none_passes j w (lookup_below j k v w d h.0 found)),
  )

module _ {ℓ} {K : Type ℓ} ⦃e : Comparable K⦄ where
  pub listed_head : (k : K) (ks : List K) → is_listed k (k ∷ ks) ≡ true
  unfolding is_listed
  listed_head k ks = ground (arith, ==_refl k)

  pub listed_later : (j k : K) (ks : List K) → is_listed j ks ≡ true → is_listed j (k ∷ ks) ≡ true
  unfolding is_listed
  listed_later j k ks h = ground arith

  pub is_listed-append :
      (j i : K) (ids : List K) → is_listed j (ids ++ i ∷ []) ≡ (j == i || is_listed j ids)
  unfolding is_listed
  is_listed-append j i [] = refl
  is_listed-append j i (k ∷ ids) = ground (arith, is_listed-append j i ids)

agree_entry {ℓ} :
    {V : Type ℓ} (test : V → Bool) (f : V → V) (P : V → Bool) (o : Option V) (w : V)
    → ((v : V) → test v ≡ true → test (f v) ≡ false)
    → ((v : V) → test v ≡ true → P (f v) ≡ false)
    → ((v : V) → o ≡ some v → P v ≡ test v)
    → rewrite_entry test f o ≡ some w
    → P w ≡ test w
agree_entry test f P none w stops leaves agree h = ground arith
agree_entry test f P (some v) w stops leaves agree h =
    ground (arith, agree v refl, leaves v, stops v)

module _ {ℓ κ} {K : Type ℓ} {V : Type κ} ⦃e : Comparable K⦄ (test : V → Bool) (f : V → V)
    (P : V → Bool) (stops : (v : V) → test v ≡ true → test (f v) ≡ false)
    (leaves : (v : V) → test v ≡ true → P (f v) ≡ false) where
  sweep_found-count :
      (o : Option V) (k : K) (d : Dict K V)
      → lookup k d ≡ o
      → ((v : V) → o ≡ some v → P v ≡ test v)
      → tally_found test o + count_where P (sweep_found test f o k d) ≡ count_where P d
  sweep_found-count none k d h agree = ground arith
  sweep_found-count (some v) k d h agree =
      ground (arith, agree v refl, leaves v, count_where-insert P k v (f v) d h)

  -- Where `P` and the test agree on the listed entries, the loop's count and what is left to count
  -- make up what there was.
  pub tally_keys-count :
      (ks : List K) (d : Dict K V)
      → ((k : K) (v : V) → is_listed k ks ≡ true → lookup k d ≡ some v → P v ≡ test v)
      → tally_keys test f ks d + count_where P (sweep_keys test f ks d) ≡ count_where P d
  unfolding tally_keys sweep_keys is_listed
  tally_keys-count [] d agree = ground arith
  tally_keys-count (k ∷ ks) d agree = ground (
    arith,
    tally_keys-count ks (sweep_key test f k d) later,
    sweep_found-count (lookup k d) k d refl (λ v. agree k v (listed_head k ks)),
  )
    where
      later :
          (j : K) (w : V)
          → is_listed j ks ≡ true
          → lookup j (sweep_key test f k d) ≡ some w
          → P w ≡ test w
      later j w listed found = ground (
        arith,
        lookup-sweep_key test f j k d,
        agree_entry test f P (lookup j d) w stops leaves
            (λ v. agree j v (listed_later j k ks listed)),
        agree j w (listed_later j k ks listed),
      )
