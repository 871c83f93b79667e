-- ===== src/Common/Indexes.antt =====
-- A collection by id and a secondary index into it, kept together.
use mathlib.Core.Path.{◌≡◌, refl, sym, subst, ◌∙◌}
use mathlib.Core.Logic.{inl, inr, ◌⊎◌}
use mathlib.Core.Bool.{Bool}
use mathlib.Core.Option.{Option, none, some}
use mathlib.Core.List.{[]}
use native.Mathlib.Omega.{arith}
use flowtona.Common.Tests.{Bool-cases, Option-cases}
use flowtona.Common.Equality.{Comparable, ◌==◌, ==_iff, ==_refl}
use flowtona.Common.Sweep.{rewrite_entry}
use flowtona.Common.Dicts.{
  Dict, lookup, insert, lookup-insert, lookup-insert_self, HasDistinctKeys, insert-HasDistinctKeys,
}

-- Every record stands under its own id and can be reached by a key that it owns; every key of the
-- index leads to a record that owns it.
pub record IsIndexed {ℓ κ μ ν} {K : Type ℓ} {H : Type κ} {V : Type μ} ⦃e : Comparable K⦄
    ⦃f : Comparable H⦄ (id_of : V → K) (Owns : H → V → Type ν) (d : Dict K V) (by_key : Dict H K)
    : Type (ℓ ⊔ κ ⊔ μ ⊔ ν) where
  pub distinct : HasDistinctKeys d
  pub own_id : (k : K) (v : V) → lookup k d ≡ some v → id_of v ≡ k
  pub reached :
      (k : K) (v : V) → lookup k d ≡ some v → (h : H) × Owns h v × (lookup h by_key ≡ some k)
  pub leads :
      (h : H) (k : K) → lookup h by_key ≡ some k → (v : V) × (lookup k d ≡ some v) × Owns h v

module _ {ℓ} {V : Type ℓ} (test : V → Bool) (f : V → V) where
  pub rewritten_from :
      (o o' : Option V) (v' : V)
      → (o' ≡ o) ⊎ (o' ≡ rewrite_entry test f o)
      → o' ≡ some v'
      → (v : V) × (o ≡ some v) × ((v' ≡ v) ⊎ (v' ≡ f v))
  rewritten_from none o' v' how found = absurd (ground arith)
  rewritten_from (some v) o' v' how found = (v, refl, ground arith)

  pub rewritten_to :
      (o o' : Option V) (v : V)
      → (o' ≡ o) ⊎ (o' ≡ rewrite_entry test f o)
      → o ≡ some v
      → (v' : V) × (o' ≡ some v') × ((v' ≡ v) ⊎ (v' ≡ f v))
  rewritten_to o none v how found = absurd (ground arith)
  rewritten_to o (some v') v how found = (v', refl, ground arith)

module _ {ℓ κ μ ν} {K : Type ℓ} {H : Type κ} {V : Type μ} ⦃e : Comparable K⦄ ⦃f : Comparable H⦄
    (id_of : V → K) (Owns : H → V → Type ν) where
  pub empty-IsIndexed : IsIndexed id_of Owns [] []
  unfolding lookup
  empty-IsIndexed = record {
    distinct = tt;
    own_id = λ k v h. cc;
    reached = λ k v h. absurd (ground arith);
    leads = λ h k p. absurd (ground arith);
  }

  -- A new record under a new id and a new key.
  pub add-IsIndexed :
      (h : H) (v : V) (d : Dict K V) (by_key : Dict H K)
      → lookup (id_of v) d ≡ none
      → lookup h by_key ≡ none
      → Owns h v
      → IsIndexed id_of Owns d by_key
      → IsIndexed id_of Owns (insert (id_of v) v d) (insert h (id_of v) by_key)
  add-IsIndexed h v d by_key new_id new_key owns i = record {
    distinct = insert-HasDistinctKeys (id_of v) v d i.distinct;
    own_id = λ k w found.
        ground (arith, lookup-insert k (id_of v) v d, ==_iff (id_of v) k, i.own_id k w);
    reached = reached_after;
    leads = leads_after;
  }
    where
      reached_after :
          (k : K) (w : V)
          → lookup k (insert (id_of v) v d) ≡ some w
          → (g : H) × Owns g w × (lookup g (insert h (id_of v) by_key) ≡ some k)
      reached_after k w found = elim (Bool-cases (id_of v == k)) [
        | inl here ↦ (
          h,
          subst (λ x. Owns h x) (ground (arith, lookup-insert k (id_of v) v d)) owns,
          ground (arith, lookup-insert h h (id_of v) by_key, ==_refl h, ==_iff (id_of v) k),
        )
        | inr there ↦
            let (g, owned, at) = i.reached k w (ground (arith, lookup-insert k (id_of v) v d)) in
            (g, owned, ground (arith, lookup-insert g h (id_of v) by_key, ==_iff h g))
      ]

      leads_after :
          (g : H) (k : K)
          → lookup g (insert h (id_of v) by_key) ≡ some k
          → (w : V) × (lookup k (insert (id_of v) v d) ≡ some w) × Owns g w
      leads_after g k found = elim (Bool-cases (h == g)) [
        | inl here ↦ (
          v,
          ground (arith, lookup-insert g h (id_of v) by_key, lookup-insert_self (id_of v) v d),
          subst (λ x. Owns x v) ((==_iff h g).0 here) owns,
        )
        | inr there ↦
            let (w, at, owned) = i.leads g k (ground (arith, lookup-insert g h (id_of v) by_key)) in
            (w, ground (arith, lookup-insert k (id_of v) v d, ==_iff (id_of v) k), owned)
      ]

  -- `d'` has the records of `d`, changed in nothing that an index reads.
  pub record Refreshes (d d' : Dict K V) : Type (ℓ ⊔ κ ⊔ μ ⊔ ν) where
    pub from :
        (k : K) (v' : V)
        → lookup k d' ≡ some v'
        → (v : V) × (lookup k d ≡ some v) × (id_of v' ≡ id_of v) × ((h : H) → Owns h v → Owns h v')
    pub to :
        (k : K) (v : V)
        → lookup k d ≡ some v
        → (v' : V) × (lookup k d' ≡ some v') × ((h : H) → Owns h v → Owns h v')

  pub refresh-IsIndexed :
      {d d' : Dict K V} {by_key : Dict H K}
      → HasDistinctKeys d'
      → Refreshes d d'
      → IsIndexed id_of Owns d by_key
      → IsIndexed id_of Owns d' by_key
  refresh-IsIndexed distinct r i = record {
    distinct = distinct;
    own_id =
        λ k v' found. let (v, before, same, _) = r.from k v' found in same ∙ i.own_id k v before;
    reached = λ k v' found.
        let (v, before, _, keeps) = r.from k v' found in
        let (h, owns, at) = i.reached k v before in (h, keeps h owns, at);
    leads = λ h k at.
        let (v, before, owns) = i.leads h k at in
        let (v', after, keeps) = r.to k v before in (v', after, keeps h owns);
  }

  -- One record replaced by another version of it.
  pub Refreshes-insert :
      (k : K) (v w : V) (d : Dict K V)
      → lookup k d ≡ some v
      → id_of w ≡ id_of v
      → ((h : H) → Owns h v → Owns h w)
      → Refreshes d (insert k w d)
  Refreshes-insert k v w d at same keeps = record {
    from = λ j x found. elim (Bool-cases (k == j)) [
      | inl here ↦ (
        v,
        ground (arith, ==_iff k j),
        ground (arith, same, lookup-insert j k w d),
        λ h owns. subst (λ y. Owns h y) (ground (arith, lookup-insert j k w d)) (keeps h owns),
      )
      | inr there ↦ (x, ground (arith, lookup-insert j k w d), refl, λ h owns. owns)
    ];
    to = λ j x found. elim (Bool-cases (k == j)) [
      | inl here ↦ (
        w,
        ground (arith, lookup-insert j k w d),
        λ h owns. keeps h (subst (λ y. Owns h y) (ground (arith, ==_iff k j)) owns),
      )
      | inr there ↦ (x, ground (arith, lookup-insert j k w d), λ h owns. owns)
    ];
  }

  -- Some records rewritten by `f`.
  pub Refreshes-rewrite :
      (test : V → Bool) (f : V → V) (d d' : Dict K V)
      → ((v : V) → id_of (f v) ≡ id_of v)
      → ((h : H) (v : V) → Owns h v → Owns h (f v))
      → ((k : K) → (lookup k d' ≡ lookup k d) ⊎ (lookup k d' ≡ rewrite_entry test f (lookup k d)))
      → Refreshes d d'
  Refreshes-rewrite test f d d' same keeps pointwise = record {
    from = λ k v' found.
        let (v, before, how) =
          rewritten_from test f (lookup k d) (lookup k d') v' (pointwise k) found in
        (v, before, ground (arith, same v), λ h owns. kept h v v' how owns);
    to = λ k v found.
        let (v', after, how) =
          rewritten_to test f (lookup k d) (lookup k d') v (pointwise k) found in
        (v', after, λ h owns. kept h v v' how owns);
  }
    where
      kept : (h : H) (v v' : V) → (v' ≡ v) ⊎ (v' ≡ f v) → Owns h v → Owns h v'
      kept h v v' (inl p) owns = subst (λ y. Owns h y) (sym p) owns
      kept h v v' (inr p) owns = subst (λ y. Owns h y) (sym p) (keeps h v owns)

  -- A key leads nowhere, or to a record that is there.
  pub IsIndexed-cases :
      {d : Dict K V} {by_key : Dict H K} (h : H)
      → IsIndexed id_of Owns d by_key
      → (lookup h by_key ≡ none)
        ⊎ ((k : K) × (v : V) × (lookup h by_key ≡ some k) × (lookup k d ≡ some v) × Owns h v)
  IsIndexed-cases {by_key} h i = elim (Option-cases (lookup h by_key)) [
    | inl absent ↦ inl absent
    | inr (k, at) ↦ let (v, found, owns) = i.leads h k at in inr (k, v, at, found, owns)
  ]
