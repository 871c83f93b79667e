-- ===== src/Repositories/MembershipRepository/Lookup.antt =====
-- `get_by_user_and_tenant` on a consistent store.
use flowtona.Common.{
  ◌≡◌, ◌↔◌, inl, inr, Option, none, some, arith, lookup, ok, nat_eq, list_eq, pair_eq,
  IsIndexed-cases,
}
use flowtona.Exceptions.{Uuid}
use flowtona.Models.Membership.{TenantMembership}
use flowtona.Store.{Store}
use flowtona.Repositories.MembershipRepository.{get_by_user_and_tenant}
use flowtona.Repositories.MembershipRepository.Consistency.{IsConsistent, id_of, OwnsPair}

module _ (s : Store) (u n : Uuid) (c : IsConsistent s) where
  get_by_user_and_tenant_total :
      (o : Option TenantMembership) × (get_by_user_and_tenant u n s ≡ ok o)
  unfolding get_by_user_and_tenant
  get_by_user_and_tenant_total = elim (IsIndexed-cases id_of OwnsPair (u, n) c.indexed) [
    | inl absent ↦ (none, ground arith)
    | inr (k, v, leads, at, owns) ↦ (some v, ground arith)
  ]

  get_by_user_and_tenant_found :
      (t : TenantMembership)
      → (get_by_user_and_tenant u n s ≡ ok (some t))
        ↔ ((lookup t.id s.memberships_by_id ≡ some t) × (t.user_id ≡ u) × (t.tenant_id ≡ n))
  unfolding get_by_user_and_tenant
  get_by_user_and_tenant_found t = elim (IsIndexed-cases id_of OwnsPair (u, n) c.indexed) [
    | inl absent ↦ (
      λ found. absurd (ground arith),
      λ p. let (g, owns, leads) = c.indexed.reached t.id t p.0 in absurd (ground arith),
    )
    | inr (k, v, leads, at, owns) ↦ (
      λ found. ground (arith, c.indexed.own_id k v at),
      λ p. let (g, owns', leads') = c.indexed.reached t.id t p.0 in ground arith,
    )
  ]

  -- On a consistent store a lookup by user and tenant never raises, and it finds a membership exactly if that membership is stored under its id and is the one of the user in the tenant.
  pub get_by_user_and_tenant_iff :
      ((o : Option TenantMembership) × (get_by_user_and_tenant u n s ≡ ok o))
      × ((t : TenantMembership)
          → (get_by_user_and_tenant u n s ≡ ok (some t))
            ↔ ((lookup t.id s.memberships_by_id ≡ some t) × (t.user_id ≡ u) × (t.tenant_id ≡ n)))
  get_by_user_and_tenant_iff = (get_by_user_and_tenant_total, get_by_user_and_tenant_found)
