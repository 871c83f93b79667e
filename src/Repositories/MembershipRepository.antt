-- ===== src/Repositories/MembershipRepository.antt =====
-- app/repositories/in_memory/membership_repository.py: class InMemoryMembershipRepository
pub mod Listing
pub mod Lookup
pub mod Consistency
use flowtona.Common.{
  not, ◌||◌, Option, none, some, List, [], ◌∷◌, ◌++◌, DateTime, Dict, lookup, insert, contains,
  Result, ok, err, or_raise, raise_if, ◌==◌, nat_eq, pair_eq,
}
use flowtona.Common.Outcome
use flowtona.Common.Action.{◌>>=◌, ◌>>◌, pure, lift, gets, modify}
use flowtona.Exceptions.{
  Uuid, Error, duplicate_entry, record_not_found, by_uuid, not_implemented_error,
}
use flowtona.Models.Membership.{TenantMembership, Role, fresh}
use flowtona.Store.{Store, Method, index}

-- `d.get(k, [])`
abbrev pub ids_of : Uuid → Dict Uuid (List Uuid) → List Uuid
ids_of k d = elim (lookup k d) [ none ↦ [] | some ids ↦ ids ]

unfoldable pub create : Uuid → Uuid → Role → Uuid → DateTime → Method TenantMembership
create user_id tenant_id role id now = do
  let key : Uuid × Uuid = (user_id, tenant_id)
  taken ← gets (λ s. contains key s.membership_id_by_user_tenant)
  lift (raise_if taken (duplicate_entry "membership" "user_tenant"))
  let membership = fresh id user_id tenant_id role now
  modify (λ s. record s { memberships_by_id = insert membership.id membership s.memberships_by_id })
  modify (λ s. record s {
    membership_id_by_user_tenant = insert key membership.id s.membership_id_by_user_tenant;
  })
  modify (λ s. record s {
    membership_ids_by_user =
        insert user_id (ids_of user_id s.membership_ids_by_user ++ membership.id ∷ [])
          s.membership_ids_by_user;
  })
  pure membership

found : Store → Option Uuid → Result Error (Option TenantMembership)
found s none = ok none
found s (some id) = elim (index id s.memberships_by_id) [ ok m ↦ ok (some m) | err e ↦ err e ]

unfoldable pub get_by_user_and_tenant : Uuid → Uuid → Store → Result Error (Option TenantMembership)
unfolding found
get_by_user_and_tenant user_id tenant_id s =
    found s (lookup (user_id, tenant_id) s.membership_id_by_user_tenant)

-- the list comprehension
unfoldable pub collect :
    Dict Uuid TenantMembership → List Uuid → Result Error (List TenantMembership)
collect d [] = ok []
collect d (i ∷ ids) = Outcome.◌>>=◌ (index i d) λ m. Outcome.◌>>=◌ (collect d ids) λ ms. ok (m ∷ ms)

unfoldable pub get_memberships_for_user : Uuid → Store → Result Error (List TenantMembership)
unfolding collect
get_memberships_for_user user_id s =
    collect s.memberships_by_id (ids_of user_id s.membership_ids_by_user)

unfoldable pub update : TenantMembership → Method TenantMembership
update membership = do
  stored ← gets (λ s. lookup membership.id s.memberships_by_id)
  existing ← lift (or_raise stored (record_not_found "membership" (by_uuid membership.id)))
  lift (
      raise_if
        (not (existing.user_id == membership.user_id)
          || not (existing.tenant_id == membership.tenant_id))
        not_implemented_error)
  modify (λ s. record s { memberships_by_id = insert membership.id membership s.memberships_by_id })
  pure membership
