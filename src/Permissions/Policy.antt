-- ===== src/Permissions/Policy.antt =====
-- What PermissionService grants, against the policy in words.
use flowtona.Common.{◌≡◌, [], not, if◌then◌else◌, nat_eq, ◌↔◌, ◌⊎◌, Bool, true, arith, ok}
use flowtona.Models.Membership.{
  Role, owner, dispatcher, technician, MembershipStatus, active, TenantMembership,
}
use flowtona.Models.User.{User}
use flowtona.Permissions.{
  Permission, billing_manage, schedule_read, has_permission, is_in, difference,
  permissions_for_role, soft_gated_permissions, is_active,
}

-- The policy in words, role by role.
abbrev pub MayUse : Role → Permission → Type 0
MayUse owner _ = Unit
MayUse dispatcher billing_manage = ⊥
MayUse dispatcher _ = Unit
MayUse technician schedule_read = Unit
MayUse technician _ = ⊥

-- The same over the values that count: the membership's status and role, and the user's flag.
abbrev Granted : MembershipStatus → Role → Bool → Permission → Type 0
Granted st r verified p = (st ≡ active) × MayUse r p × ((p ≡ schedule_read) ⊎ (verified ≡ true))

abbrev answer : MembershipStatus → Role → Bool → Permission → Bool
unfolding is_in difference permissions_for_role
answer st r verified p = is_in p (
    if not (is_active st)
    then []
    else if not verified
    then difference (permissions_for_role r) soft_gated_permissions
    else permissions_for_role r)

answer_iff :
    (st : MembershipStatus) (r : Role) (verified : Bool) (p : Permission)
    → (answer st r verified p ≡ true) ↔ Granted st r verified p
unfolding is_in difference permissions_for_role
answer_iff active owner v billing_manage = ground arith
answer_iff active owner v _ = ground arith
answer_iff active dispatcher v billing_manage = ground arith
answer_iff active dispatcher v _ = ground arith
answer_iff active technician v billing_manage = ground arith
answer_iff active technician v _ = ground arith
answer_iff _ r v p = ground arith

-- For a membership of the user, the service grants a permission exactly if the membership is active, the role has the permission, and the permission is `schedule_read` or the user's address is confirmed.
pub has_permission_iff :
    (u : User) (m : TenantMembership) (p : Permission)
    → m.user_id ≡ u.id
    → (has_permission u m p ≡ ok true)
      ↔ ((m.status ≡ active) × MayUse m.role p × ((p ≡ schedule_read) ⊎ (u.email_verified ≡ true)))
unfolding has_permission
has_permission_iff u m p same = ground (arith, answer_iff m.status m.role u.email_verified p)
