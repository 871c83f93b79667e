-- ===== src/Permissions.antt =====
-- app/constants/permissions.py, and the class of app/services/permission_service.py.
-- A frozenset is the list of its members; it is read through `is_in` alone.
pub mod Policy
use flowtona.Common.{
  ◌≡◌, ◌↔◌, Bool, true, false, not, ◌||◌, List, [], ◌∷◌, arith, Result, ok, err, raise_if,
  if◌then◌else◌, Comparable, ◌==◌, nat_eq,
}
use flowtona.Common.Outcome.{◌>>=◌, ◌>>◌}
use flowtona.Exceptions.{Error, value_error}
use flowtona.Models.Membership.{
  Role, owner, dispatcher, technician, MembershipStatus, active, suspended, revoked,
  TenantMembership,
}
use flowtona.Models.User.{User}

pub data Permission : Type 0 where
  billing_manage schedule_read members_invite : Permission

abbrev pub permission_beq : Permission → Permission → Bool
permission_beq billing_manage billing_manage = true
permission_beq schedule_read schedule_read = true
permission_beq members_invite members_invite = true
permission_beq _ _ = false

pub permission_beq_iff : (a b : Permission) → (permission_beq a b ≡ true) ↔ (a ≡ b)
permission_beq_iff a b = ground arith

-- `p in s`
unfoldable pub is_in : Permission → List Permission → Bool
is_in p [] = false
is_in p (q ∷ s) = permission_beq p q || is_in p s

-- `s - t`
unfoldable pub difference : List Permission → List Permission → List Permission
unfolding is_in
difference [] t = []
difference (p ∷ s) t = if is_in p t then difference s t else p ∷ difference s t

unfoldable pub permissions_for_role : Role → List Permission
permissions_for_role owner = billing_manage ∷ schedule_read ∷ members_invite ∷ []
permissions_for_role dispatcher = schedule_read ∷ members_invite ∷ []
permissions_for_role technician = schedule_read ∷ []

abbrev pub soft_gated_permissions : List Permission
soft_gated_permissions = billing_manage ∷ members_invite ∷ []

-- `membership.status == MembershipStatus.ACTIVE`
abbrev pub is_active : MembershipStatus → Bool
is_active active = true
is_active suspended = false
is_active revoked = false

unfoldable pub effective_permissions : User → TenantMembership → Result Error (List Permission)
unfolding difference permissions_for_role
effective_permissions user membership = do
  raise_if (not (membership.user_id == user.id))
      (value_error "membership.user_id does not match user.id")
  let base = permissions_for_role membership.role
  ok (
      if not (is_active membership.status)
      then []
      else if not user.email_verified
      then difference base soft_gated_permissions
      else base)

unfoldable pub has_permission : User → TenantMembership → Permission → Result Error Bool
unfolding effective_permissions is_in
has_permission user membership permission = do
  granted ← effective_permissions user membership
  ok (is_in permission granted)
