-- ===== src/Flows/Confirmation.antt =====
-- The address of a user is confirmed, and PermissionService sees it: UserRepository.update with
-- PermissionService.has_permission.
use flowtona.Common.{◌≡◌, ◌↔◌, inr, refl, Text, true, some, ok}
use flowtona.Models.User.{User}
use flowtona.Models.Membership.{TenantMembership, active}
use flowtona.Permissions.{Permission, has_permission}
use flowtona.Permissions.Policy.{MayUse, has_permission_iff}
use flowtona.Protocols.Users.{UserOperations, KeepsUsers, update-get_by_email}

-- Whatever repository keeps the protocol of users: when a user that an address finds is stored again as verified, the address finds the verified user, and with an active membership of the user the service then grants exactly what the role has.
pub confirmation_unlocks :
    {S : Type 0} (o : UserOperations S) (IsGood : S → Type 0) (s : S) (e : Text) (u : User)
    (m : TenantMembership)
    → KeepsUsers o IsGood
    → IsGood s
    → o.get_by_email e s ≡ ok (some u)
    → m.user_id ≡ u.id
    → m.status ≡ active
    → let confirmed = record u { email_verified = true } in
      (s' : S) × (o.update confirmed s ≡ (ok confirmed, s'))
      × (o.get_by_email e s' ≡ ok (some confirmed))
      × ((p : Permission) → (has_permission confirmed m p ≡ ok true) ↔ MayUse m.role p)
confirmation_unlocks o IsGood s e u m keeps good found mine live =
    let confirmed : User = record u { email_verified = true } in
    let (s', run, good', found') = update-get_by_email o IsGood keeps s e u good found in
    (
      s',
      run,
      found',
      λ p.
          let (needs, suffices) = has_permission_iff confirmed m p mine in
          (λ granted. (needs granted).1, λ may. suffices (live, may, inr refl)),
    )
