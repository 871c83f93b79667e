-- ===== src/Tests/Addresses.antt =====
-- Users, memberships and permissions: each theorem at user 1 in tenant 2.
use flowtona.Common.{
  ◌≡◌, ◌≢◌, ◌↔◌, ◌⊎◌, refl, arith, Text, List, [], ◌∷◌, Bool, true, false, Option, none, some, ok,
  err, aware, lookup, Result, ◌==◌, list_eq, nat_eq, if◌then◌else◌,
}
use flowtona.Email.{normalise_email}
use flowtona.Models.User
use flowtona.Models.User.{User}
use flowtona.Models.Membership
use flowtona.Models.Membership.{TenantMembership, MembershipStatus, technician, owner}
use flowtona.Permissions.{schedule_read, has_permission}
use flowtona.Permissions.Policy.{MayUse, has_permission_iff}
use flowtona.Store.{Store, empty}
use flowtona.Repositories.UserRepository
use flowtona.Repositories.UserRepository.Addresses
use flowtona.Repositories.MembershipRepository
use flowtona.Repositories.TenantRepository
use flowtona.History.{Step, here, next}
use flowtona.History.Users.{Reach-StillFinds}
use flowtona.Tests.Stores.{
  accepts-IsStable, full-IsSound, spaced_a, accepts, plain_a, plain_b, full,
}

abbrev ann : User
ann = User.fresh 1 plain_a [] [] (aware 0)

abbrev bob : User
bob = User.fresh 9 plain_b [] [] (aware 3)

abbrev with_bob : Store
with_bob = (UserRepository.create accepts plain_b [] [] 9 (aware 3) full).1

bob_signs_up : UserRepository.create accepts plain_b [] [] 9 (aware 3) full ≡ (ok bob, with_bob)
unfolding UserRepository.create lookup flowtona.Common.list_beq normalise_email User.validate
bob_signs_up = refl

-- A check that drops one angle bracket before an address, as EmailStr drops a display name.
abbrev bare : Text → Option Text
bare [] = none
bare (c ∷ s) = if c == 60 then some s else some (c ∷ s)

two_forms : normalise_email plain_a ≢ normalise_email (60 ∷ plain_a)
unfolding normalise_email
two_forms = λ e. absurd (ground arith)

create_shares_address_example :
    let (first, s') = UserRepository.create bare plain_a [] [] 1 (aware 0) empty in
    let (second, s'') = UserRepository.create bare (60 ∷ plain_a) [] [] 2 (aware 1) s' in
    (u : User) × (v : User) × (first ≡ ok u)
    × (second ≡ ok v)
    × (u.email ≡ v.email)
    × (u.id ≢ v.id)
    × (UserRepository.get_by_id 1 s'' ≡ some u)
    × (UserRepository.get_by_id 2 s'' ≡ some v)
    × (UserRepository.get_by_email plain_a s'' ≡ ok (some u))
    × (UserRepository.get_by_email (60 ∷ plain_a) s'' ≡ ok (some v))
unfolding lookup normalise_email
create_shares_address_example =
    Addresses.create_shares_address bare empty plain_a (60 ∷ plain_a) [] [] [] [] plain_a 1 2
      (aware 0) (aware 1) (ground arith) two_forms refl refl refl refl

abbrev joined : TenantMembership
joined = Membership.fresh 9 1 3 technician (aware 4)

abbrev with_joined : Store
with_joined = (MembershipRepository.create 1 3 technician 9 (aware 4) full).1

has_permission_iff_example :
    (has_permission ann (Membership.fresh 4 1 2 owner (aware 0)) schedule_read ≡ ok true) ↔ (
      (MembershipStatus.active ≡ MembershipStatus.active)
      × MayUse owner schedule_read
      × ((schedule_read ≡ schedule_read) ⊎ (false ≡ true)))
has_permission_iff_example =
    has_permission_iff ann (Membership.fresh 4 1 2 owner (aware 0)) schedule_read refl

-- Ann's password hash is changed, and a tenant is founded.
Reach-StillFinds_example :
    let changed = (UserRepository.update (record ann { password_hash = plain_b }) full).1 in
    let last = (TenantRepository.create plain_b 2 (aware 5) changed).1 in
    (v : User) × (UserRepository.get_by_email spaced_a last ≡ ok (some v))
    × (v.id ≡ 1)
    × (v.email ≡ plain_a)
unfolding lookup UserRepository.update flowtona.Common.list_beq UserRepository.get_by_email
    normalise_email
Reach-StillFinds_example =
    Reach-StillFinds accepts accepts-IsStable full-IsSound
      (next (next here (Step.user_update full (record ann { password_hash = plain_b }))) (
        Step.tenant_create (UserRepository.update (record ann { password_hash = plain_b }) full).1
          plain_b 2 (aware 5) refl))
      spaced_a ann refl
