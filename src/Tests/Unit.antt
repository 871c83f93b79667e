-- ===== src/Tests/Unit.antt =====
-- The service's own unit tests of its repositories, tests/unit/repositories, as runs of the model.
use flowtona.Common.{
  ◌≡◌, refl, ℕ, String, Text, codes, Option, none, some, List, [], ◌∷◌, DateTime, aware, Result, ok,
  err,
}
use flowtona.Common.Action.{◌>>=◌, ◌>>◌, pure, gets, lift}
use flowtona.Exceptions.{
  Uuid, Error, duplicate_entry, concurrent_update, not_implemented_error, by_uuid,
}
use flowtona.Models.Membership
use flowtona.Models.Membership.{TenantMembership, Role, owner, technician, dispatcher}
use flowtona.Models.RefreshToken.{Status, active, revoked}
use flowtona.Models.RefreshToken
use flowtona.Models.EmailVerification
use flowtona.Models.Invitation
use flowtona.Models.User
use flowtona.Store.{Method, empty}
use flowtona.Repositories.UserRepository
use flowtona.Repositories.MembershipRepository
use flowtona.Repositories.InvitationRepository
use flowtona.Repositories.EmailVerificationRepository
use flowtona.Repositories.RefreshTokenRepository
use flowtona.Tests.Stores.{accepts}

-- What a test sees of a run from an empty store.
abbrev result : {A : Type 0} → Method A → Result Error A
result m = (m empty).0

abbrev now : DateTime
now = aware 1000

abbrev later : DateTime
later = aware 1900

-- Tests name a user, a tenant and a family by a number, and a record by the UUID that it is given.
abbrev issue : Uuid → Uuid → String → Uuid → Method (Option Status)
issue tenant family hash id = do
  RefreshTokenRepository.create 1 tenant family (codes hash) later id now
  pure none

abbrev status_of : String → Method (Option Status)
status_of hash = do
  answer ← gets (λ s. RefreshTokenRepository.get_by_token_hash (codes hash) s)
  found ← lift answer
  pure (elim found [ none ↦ none | some t ↦ some t.status ])

-- test_token_cannot_rotate_twice
token_cannot_rotate_twice :
    result (do
      issue 2 3 "hash1" 7
      RefreshTokenRepository.mark_rotated (codes "hash1") 8 now
      RefreshTokenRepository.mark_rotated (codes "hash1") 9 now)
    ≡ err (concurrent_update "refresh_token" (by_uuid 7) (some "active") (some "rotated"))
unfolding RefreshTokenRepository.create flowtona.Common.lookup RefreshToken.validate
    RefreshTokenRepository.mark_rotated flowtona.Common.insert flowtona.Common.list_beq
token_cannot_rotate_twice = refl

-- test_family_revocation_includes_rotated_ancestors
family_revocation_includes_rotated_ancestors :
    result {A = ℕ × Option Status × Option Status} (do
      issue 2 3 "hashA" 7
      RefreshTokenRepository.mark_rotated (codes "hashA") 9 now
      issue 2 3 "hashB" 8
      count ← RefreshTokenRepository.revoke_family 3 now
      a ← status_of "hashA"
      b ← status_of "hashB"
      pure (count, a, b))
    ≡ ok (2, some revoked, some revoked)
unfolding RefreshTokenRepository.create flowtona.Common.lookup RefreshToken.validate
    RefreshTokenRepository.mark_rotated flowtona.Common.insert flowtona.Common.list_beq
    RefreshTokenRepository.revoke_family flowtona.Common.Action.for_each RefreshTokenRepository.add
    RefreshTokenRepository.revoke_member RefreshTokenRepository.revoke
    RefreshTokenRepository.get_by_token_hash
family_revocation_includes_rotated_ancestors = refl

-- test_logout_all_covers_all_families_but_not_another_tenant
logout_all_covers_all_families_but_not_another_tenant :
    result {A = ℕ × Option Status × Option Status × Option Status} (do
      issue 2 3 "device1" 7
      issue 2 4 "device2" 8
      issue 5 6 "device3-other-tenant" 9
      count ← RefreshTokenRepository.revoke_all_active 1 2 now
      a ← status_of "device1"
      b ← status_of "device2"
      c ← status_of "device3-other-tenant"
      pure (count, a, b, c))
    ≡ ok (2, some revoked, some revoked, some active)
unfolding RefreshTokenRepository.create flowtona.Common.lookup RefreshToken.validate
    flowtona.Common.insert flowtona.Common.list_beq RefreshTokenRepository.revoke_all_active
    flowtona.Common.Action.for_each RefreshTokenRepository.revoke_item RefreshTokenRepository.revoke
    RefreshTokenRepository.get_by_token_hash
logout_all_covers_all_families_but_not_another_tenant = refl

-- test_duplicate_email_rejected_under_concurrent_creation, in the order of the calls
duplicate_email_rejected :
    result (do
      UserRepository.create accepts (codes "Dana@Example.com") [] [] 1 now
      UserRepository.create accepts (codes "dana@example.com") [] [] 2 now)
    ≡ err (duplicate_entry "user" "email")
unfolding UserRepository.create flowtona.Common.lookup User.validate flowtona.Email.normalise_email
    flowtona.Common.insert flowtona.Common.list_beq
duplicate_email_rejected = refl

-- test_duplicate_membership_rejected
duplicate_membership_rejected :
    result (do
      MembershipRepository.create 1 2 owner 7 now
      MembershipRepository.create 1 2 technician 8 now)
    ≡ err (duplicate_entry "membership" "user_tenant")
unfolding MembershipRepository.create flowtona.Common.lookup flowtona.Common.insert
duplicate_membership_rejected = refl

-- test_membership_listing_preserves_insertion_order
membership_listing_preserves_insertion_order :
    result (do
      a ← MembershipRepository.create 1 2 owner 7 now
      b ← MembershipRepository.create 1 3 technician 8 now
      c ← MembershipRepository.create 1 4 dispatcher 9 now
      answer ← gets (λ s. MembershipRepository.get_memberships_for_user 1 s)
      lift answer)
    ≡ ok (
        Membership.fresh 7 1 2 owner now
        ∷ Membership.fresh 8 1 3 technician now
        ∷ Membership.fresh 9 1 4 dispatcher now
        ∷ [])
unfolding MembershipRepository.create flowtona.Common.lookup flowtona.Common.insert
    MembershipRepository.get_memberships_for_user
membership_listing_preserves_insertion_order = refl

-- test_update_rejects_identity_field_change
update_rejects_identity_field_change :
    result (do
      membership ← MembershipRepository.create 1 2 owner 7 now
      MembershipRepository.update (record membership { tenant_id = 3 }))
    ≡ err not_implemented_error
unfolding MembershipRepository.create flowtona.Common.lookup MembershipRepository.update
    flowtona.Common.insert
update_rejects_identity_field_change = refl

-- test_acceptance_rejects_expired
acceptance_rejects_expired :
    result (do
      InvitationRepository.create accepts 2
          (codes "new.tech@example.com")
          technician
          (codes "hash")
          1
          later
          7
          now
      InvitationRepository.mark_accepted accepts 7 (aware 2000))
    ≡ err (concurrent_update "invitation" (by_uuid 7) (some "unexpired") (some "expired"))
unfolding InvitationRepository.create flowtona.Common.lookup Invitation.validate
    flowtona.Email.normalise_email Invitation.check_expiry_ordering
    Invitation.check_accepted_at_present_when_accepted InvitationRepository.mark_accepted
    flowtona.Common.insert
acceptance_rejects_expired = refl

-- test_resend_revokes_all_prior_pending_records
resend_revokes_all_prior_pending_records :
    result (do
      EmailVerificationRepository.create accepts 1
          (codes "dana@example.com")
          (codes "hash1")
          later
          7
          now
      EmailVerificationRepository.create accepts 1
          (codes "dana@example.com")
          (codes "hash2")
          later
          8
          now
      EmailVerificationRepository.create accepts 2
          (codes "other@example.com")
          (codes "hash3")
          later
          9
          now
      EmailVerificationRepository.revoke_pending_for_user accepts 1 now)
    ≡ ok 2
unfolding EmailVerificationRepository.create flowtona.Common.lookup EmailVerification.validate
    flowtona.Email.normalise_email EmailVerification.check_status_timestamps flowtona.Common.insert
    flowtona.Common.list_beq EmailVerificationRepository.revoke_pending_for_user
    flowtona.Common.Action.for_each EmailVerificationRepository.revoke_item
resend_revokes_all_prior_pending_records = refl
