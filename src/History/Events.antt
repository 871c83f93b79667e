-- ===== src/History/Events.antt =====
-- The calls whose success uses up a normal form of an address, a pair, a hash or a record.
use flowtona.Common.{◌≡◌, Text, Option, none, DateTime, lookup, ok, list_eq, nat_eq, pair_eq}
use flowtona.Email.{normalise_email}
use flowtona.Exceptions.{Uuid}
use flowtona.Models.User.{User}
use flowtona.Models.Membership.{TenantMembership, Role}
use flowtona.Models.Invitation.{Invitation}
use flowtona.Models.EmailVerification.{EmailVerification}
use flowtona.Models.RefreshToken.{RefreshTokenRecord}
use flowtona.Store.{Store}
use flowtona.Repositories.UserRepository
use flowtona.Repositories.MembershipRepository
use flowtona.Repositories.InvitationRepository
use flowtona.Repositories.EmailVerificationRepository
use flowtona.Repositories.RefreshTokenRepository

-- What is used up: the normal form of a submitted address by a sign-up, a user and tenant by a membership, a hash by the record issued under it, a record by its redemption.
pub data Event : Type 0 where
  signed_up : Text → Event
  joined : Uuid → Uuid → Event
  invitation_issued : Text → Event
  invitation_accepted : Uuid → Event
  verification_issued : Text → Event
  verification_consumed : Uuid → Event
  token_issued : Text → Event
  token_rotated : Text → Event

-- A call that succeeds in it. A UUID that a constructor draws is new among its kind.
pub data Does (email_str : Text → Option Text) : Event → Store → Store → Type 0 where
  sign_up :
      (s s' : Store) (email password_hash display_name : Text) (id : Uuid) (now : DateTime)
      (user : User)
      → lookup id s.users_by_id ≡ none
      → UserRepository.create email_str email password_hash display_name id now s ≡ (ok user, s')
      → Does email_str (signed_up (normalise_email email)) s s'
  join :
      (s s' : Store) (user_id tenant_id : Uuid) (role : Role) (id : Uuid) (now : DateTime)
      (membership : TenantMembership)
      → lookup id s.memberships_by_id ≡ none
      → MembershipRepository.create user_id tenant_id role id now s ≡ (ok membership, s')
      → Does email_str (joined user_id tenant_id) s s'
  invite :
      (s s' : Store) (tenant_id : Uuid) (email : Text) (role : Role) (token_hash : Text)
      (invited_by : Uuid) (expires_at : DateTime) (id : Uuid) (now : DateTime)
      (invitation : Invitation)
      → lookup id s.invitations_by_id ≡ none
      → InvitationRepository.create email_str tenant_id email role token_hash invited_by expires_at
          id now s
        ≡ (ok invitation, s')
      → Does email_str (invitation_issued token_hash) s s'
  accept :
      (s s' : Store) (id : Uuid) (at : DateTime) (invitation : Invitation)
      → InvitationRepository.mark_accepted email_str id at s ≡ (ok invitation, s')
      → Does email_str (invitation_accepted id) s s'
  ask :
      (s s' : Store) (user_id : Uuid) (email token_hash : Text) (expires_at : DateTime) (id : Uuid)
      (now : DateTime) (verification : EmailVerification)
      → lookup id s.email_verifications_by_id ≡ none
      → EmailVerificationRepository.create email_str user_id email token_hash expires_at id now s
        ≡ (ok verification, s')
      → Does email_str (verification_issued token_hash) s s'
  consume :
      (s s' : Store) (id : Uuid) (at : DateTime) (verification : EmailVerification)
      → EmailVerificationRepository.mark_consumed email_str id at s ≡ (ok verification, s')
      → Does email_str (verification_consumed id) s s'
  issue :
      (s s' : Store) (user_id tenant_id family_id : Uuid) (token_hash : Text)
      (expires_at : DateTime) (id : Uuid) (now : DateTime) (token : RefreshTokenRecord)
      → lookup id s.refresh_tokens_by_id ≡ none
      → RefreshTokenRepository.create user_id tenant_id family_id token_hash expires_at id now s
        ≡ (ok token, s')
      → Does email_str (token_issued token_hash) s s'
  rotate :
      (s s' : Store) (token_hash : Text) (replacement : Uuid) (at : DateTime)
      (token : RefreshTokenRecord)
      → RefreshTokenRepository.mark_rotated token_hash replacement at s ≡ (ok token, s')
      → Does email_str (token_rotated token_hash) s s'
