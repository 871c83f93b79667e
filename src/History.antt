-- ===== src/History.antt =====
-- The service as it runs: the mutating methods of all six repositories on one store, in any order.
-- A method holds the lock from start to end, so a run is a sequence of whole calls.
mod Soundness
pub mod Invariant
pub mod Tokens
pub mod Kept
pub mod Invitations
pub mod Verifications
pub mod Logout
mod Lives
pub mod Users
pub mod Raises
pub mod Errors
mod Frames
mod Parts
mod Indexes
pub mod Filed
pub mod Events
pub mod Once
pub mod Privileges
pub mod Gating
pub mod Listings
use flowtona.Common.{◌≡◌, Text, Option, none, DateTime, lookup, nat_eq}
use flowtona.Exceptions.{Uuid}
use flowtona.Models.User.{User}
use flowtona.Models.Membership.{TenantMembership, Role}
use flowtona.Store.{Store}
use flowtona.Repositories.UserRepository
use flowtona.Repositories.TenantRepository
use flowtona.Repositories.MembershipRepository
use flowtona.Repositories.InvitationRepository
use flowtona.Repositories.EmailVerificationRepository
use flowtona.Repositories.RefreshTokenRepository

-- One call, whether it returns or raises. A UUID that a constructor draws is new among its kind.
pub data Step (email_str : Text → Option Text) : Store → Store → Type 0 where
  user_create :
      (s : Store) (email password_hash display_name : Text) (id : Uuid) (now : DateTime)
      → lookup id s.users_by_id ≡ none
      → Step email_str s
          (UserRepository.create email_str email password_hash display_name id now s).1
  user_update : (s : Store) (user : User) → Step email_str s (UserRepository.update user s).1
  tenant_create :
      (s : Store) (tenant_label : Text) (id : Uuid) (now : DateTime)
      → lookup id s.tenants_by_id ≡ none
      → Step email_str s (TenantRepository.create tenant_label id now s).1
  membership_create :
      (s : Store) (user_id tenant_id : Uuid) (role : Role) (id : Uuid) (now : DateTime)
      → lookup id s.memberships_by_id ≡ none
      → Step email_str s (MembershipRepository.create user_id tenant_id role id now s).1
  membership_update :
      (s : Store) (membership : TenantMembership)
      → Step email_str s (MembershipRepository.update membership s).1
  invitation_create :
      (s : Store) (tenant_id : Uuid) (email : Text) (role : Role) (token_hash : Text)
      (invited_by : Uuid) (expires_at : DateTime) (id : Uuid) (now : DateTime)
      → lookup id s.invitations_by_id ≡ none
      → Step email_str s
          (InvitationRepository.create email_str tenant_id email role token_hash invited_by
            expires_at id now s).1
  mark_accepted :
      (s : Store) (id : Uuid) (at : DateTime)
      → Step email_str s (InvitationRepository.mark_accepted email_str id at s).1
  verification_create :
      (s : Store) (user_id : Uuid) (email token_hash : Text) (expires_at : DateTime) (id : Uuid)
      (now : DateTime)
      → lookup id s.email_verifications_by_id ≡ none
      → Step email_str s
          (EmailVerificationRepository.create email_str user_id email token_hash expires_at id now
            s).1
  mark_consumed :
      (s : Store) (id : Uuid) (at : DateTime)
      → Step email_str s (EmailVerificationRepository.mark_consumed email_str id at s).1
  revoke_pending :
      (s : Store) (user_id : Uuid) (at : DateTime)
      → Step email_str s
          (EmailVerificationRepository.revoke_pending_for_user email_str user_id at s).1
  token_create :
      (s : Store) (user_id tenant_id family_id : Uuid) (token_hash : Text) (expires_at : DateTime)
      (id : Uuid) (now : DateTime)
      → lookup id s.refresh_tokens_by_id ≡ none
      → Step email_str s
          (RefreshTokenRepository.create user_id tenant_id family_id token_hash expires_at id now
            s).1
  mark_rotated :
      (s : Store) (token_hash : Text) (replacement : Uuid) (at : DateTime)
      → Step email_str s (RefreshTokenRepository.mark_rotated token_hash replacement at s).1
  revoke_family :
      (s : Store) (family_id : Uuid) (at : DateTime)
      → Step email_str s (RefreshTokenRepository.revoke_family family_id at s).1
  revoke_all_active :
      (s : Store) (user_id tenant_id : Uuid) (at : DateTime)
      → Step email_str s (RefreshTokenRepository.revoke_all_active user_id tenant_id at s).1

-- Any number of calls, the latest last.
pub data Reach (email_str : Text → Option Text) (s : Store) : Store → Type 0 where
  here : Reach email_str s s
  next : {t u : Store} → Reach email_str s t → Step email_str t u → Reach email_str s u
