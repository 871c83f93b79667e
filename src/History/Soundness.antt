-- ===== src/History/Soundness.antt =====
-- The invariants of the six repositories together, and what each of them reads of the store.
use flowtona.Common.{◌≡◌, ap, Dict, List, Text, Option}
use flowtona.Exceptions.{Uuid}
use flowtona.Models.User.{User}
use flowtona.Models.Tenant.{Tenant}
use flowtona.Models.Membership.{TenantMembership}
use flowtona.Models.Invitation.{Invitation}
use flowtona.Models.EmailVerification.{EmailVerification}
use flowtona.Models.RefreshToken.{RefreshTokenRecord}
use flowtona.Store.{Store}
use flowtona.Repositories.TenantRepository.Consistency as Tenants
use flowtona.Repositories.UserRepository.Consistency as Users
use flowtona.Repositories.MembershipRepository.Consistency as Memberships
use flowtona.Repositories.InvitationRepository.Consistency as Invitations
use flowtona.Repositories.EmailVerificationRepository.Consistency as Verifications
use flowtona.Repositories.RefreshTokenRepository.Consistency as Tokens

pub record IsSound (email_str : Text → Option Text) (s : Store) : Type 0 where
  pub tenants : Tenants.IsConsistent s
  pub users : Users.IsConsistent email_str s
  pub memberships : Memberships.IsConsistent s
  pub invitations : Invitations.IsConsistent email_str s
  pub verifications : Verifications.IsConsistent email_str s
  pub tokens : Tokens.IsConsistent s

-- What each invariant reads of the store.
abbrev pub tenants_part : Store → Dict Uuid Tenant
tenants_part s = s.tenants_by_id

abbrev pub users_part : Store → Dict Uuid User × Dict Text Uuid
users_part s = (s.users_by_id, s.user_id_by_email)

abbrev pub memberships_part :
    Store → Dict Uuid TenantMembership × Dict (Uuid × Uuid) Uuid × Dict Uuid (List Uuid)
memberships_part s = (s.memberships_by_id, s.membership_id_by_user_tenant, s.membership_ids_by_user)

abbrev pub invitations_part : Store → Dict Uuid Invitation × Dict Text Uuid
invitations_part s = (s.invitations_by_id, s.invitation_id_by_token_hash)

abbrev pub verifications_part : Store → Dict Uuid EmailVerification × Dict Text Uuid
verifications_part s = (s.email_verifications_by_id, s.email_verification_id_by_token_hash)

abbrev pub tokens_part :
    Store → Dict Uuid RefreshTokenRecord × Dict Text Uuid × Dict Uuid (List Uuid)
tokens_part s = (s.refresh_tokens_by_id, s.refresh_token_id_by_hash, s.refresh_token_ids_by_family)

pub users_kept :
    (email_str : Text → Option Text) (s s' : Store)
    → users_part s' ≡ users_part s
    → Users.IsConsistent email_str s
    → Users.IsConsistent email_str s'
users_kept email_str s s' same =
    Users.frame-IsConsistent email_str s s' (ap (λ x. x.0) same) (ap (λ x. x.1) same)

module _ (email_str : Text → Option Text) {s s' : Store} where
  pub tenants_kept :
      tenants_part s' ≡ tenants_part s → Tenants.IsConsistent s → Tenants.IsConsistent s'
  tenants_kept same = Tenants.frame-IsConsistent same

  pub memberships_kept :
      memberships_part s' ≡ memberships_part s
      → Memberships.IsConsistent s
      → Memberships.IsConsistent s'
  memberships_kept same =
      Memberships.frame-IsConsistent (ap (λ x. x.0) same) (ap (λ x. x.1) same) (ap (λ x. x.2) same)

  pub invitations_kept :
      invitations_part s' ≡ invitations_part s
      → Invitations.IsConsistent email_str s
      → Invitations.IsConsistent email_str s'
  invitations_kept same =
      Invitations.frame-IsConsistent email_str (ap (λ x. x.0) same) (ap (λ x. x.1) same)

  pub verifications_kept :
      verifications_part s' ≡ verifications_part s
      → Verifications.IsConsistent email_str s
      → Verifications.IsConsistent email_str s'
  verifications_kept same =
      Verifications.frame-IsConsistent email_str (ap (λ x. x.0) same) (ap (λ x. x.1) same)

  pub tokens_kept : tokens_part s' ≡ tokens_part s → Tokens.IsConsistent s → Tokens.IsConsistent s'
  tokens_kept same =
      Tokens.frame-IsConsistent (ap (λ x. x.0) same) (ap (λ x. x.1) same) (ap (λ x. x.2) same)
