-- ===== src/History/Frames.antt =====
-- Each method writes the collections of its own repository alone.
use flowtona.Common.{◌≡◌, refl, Text, Option, arith, DateTime, nat_eq, list_eq, pair_eq}
use flowtona.Exceptions.{Uuid}
use flowtona.Email.{IsStable}
use flowtona.Models.User.{User}
use flowtona.Models.Membership.{TenantMembership, Role}
use flowtona.Store.{Store}
use flowtona.Repositories.UserRepository
use flowtona.Repositories.UserRepository.Consistency as Users
use flowtona.Repositories.TenantRepository
use flowtona.Repositories.MembershipRepository
use flowtona.Repositories.MembershipRepository.Consistency as Memberships
use flowtona.Repositories.InvitationRepository
use flowtona.Repositories.InvitationRepository.Consistency as Invitations
use flowtona.Repositories.InvitationRepository.Acceptance
use flowtona.Repositories.EmailVerificationRepository
use flowtona.Repositories.EmailVerificationRepository.Consistency as Verifications
use flowtona.Repositories.EmailVerificationRepository.Consumption
use flowtona.Repositories.EmailVerificationRepository.Resend
use flowtona.Repositories.RefreshTokenRepository
use flowtona.Repositories.RefreshTokenRepository.Consistency as Tokens
use flowtona.Repositories.RefreshTokenRepository.Rotation
use flowtona.Repositories.RefreshTokenRepository.Families

abbrev pub UsersOnly : Store → Store → Type 0
UsersOnly s s' =
    s' ≡ record s { users_by_id = s'.users_by_id; user_id_by_email = s'.user_id_by_email }

abbrev pub TenantsOnly : Store → Store → Type 0
TenantsOnly s s' = s' ≡ record s { tenants_by_id = s'.tenants_by_id }

abbrev pub MembershipsOnly : Store → Store → Type 0
MembershipsOnly s s' = s' ≡ record s {
  memberships_by_id = s'.memberships_by_id;
  membership_id_by_user_tenant = s'.membership_id_by_user_tenant;
  membership_ids_by_user = s'.membership_ids_by_user;
}

abbrev pub InvitationsOnly : Store → Store → Type 0
InvitationsOnly s s' = s' ≡ record s {
  invitations_by_id = s'.invitations_by_id;
  invitation_id_by_token_hash = s'.invitation_id_by_token_hash;
}

abbrev pub VerificationsOnly : Store → Store → Type 0
VerificationsOnly s s' = s' ≡ record s {
  email_verifications_by_id = s'.email_verifications_by_id;
  email_verification_id_by_token_hash = s'.email_verification_id_by_token_hash;
}

abbrev pub TokensOnly : Store → Store → Type 0
TokensOnly s s' = s' ≡ record s {
  refresh_tokens_by_id = s'.refresh_tokens_by_id;
  refresh_token_id_by_hash = s'.refresh_token_id_by_hash;
  refresh_token_ids_by_family = s'.refresh_token_ids_by_family;
}

module _ (email_str : Text → Option Text) (s : Store) where
  pub user_create-UsersOnly :
      (e p d : Text) (id : Uuid) (now : DateTime)
      → UsersOnly s (UserRepository.create email_str e p d id now s).1
  user_create-UsersOnly e p d id now =
      ground (arith, Users.create_user_lem email_str e p d id now s)

  pub user_update-UsersOnly : (u : User) → UsersOnly s (UserRepository.update u s).1
  user_update-UsersOnly u = ground (arith, Users.update_user_lem email_str u s)

  pub membership_create-MembershipsOnly :
      (u t : Uuid) (role : Role) (id : Uuid) (now : DateTime)
      → MembershipsOnly s (MembershipRepository.create u t role id now s).1
  membership_create-MembershipsOnly u t role id now =
      ground (arith, Memberships.create_membership_lem u t role id now s)

  pub membership_update-MembershipsOnly :
      (m : TenantMembership) → MembershipsOnly s (MembershipRepository.update m s).1
  membership_update-MembershipsOnly m = ground (arith, Memberships.update_membership_lem m s)

module _ (email_str : Text → Option Text) (stable : IsStable email_str) (s : Store) where
  pub invitation_create-InvitationsOnly :
      (t : Uuid) (e : Text) (role : Role) (h : Text) (by : Uuid) (expires : DateTime) (id : Uuid)
      (now : DateTime)
      → InvitationsOnly s (InvitationRepository.create email_str t e role h by expires id now s).1
  invitation_create-InvitationsOnly t e role h by expires id now =
      ground (arith, Invitations.create_outcomes email_str t e role h by expires id now stable s)

  pub verification_create-VerificationsOnly :
      (u : Uuid) (e h : Text) (expires : DateTime) (id : Uuid) (now : DateTime)
      → VerificationsOnly s (EmailVerificationRepository.create email_str u e h expires id now s).1
  verification_create-VerificationsOnly u e h expires id now =
      ground (arith, Verifications.create_outcomes email_str u e h expires id now stable s)

  pub mark_accepted-InvitationsOnly :
      (id : Uuid) (at : DateTime)
      → Invitations.IsConsistent email_str s
      → InvitationsOnly s (InvitationRepository.mark_accepted email_str id at s).1
  mark_accepted-InvitationsOnly id at c =
      ground (arith, Acceptance.mark_accepted_lem email_str s c id at)

  pub mark_consumed-VerificationsOnly :
      (id : Uuid) (at : DateTime)
      → Verifications.IsConsistent email_str s
      → VerificationsOnly s (EmailVerificationRepository.mark_consumed email_str id at s).1
  mark_consumed-VerificationsOnly id at c =
      ground (arith, Consumption.mark_consumed_lem email_str s c id at)

  pub revoke_pending-VerificationsOnly :
      (u : Uuid) (at : DateTime)
      → Verifications.IsConsistent email_str s
      → VerificationsOnly s (EmailVerificationRepository.revoke_pending_for_user email_str u at s).1
  revoke_pending-VerificationsOnly u at c =
      let (d, run, _) = Resend.revoke_pending_for_user_lem email_str u at s c in rw run refl

module _ (s : Store) where
  pub tenant_create-TenantsOnly :
      (label : Text) (id : Uuid) (now : DateTime)
      → TenantsOnly s (TenantRepository.create label id now s).1
  unfolding TenantRepository.create
  tenant_create-TenantsOnly label id now = refl

  pub token_create-TokensOnly :
      (u t f : Uuid) (h : Text) (expires : DateTime) (id : Uuid) (now : DateTime)
      → TokensOnly s (RefreshTokenRepository.create u t f h expires id now s).1
  token_create-TokensOnly u t f h expires id now =
      ground (arith, Tokens.create_outcomes u t f h expires id now s)

  module _ (c : Tokens.IsConsistent s) (at : DateTime) where
    pub mark_rotated-TokensOnly :
        (h : Text) (replacement : Uuid)
        → TokensOnly s (RefreshTokenRepository.mark_rotated h replacement at s).1
    mark_rotated-TokensOnly h replacement =
        let ((o, found), _) = Rotation.get_by_token_hash_iff s h c in
        ground (arith, Rotation.mark_rotated_lem replacement at s h o c found)

    pub revoke_family-TokensOnly :
        (f : Uuid) → TokensOnly s (RefreshTokenRepository.revoke_family f at s).1
    revoke_family-TokensOnly f =
        let (d, run, _) = Families.revoke_family_lem at s c f in rw run refl

    pub revoke_all_active-TokensOnly :
        (u t : Uuid) → TokensOnly s (RefreshTokenRepository.revoke_all_active u t at s).1
    revoke_all_active-TokensOnly u t =
        let (d, run, _) = Families.revoke_all_active_lem at s c u t in rw run refl
