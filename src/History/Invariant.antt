-- ===== src/History/Invariant.antt =====
-- Every run of the service keeps every collection and its indexes together.
use flowtona.Common.{ap, Text, Option}
use flowtona.Email.{IsStable}
use flowtona.Store.{Store, empty}
use flowtona.History.{Step, Reach, here, next}
use flowtona.Repositories.TenantRepository.Consistency as Tenants
use flowtona.Repositories.UserRepository.Consistency as Users
use flowtona.Repositories.MembershipRepository.Consistency as Memberships
use flowtona.Repositories.InvitationRepository.Consistency as Invitations
use flowtona.Repositories.InvitationRepository.Acceptance
use flowtona.Repositories.EmailVerificationRepository.Consistency as Verifications
use flowtona.Repositories.EmailVerificationRepository.Consumption
use flowtona.Repositories.EmailVerificationRepository.Resend
use flowtona.Repositories.RefreshTokenRepository.Consistency as Tokens
use flowtona.Repositories.RefreshTokenRepository.Rotation
use flowtona.Repositories.RefreshTokenRepository.Families
use flowtona.History.Parts.{only}
use flowtona.History.Soundness.{
  tenants_part, users_part, memberships_part, invitations_part, verifications_part, tokens_part,
  users_kept, tenants_kept, memberships_kept, invitations_kept, verifications_kept, tokens_kept,
}
pub use flowtona.History.Soundness.{IsSound}

module _ (email_str : Text → Option Text) (stable : IsStable email_str) where
  Step-tenants : {s t : Store} → IsSound email_str s → Step email_str s t → Tenants.IsConsistent t
  Step-tenants i (Step.tenant_create s label id now new) =
      Tenants.create-IsConsistent label id now s i.tenants
  Step-tenants i st =
      tenants_kept email_str (ap tenants_part (only email_str stable i st)) i.tenants

  Step-users :
      {s t : Store} → IsSound email_str s → Step email_str s t → Users.IsConsistent email_str t
  Step-users i (Step.user_create s e p d id now new) =
      Users.create-IsConsistent email_str e p d id now s new i.users
  Step-users i (Step.user_update s u) = Users.update-IsConsistent email_str u s i.users
  Step-users {s} {t} i st =
      users_kept email_str s t (ap users_part (only email_str stable i st)) i.users

  Step-memberships :
      {s t : Store} → IsSound email_str s → Step email_str s t → Memberships.IsConsistent t
  Step-memberships i (Step.membership_create s u t role id now new) =
      Memberships.create-IsConsistent u t role id now s new i.memberships
  Step-memberships i (Step.membership_update s m) =
      Memberships.update-IsConsistent m s i.memberships
  Step-memberships i st =
      memberships_kept email_str (ap memberships_part (only email_str stable i st)) i.memberships

  Step-invitations :
      {s t : Store}
      → IsSound email_str s
      → Step email_str s t
      → Invitations.IsConsistent email_str t
  Step-invitations i (Step.invitation_create s t e role h by expires id now new) =
      Invitations.create-IsConsistent email_str t e role h by expires id now stable s new
        i.invitations
  Step-invitations i (Step.mark_accepted s id at) =
      Acceptance.mark_accepted-IsConsistent email_str s i.invitations id at
  Step-invitations i st =
      invitations_kept email_str (ap invitations_part (only email_str stable i st)) i.invitations

  Step-verifications :
      {s t : Store}
      → IsSound email_str s
      → Step email_str s t
      → Verifications.IsConsistent email_str t
  Step-verifications i (Step.verification_create s u e h expires id now new) =
      Verifications.create-IsConsistent email_str u e h expires id now stable s new i.verifications
  Step-verifications i (Step.mark_consumed s id at) =
      Consumption.mark_consumed-IsConsistent email_str s i.verifications id at
  Step-verifications i (Step.revoke_pending s u at) =
      Resend.revoke_pending_for_user-IsConsistent email_str u at s i.verifications
  Step-verifications i st =
      verifications_kept email_str (ap verifications_part (only email_str stable i st))
        i.verifications

  Step-tokens : {s t : Store} → IsSound email_str s → Step email_str s t → Tokens.IsConsistent t
  Step-tokens i (Step.token_create s u t f h expires id now new) =
      Tokens.create-IsConsistent u t f h expires id now s new i.tokens
  Step-tokens i (Step.mark_rotated s h replacement at) =
      Rotation.mark_rotated-IsConsistent replacement at s h i.tokens
  Step-tokens i (Step.revoke_family s f at) = Families.revoke_family-IsConsistent at s i.tokens f
  Step-tokens i (Step.revoke_all_active s u t at) =
      Families.revoke_all_active-IsConsistent at s i.tokens u t
  Step-tokens i st = tokens_kept email_str (ap tokens_part (only email_str stable i st)) i.tokens

  pub Step-IsSound : {s t : Store} → Step email_str s t → IsSound email_str s → IsSound email_str t
  Step-IsSound st i = record {
    tenants = Step-tenants i st;
    users = Step-users i st;
    memberships = Step-memberships i st;
    invitations = Step-invitations i st;
    verifications = Step-verifications i st;
    tokens = Step-tokens i st;
  }

  pub empty-IsSound : IsSound email_str empty
  empty-IsSound = record {
    tenants = Tenants.empty-IsConsistent;
    users = Users.empty-IsConsistent email_str;
    memberships = Memberships.empty-IsConsistent;
    invitations = Invitations.empty-IsConsistent email_str;
    verifications = Verifications.empty-IsConsistent email_str;
    tokens = Tokens.empty-IsConsistent;
  }

  -- Whatever calls are made on a sound store, in whatever order, whether they return or raise, the store stays sound, if each UUID drawn is new among its kind and the check of addresses is stable.
  pub Reach-IsSound :
      {s t : Store} → IsSound email_str s → Reach email_str s t → IsSound email_str t
  Reach-IsSound i here = i
  Reach-IsSound i (next r st) = Step-IsSound st (Reach-IsSound i r)
