-- ===== src/History/Raises.antt =====
-- What a caller can meet: the exceptions of each method of the six repositories.
use flowtona.Common.{
  ◌≡◌, ◌⊎◌, String, Text, List, [], ◌∷◌, Bool, true, false, Option, DateTime, err, list_eq, nat_eq,
}
use flowtona.Exceptions.{
  Uuid, Error, duplicate_entry, record_not_found, concurrent_update, by_text, validation_error,
  not_implemented_error, type_error,
}
use flowtona.Models.User.{User}
use flowtona.Models.Membership.{TenantMembership, Role}
use flowtona.Store.{Store}
use flowtona.Repositories.UserRepository
use flowtona.Repositories.TenantRepository
use flowtona.Repositories.MembershipRepository
use flowtona.Repositories.InvitationRepository
use flowtona.Repositories.EmailVerificationRepository
use flowtona.Repositories.RefreshTokenRepository

-- The classes of app/repositories/exceptions.py, and what else a caller has to expect: ValidationError, NotImplementedError, and TypeError for times of different kinds. A KeyError is not among them.
abbrev pub is_expected : Error → Bool
is_expected (duplicate_entry _ _) = true
is_expected (record_not_found _ _) = true
is_expected (concurrent_update _ _ _ _) = true
is_expected (validation_error _ _) = true
is_expected not_implemented_error = true
is_expected type_error = true
is_expected _ = false

-- The texts that the exception keeps: an identifier that is a text, or those of a refused input.
abbrev pub texts_of : Error → List Text
texts_of (record_not_found _ (by_text h)) = h ∷ []
texts_of (concurrent_update _ (by_text h) _ _) = h ∷ []
texts_of (validation_error _ texts) = texts
texts_of _ = []

abbrev pub IsValidation : Error → Type 0
IsValidation e = (why : String) × (texts : List Text) × (e ≡ validation_error why texts)

abbrev pub IsPlain : Error → Type 0
IsPlain e = (is_expected e ≡ true) × (IsValidation e ⊎ (texts_of e ≡ []))

-- A call on the store that raises, by its method.
pub data Raises (email_str : Text → Option Text) (s : Store) (e : Error) : Type 0 where
  user_create :
      (email password_hash display_name : Text) (id : Uuid) (now : DateTime)
      → (UserRepository.create email_str email password_hash display_name id now s).0 ≡ err e
      → Raises email_str s e
  user_get_by_email :
      (email : Text) → UserRepository.get_by_email email s ≡ err e → Raises email_str s e
  user_update : (user : User) → (UserRepository.update user s).0 ≡ err e → Raises email_str s e
  tenant_create :
      (tenant_label : Text) (id : Uuid) (now : DateTime)
      → (TenantRepository.create tenant_label id now s).0 ≡ err e
      → Raises email_str s e
  membership_create :
      (user_id tenant_id : Uuid) (role : Role) (id : Uuid) (now : DateTime)
      → (MembershipRepository.create user_id tenant_id role id now s).0 ≡ err e
      → Raises email_str s e
  get_by_user_and_tenant :
      (user_id tenant_id : Uuid)
      → MembershipRepository.get_by_user_and_tenant user_id tenant_id s ≡ err e
      → Raises email_str s e
  get_memberships_for_user :
      (user_id : Uuid)
      → MembershipRepository.get_memberships_for_user user_id s ≡ err e
      → Raises email_str s e
  membership_update :
      (membership : TenantMembership)
      → (MembershipRepository.update membership s).0 ≡ err e
      → Raises email_str s e
  invitation_create :
      (tenant_id : Uuid) (email : Text) (role : Role) (token_hash : Text) (invited_by : Uuid)
      (expires_at : DateTime) (id : Uuid) (now : DateTime)
      → (InvitationRepository.create email_str tenant_id email role token_hash invited_by expires_at
          id now s).0
        ≡ err e
      → Raises email_str s e
  invitation_get :
      (token_hash : Text)
      → InvitationRepository.get_by_token_hash token_hash s ≡ err e
      → Raises email_str s e
  mark_accepted :
      (id : Uuid) (at : DateTime)
      → (InvitationRepository.mark_accepted email_str id at s).0 ≡ err e
      → Raises email_str s e
  verification_create :
      (user_id : Uuid) (email token_hash : Text) (expires_at : DateTime) (id : Uuid)
      (now : DateTime)
      → (EmailVerificationRepository.create email_str user_id email token_hash expires_at id now
          s).0
        ≡ err e
      → Raises email_str s e
  verification_get :
      (token_hash : Text)
      → EmailVerificationRepository.get_by_token_hash token_hash s ≡ err e
      → Raises email_str s e
  mark_consumed :
      (id : Uuid) (at : DateTime)
      → (EmailVerificationRepository.mark_consumed email_str id at s).0 ≡ err e
      → Raises email_str s e
  revoke_pending :
      (user_id : Uuid) (at : DateTime)
      → (EmailVerificationRepository.revoke_pending_for_user email_str user_id at s).0 ≡ err e
      → Raises email_str s e
  token_create :
      (user_id tenant_id family_id : Uuid) (token_hash : Text) (expires_at : DateTime) (id : Uuid)
      (now : DateTime)
      → (RefreshTokenRepository.create user_id tenant_id family_id token_hash expires_at id now s).0
        ≡ err e
      → Raises email_str s e
  token_get :
      (token_hash : Text)
      → RefreshTokenRepository.get_by_token_hash token_hash s ≡ err e
      → Raises email_str s e
  mark_rotated :
      (token_hash : Text) (replacement : Uuid) (at : DateTime)
      → (RefreshTokenRepository.mark_rotated token_hash replacement at s).0 ≡ err e
      → Raises email_str s e
  revoke_family :
      (family_id : Uuid) (at : DateTime)
      → (RefreshTokenRepository.revoke_family family_id at s).0 ≡ err e
      → Raises email_str s e
  revoke_all_active :
      (user_id tenant_id : Uuid) (at : DateTime)
      → (RefreshTokenRepository.revoke_all_active user_id tenant_id at s).0 ≡ err e
      → Raises email_str s e
