-- ===== src/History/Errors.antt =====
-- What a method raises on a sound store.
use flowtona.Common.{
  ◌≡◌, arith, ◌⊎◌, inl, inr, Text, Option, none, DateTime, Result, ok, err, list_eq, nat_eq,
  Bool-cases, Option-cases, contains,
}
use flowtona.Exceptions.{Uuid, Error, record_not_found, by_text}
use flowtona.Email.{normalise_email}
use flowtona.Models.Membership.{Role}
use flowtona.Models.Invitation
use flowtona.Models.Invitation.{Invitation}
use flowtona.Models.EmailVerification
use flowtona.Models.EmailVerification.{EmailVerification}
use flowtona.Models.RefreshToken
use flowtona.Models.RefreshToken.{RefreshTokenRecord}
use flowtona.Store.{Store}
use flowtona.Repositories.UserRepository.Consistency as Users
use flowtona.Repositories.UserRepository.Addresses
use flowtona.Repositories.TenantRepository
use flowtona.Repositories.MembershipRepository.Consistency as Memberships
use flowtona.Repositories.MembershipRepository.Lookup.{get_by_user_and_tenant_iff}
use flowtona.Repositories.MembershipRepository.Listing
use flowtona.Repositories.InvitationRepository
use flowtona.Repositories.InvitationRepository.Consistency as Invitations
use flowtona.Repositories.InvitationRepository.Acceptance
use flowtona.Repositories.InvitationRepository.Lookup.{get_invitation_iff}
use flowtona.Repositories.EmailVerificationRepository
use flowtona.Repositories.EmailVerificationRepository.Consistency as Verifications
use flowtona.Repositories.EmailVerificationRepository.Consumption
use flowtona.Repositories.EmailVerificationRepository.Resend
use flowtona.Repositories.EmailVerificationRepository.Lookup.{get_verification_iff}
use flowtona.Repositories.RefreshTokenRepository
use flowtona.Repositories.RefreshTokenRepository.Consistency as Tokens
use flowtona.Repositories.RefreshTokenRepository.Rotation
use flowtona.Repositories.RefreshTokenRepository.Families
use flowtona.History.Invariant.{IsSound}
use flowtona.History.Raises.{IsPlain, Raises}

-- What the constructors of the records raise.
module _ (email_str : Text → Option Text) (e : Error) where
  invitation-IsPlain : (i : Invitation) → Invitation.validate email_str i ≡ err e → IsPlain e
  unfolding Invitation.validate Invitation.check_expiry_ordering
      Invitation.check_accepted_at_present_when_accepted
  invitation-IsPlain i raised = ground arith

  verification-IsPlain :
      (v : EmailVerification) → EmailVerification.validate email_str v ≡ err e → IsPlain e
  unfolding EmailVerification.validate EmailVerification.check_status_timestamps
  verification-IsPlain v raised = ground arith

  token-IsPlain : (t : RefreshTokenRecord) → RefreshToken.validate t ≡ err e → IsPlain e
  unfolding RefreshToken.validate
  token-IsPlain t raised = ground arith

-- What `mark_rotated` raises for a hash that is not stored.
abbrev pub TellsHash : Store → Error → Type 0
TellsHash s e =
    (h : Text) × (e ≡ record_not_found "refresh_token" (by_text h))
    × (RefreshTokenRepository.get_by_token_hash h s ≡ ok none)

-- An answer that returned did not raise.
returned :
    {S A : Type 0} {call : Result Error A × S} {a : A} {s' : S} {e : Error}
    → call ≡ (ok a, s')
    → call.0 ≡ err e
    → ⊥
returned run raised = ground arith

module _ (email_str : Text → Option Text) (s : Store) (e : Error) (c : IsSound email_str s) where
  rotation_raises :
      (h : Text) (k : Uuid) (at : DateTime)
      → (RefreshTokenRepository.mark_rotated h k at s).0 ≡ err e
      → IsPlain e ⊎ TellsHash s e
  rotation_raises h k at raised =
      let (o, found) = (Rotation.get_by_token_hash_iff s h c.tokens).0 in
      let run = Rotation.mark_rotated_lem k at s h o c.tokens found in
      elim (Option-cases o) [
        | inl absent ↦ inr (h, ground arith, ground arith)
        | inr (t, there) ↦ inl (ground arith)
      ]

  invitation_raises :
      (n : Uuid) (email : Text) (role : Role) (h : Text) (by : Uuid) (expires : DateTime)
      (id : Uuid) (now : DateTime)
      → (InvitationRepository.create email_str n email role h by expires id now s).0 ≡ err e
      → IsPlain e
  invitation_raises n email role h by expires id now raised =
      let i =
        Invitations.issued email_str n email role h by expires id now (normalise_email email) in
      let run = Invitations.create_invitation_lem email_str n email role h by expires id now s in
      elim (Bool-cases (contains h s.invitation_id_by_token_hash)) [
        | inl taken ↦ ground arith
        | inr free ↦ invitation-IsPlain email_str e i (ground arith)
      ]

  verification_raises :
      (u : Uuid) (email h : Text) (expires : DateTime) (id : Uuid) (now : DateTime)
      → (EmailVerificationRepository.create email_str u email h expires id now s).0 ≡ err e
      → IsPlain e
  verification_raises u email h expires id now raised =
      let v = Verifications.issued email_str u email h expires id now (normalise_email email) in
      let run = Verifications.create_verification_lem email_str u email h expires id now s in
      elim (Bool-cases (contains h s.email_verification_id_by_token_hash)) [
        | inl taken ↦ ground arith
        | inr free ↦ verification-IsPlain email_str e v (ground arith)
      ]

  token_raises :
      (u n f : Uuid) (h : Text) (expires : DateTime) (id : Uuid) (now : DateTime)
      → (RefreshTokenRepository.create u n f h expires id now s).0 ≡ err e
      → IsPlain e
  token_raises u n f h expires id now raised =
      let run = Tokens.create_token_lem u n f h expires id now s in
      elim (Bool-cases (contains h s.refresh_token_id_by_hash)) [
        | inl taken ↦ ground arith
        | inr free ↦ token-IsPlain email_str e (Tokens.issued u n f h expires id now) (ground arith)
      ]

  tenant_returns :
      (label : Text) (id : Uuid) (now : DateTime)
      → (TenantRepository.create label id now s).0 ≡ err e
      → ⊥
  unfolding TenantRepository.create
  tenant_returns label id now raised = ground arith

  -- An exception that a method raises on a sound store is one of the repository's classes, a ValidationError, a NotImplementedError or a TypeError, never a KeyError. It keeps no text, as an identifier or a refused input, unless it is a ValidationError, or the not-found of a hash that is not stored, whose identifier is that hash.
  pub Raises_lem : Raises email_str s e → IsPlain e ⊎ TellsHash s e
  Raises_lem (Raises.user_create email p d id now raised) =
      inl (ground (arith, Users.create_user_lem email_str email p d id now s))
  Raises_lem (Raises.user_get_by_email email raised) =
      let (o, found, each) = Addresses.get_by_email_total email_str s email c.users in
      absurd (ground arith)
  Raises_lem (Raises.user_update user raised) =
      inl (ground (arith, Users.update_user_lem email_str user s))
  Raises_lem (Raises.tenant_create label id now raised) =
      absurd (tenant_returns label id now raised)
  Raises_lem (Raises.membership_create u n role id now raised) =
      inl (ground (arith, Memberships.create_membership_lem u n role id now s))
  Raises_lem (Raises.get_by_user_and_tenant u n raised) =
      let (o, found) = (get_by_user_and_tenant_iff s u n c.memberships).0 in absurd (ground arith)
  Raises_lem (Raises.get_memberships_for_user u raised) =
      let (ms, listed, each) = Listing.get_memberships_for_user_lem s u c.memberships in
      absurd (ground arith)
  Raises_lem (Raises.membership_update m raised) =
      inl (ground (arith, Memberships.update_membership_lem m s))
  Raises_lem (Raises.invitation_create n email role h by expires id now raised) =
      inl (invitation_raises n email role h by expires id now raised)
  Raises_lem (Raises.invitation_get h raised) =
      let (o, found) = (get_invitation_iff email_str s h c.invitations).0 in absurd (ground arith)
  Raises_lem (Raises.mark_accepted id at raised) =
      inl (ground (arith, Acceptance.mark_accepted_lem email_str s c.invitations id at))
  Raises_lem (Raises.verification_create u email h expires id now raised) =
      inl (verification_raises u email h expires id now raised)
  Raises_lem (Raises.verification_get h raised) =
      let (o, found) = (get_verification_iff email_str s h c.verifications).0 in
      absurd (ground arith)
  Raises_lem (Raises.mark_consumed id at raised) =
      inl (ground (arith, Consumption.mark_consumed_lem email_str s c.verifications id at))
  Raises_lem (Raises.revoke_pending u at raised) =
      let (d, run, each) = Resend.revoke_pending_for_user_lem email_str u at s c.verifications in
      absurd (returned run raised)
  Raises_lem (Raises.token_create u n f h expires id now raised) =
      inl (token_raises u n f h expires id now raised)
  Raises_lem (Raises.token_get h raised) =
      let (o, found) = (Rotation.get_by_token_hash_iff s h c.tokens).0 in absurd (ground arith)
  Raises_lem (Raises.mark_rotated h k at raised) = rotation_raises h k at raised
  Raises_lem (Raises.revoke_family f at raised) =
      let (d, run, each) = Families.revoke_family_lem at s c.tokens f in
      absurd (returned run raised)
  Raises_lem (Raises.revoke_all_active u n at raised) =
      let (d, run, each) = Families.revoke_all_active_lem at s c.tokens u n in
      absurd (returned run raised)
