-- ===== src/History/Filed.antt =====
-- The indexes over a run of the service: what a key leads to never changes.
use flowtona.Common.{refl, ap, Text, Option, arith, list_eq, nat_eq, pair_eq}
use flowtona.Email.{IsStable}
use flowtona.Store.{Store}
use flowtona.Repositories.UserRepository.Consistency as Users
use flowtona.Repositories.MembershipRepository.Consistency as Memberships
use flowtona.Repositories.InvitationRepository.Acceptance
use flowtona.Repositories.EmailVerificationRepository.Consumption
use flowtona.Repositories.EmailVerificationRepository.Resend
use flowtona.Repositories.RefreshTokenRepository.Rotation
use flowtona.Repositories.RefreshTokenRepository.Families
use flowtona.History.{Step, Reach, here, next}
use flowtona.History.Parts.{only}
use flowtona.History.Invariant.{IsSound, Reach-IsSound}
use flowtona.History.Indexes.{
  Keeps, Keeps-same, addresses_of, pairs_of, invitations_of, verifications_of, tokens_of,
  user_create-Keeps, membership_create-Keeps, token_create-Keeps, invitation_create-Keeps,
  verification_create-Keeps,
}

pub record Filed (s s' : Store) : Type 0 where
  pub addresses : Keeps s.user_id_by_email s'.user_id_by_email
  pub pairs : Keeps s.membership_id_by_user_tenant s'.membership_id_by_user_tenant
  pub invitations : Keeps s.invitation_id_by_token_hash s'.invitation_id_by_token_hash
  pub verifications :
      Keeps s.email_verification_id_by_token_hash s'.email_verification_id_by_token_hash
  pub tokens : Keeps s.refresh_token_id_by_hash s'.refresh_token_id_by_hash

module _ (email_str : Text → Option Text) (stable : IsStable email_str) where
  Step-addresses :
      {s s' : Store}
      → IsSound email_str s
      → Step email_str s s'
      → Keeps (addresses_of s) (addresses_of s')
  Step-addresses i (Step.user_create s e p d id now new) =
      user_create-Keeps email_str s e p d id now
  Step-addresses i (Step.user_update s u) =
      Keeps-same (ground (arith, Users.update_user_lem email_str u s))
  Step-addresses i st = Keeps-same (ap addresses_of (only email_str stable i st))

  Step-pairs :
      {s s' : Store} → IsSound email_str s → Step email_str s s' → Keeps (pairs_of s) (pairs_of s')
  Step-pairs i (Step.membership_create s u t role id now new) =
      membership_create-Keeps s u t role id now
  Step-pairs i (Step.membership_update s m) =
      Keeps-same (ground (arith, Memberships.update_membership_lem m s))
  Step-pairs i st = Keeps-same (ap pairs_of (only email_str stable i st))

  Step-invitations :
      {s s' : Store}
      → IsSound email_str s
      → Step email_str s s'
      → Keeps (invitations_of s) (invitations_of s')
  Step-invitations i (Step.invitation_create s t e role h by expires id now new) =
      invitation_create-Keeps email_str stable s t e role h by expires id now
  Step-invitations i (Step.mark_accepted s id at) =
      Keeps-same (ground (arith, Acceptance.mark_accepted_lem email_str s i.invitations id at))
  Step-invitations i st = Keeps-same (ap invitations_of (only email_str stable i st))

  Step-verifications :
      {s s' : Store}
      → IsSound email_str s
      → Step email_str s s'
      → Keeps (verifications_of s) (verifications_of s')
  Step-verifications i (Step.verification_create s u e h expires id now new) =
      verification_create-Keeps email_str stable s u e h expires id now
  Step-verifications i (Step.mark_consumed s id at) =
      Keeps-same (ground (arith, Consumption.mark_consumed_lem email_str s i.verifications id at))
  Step-verifications i (Step.revoke_pending s u at) =
      let (d, run, _) = Resend.revoke_pending_for_user_lem email_str u at s i.verifications in
      Keeps-same (ap (λ x. verifications_of x.1) run)
  Step-verifications i st = Keeps-same (ap verifications_of (only email_str stable i st))

  Step-tokens :
      {s s' : Store}
      → IsSound email_str s
      → Step email_str s s'
      → Keeps (tokens_of s) (tokens_of s')
  Step-tokens i (Step.token_create s u t f h expires id now new) =
      token_create-Keeps s u t f h expires id now
  Step-tokens i (Step.mark_rotated s h replacement at) =
      let ((o, found), _) = Rotation.get_by_token_hash_iff s h i.tokens in
      Keeps-same (ground (arith, Rotation.mark_rotated_lem replacement at s h o i.tokens found))
  Step-tokens i (Step.revoke_family s f at) =
      let (d, run, _) = Families.revoke_family_lem at s i.tokens f in
      Keeps-same (ap (λ x. tokens_of x.1) run)
  Step-tokens i (Step.revoke_all_active s u t at) =
      let (d, run, _) = Families.revoke_all_active_lem at s i.tokens u t in
      Keeps-same (ap (λ x. tokens_of x.1) run)
  Step-tokens i st = Keeps-same (ap tokens_of (only email_str stable i st))

  -- With a stable check of addresses, from a sound store, whatever calls follow: a key that leads to an id goes on to lead to the same id, be it an address, a user and tenant, or the hash of an invitation, a verification or a token.
  pub Reach-Filed : {s s' : Store} → IsSound email_str s → Reach email_str s s' → Filed s s'
  Reach-Filed i here = record {
    addresses = Keeps-same refl;
    pairs = Keeps-same refl;
    invitations = Keeps-same refl;
    verifications = Keeps-same refl;
    tokens = Keeps-same refl;
  }
  Reach-Filed i (next r st) =
      let before = Reach-Filed i r in
      let now = Reach-IsSound email_str stable i r in
      record {
        addresses = λ key k found. Step-addresses now st key k (before.addresses key k found);
        pairs = λ key k found. Step-pairs now st key k (before.pairs key k found);
        invitations = λ key k found. Step-invitations now st key k (before.invitations key k found);
        verifications =
            λ key k found. Step-verifications now st key k (before.verifications key k found);
        tokens = λ key k found. Step-tokens now st key k (before.tokens key k found);
      }
