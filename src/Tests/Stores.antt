-- ===== src/Tests/Stores.antt =====
-- The stores that the tests start from, each reached by calls from the empty store.
use flowtona.Common.{◌≡◌, refl, sym, Text, [], ◌∷◌, Option, none, some, arith, aware, lookup}
use flowtona.Email.{IsStable, normalise_email}
use flowtona.Models.User
use flowtona.Models.Membership
use flowtona.Models.Membership.{owner}
use flowtona.Models.Invitation
use flowtona.Models.EmailVerification
use flowtona.Models.RefreshToken
use flowtona.Store.{Store, empty}
use flowtona.Repositories.UserRepository
use flowtona.Repositories.MembershipRepository
use flowtona.Repositories.InvitationRepository
use flowtona.Repositories.EmailVerificationRepository
use flowtona.Repositories.RefreshTokenRepository
use flowtona.History.{Step, Reach, here, next}
use flowtona.History.Invariant.{IsSound, empty-IsSound, Reach-IsSound}

-- A check of addresses that refuses the empty text.
abbrev pub accepts : Text → Option Text
accepts [] = none
accepts (c ∷ s) = some (c ∷ s)

pub accepts-IsStable : IsStable accepts
accepts-IsStable [] a p = absurd (ground arith)
accepts-IsStable (c ∷ s) a p = ground arith

-- " A" and "a", two spellings of one address, and "b"
abbrev pub spaced_a : Text
spaced_a = 32 ∷ 65 ∷ []

abbrev pub plain_a : Text
plain_a = 97 ∷ []

abbrev pub plain_b : Text
plain_b = 98 ∷ []

abbrev pub first_hash : Text
first_hash = 104 ∷ []

abbrev pub second_hash : Text
second_hash = 105 ∷ []

-- user 1 in tenant 2, two tokens of family 3, an invitation and a verification
abbrev pub with_user : Store
with_user = (UserRepository.create accepts spaced_a [] [] 1 (aware 0) empty).1

abbrev pub with_member : Store
with_member = (MembershipRepository.create 1 2 owner 4 (aware 0) with_user).1

abbrev pub with_token : Store
with_token = (RefreshTokenRepository.create 1 2 3 first_hash (aware 100) 7 (aware 0) with_member).1

abbrev pub with_tokens : Store
with_tokens = (RefreshTokenRepository.create 1 2 3 second_hash (aware 100) 8 (aware 1) with_token).1

abbrev pub with_invitation : Store
with_invitation =
    (InvitationRepository.create accepts 2 plain_b owner first_hash 1 (aware 50) 5 (aware 0)
      with_tokens).1

abbrev reached : Store
reached =
    (EmailVerificationRepository.create accepts 1 plain_a first_hash (aware 60) 6 (aware 0)
      with_invitation).1

reached-Reach : Reach accepts empty reached
unfolding lookup UserRepository.create flowtona.Models.User.validate normalise_email
    MembershipRepository.create RefreshTokenRepository.create flowtona.Models.RefreshToken.validate
    flowtona.Common.insert flowtona.Common.list_beq InvitationRepository.create
    flowtona.Models.Invitation.validate flowtona.Models.Invitation.check_expiry_ordering
    flowtona.Models.Invitation.check_accepted_at_present_when_accepted
reached-Reach =
    next
      (next
        (next
          (next
            (next (next here (Step.user_create empty spaced_a [] [] 1 (aware 0) refl))
              (Step.membership_create with_user 1 2 owner 4 (aware 0) refl))
            (Step.token_create with_member 1 2 3 first_hash (aware 100) 7 (aware 0) refl))
          (Step.token_create with_token 1 2 3 second_hash (aware 100) 8 (aware 1) refl))
        (Step.invitation_create with_tokens 2 plain_b owner first_hash 1 (aware 50) 5 (aware 0)
          refl))
      (Step.verification_create with_invitation 1 plain_a first_hash (aware 60) 6 (aware 0) refl)

-- The same store written out.
abbrev pub full : Store
full = record {
  users_by_id = (1, User.fresh 1 plain_a [] [] (aware 0)) ∷ [];
  user_id_by_email = (plain_a, 1) ∷ [];
  tenants_by_id = [];
  memberships_by_id = (4, Membership.fresh 4 1 2 owner (aware 0)) ∷ [];
  membership_id_by_user_tenant = ((1, 2), 4) ∷ [];
  membership_ids_by_user = (1, 4 ∷ []) ∷ [];
  invitations_by_id =
      (5, Invitation.fresh 5 2 plain_b owner first_hash 1 (aware 0) (aware 50)) ∷ [];
  invitation_id_by_token_hash = (first_hash, 5) ∷ [];
  email_verifications_by_id =
      (6, EmailVerification.fresh 6 1 plain_a first_hash (aware 0) (aware 60)) ∷ [];
  email_verification_id_by_token_hash = (first_hash, 6) ∷ [];
  refresh_tokens_by_id =
      (7, RefreshToken.fresh 7 1 2 3 first_hash (aware 0) (aware 100))
      ∷ (8, RefreshToken.fresh 8 1 2 3 second_hash (aware 1) (aware 100))
      ∷ [];
  refresh_token_id_by_hash = (first_hash, 7) ∷ (second_hash, 8) ∷ [];
  refresh_token_ids_by_family = (3, 7 ∷ 8 ∷ []) ∷ [];
}

reached-full : reached ≡ full
unfolding lookup UserRepository.create flowtona.Models.User.validate normalise_email
    MembershipRepository.create RefreshTokenRepository.create flowtona.Models.RefreshToken.validate
    flowtona.Common.insert flowtona.Common.list_beq InvitationRepository.create
    flowtona.Models.Invitation.validate flowtona.Models.Invitation.check_expiry_ordering
    flowtona.Models.Invitation.check_accepted_at_present_when_accepted
    EmailVerificationRepository.create EmailVerification.validate
    EmailVerification.check_status_timestamps RefreshTokenRepository.add flowtona.Common.is_listed
    flowtona.Common.le_datetime flowtona.Email.strip flowtona.Email.strip_left
    flowtona.Email.is_space flowtona.Email.lower
reached-full = refl

full-Reach : Reach accepts empty full
full-Reach = rw (sym reached-full) reached-Reach

pub full-IsSound : IsSound accepts full
full-IsSound =
    Reach-IsSound accepts accepts-IsStable (empty-IsSound accepts accepts-IsStable) full-Reach

Reach-IsSound_example : IsSound accepts full
Reach-IsSound_example =
    Reach-IsSound accepts accepts-IsStable (empty-IsSound accepts accepts-IsStable) full-Reach
