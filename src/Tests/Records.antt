-- ===== src/Tests/Records.antt =====
-- Invitations and email verifications: each theorem at invitation 5 and verification 6.
use flowtona.Common.{
  ◌≡◌, ◌↔◌, refl, Text, [], Option, some, ok, err, aware, lookup, Dict, rewrite_entry, nat_eq,
}
use flowtona.Exceptions.{Uuid, concurrent_update, by_uuid}
use flowtona.Models.Membership.{owner}
use flowtona.Models.Invitation
use flowtona.Models.Invitation.{Invitation}
use flowtona.Models.Invitation.Validity as InvitationValidity
use flowtona.Models.EmailVerification
use flowtona.Email.{normalise_email}
use flowtona.Models.EmailVerification.{EmailVerification}
use flowtona.Models.EmailVerification.Validity as VerificationValidity
use flowtona.Store.{Store}
use flowtona.Repositories.InvitationRepository
use flowtona.Repositories.InvitationRepository.Acceptance
use flowtona.Repositories.EmailVerificationRepository
use flowtona.Repositories.EmailVerificationRepository.Consistency as Verifications
use flowtona.Repositories.EmailVerificationRepository.Consumption
use flowtona.Repositories.EmailVerificationRepository.Resend
use flowtona.Protocols.Verifications.{KeepsVerifications}
use flowtona.Protocols.Verifications.InMemory.{
  in_memory_verifications, verification_of, in_memory-KeepsVerifications,
}
use flowtona.History.{Step, here, next}
use flowtona.History.Invitations as Lives
use flowtona.History.Verifications as Later
use flowtona.Tests.Stores.{
  accepts-IsStable, accepts, plain_a, plain_b, first_hash, full, full-IsSound,
}

abbrev invited : Invitation
invited = Invitation.fresh 5 2 plain_b owner first_hash 1 (aware 0) (aware 50)

abbrev joined : Invitation
joined = InvitationValidity.as_accepted (aware 9) invited

abbrev with_accepted : Store
with_accepted = (InvitationRepository.mark_accepted accepts 5 (aware 9) full).1

accepts_invitation :
    InvitationRepository.mark_accepted accepts 5 (aware 9) full ≡ (ok joined, with_accepted)
unfolding InvitationRepository.mark_accepted lookup flowtona.Common.le_datetime Invitation.validate
    Invitation.check_expiry_ordering Invitation.check_accepted_at_present_when_accepted
accepts_invitation = refl

-- The invitation ends at 50.
mark_accepted_lem_example :
    InvitationRepository.mark_accepted accepts 5 (aware 50) full
    ≡ (err (concurrent_update "invitation" (by_uuid 5) (some "unexpired") (some "expired")), full)
unfolding lookup flowtona.Common.le_datetime
mark_accepted_lem_example =
    Acceptance.mark_accepted_lem accepts full full-IsSound.invitations 5 (aware 50)

abbrev sent : EmailVerification
sent = EmailVerification.fresh 6 1 plain_a first_hash (aware 0) (aware 60)

abbrev confirmed : EmailVerification
confirmed = VerificationValidity.as_consumed (aware 9) sent

abbrev with_confirmed : Store
with_confirmed = (EmailVerificationRepository.mark_consumed accepts 6 (aware 9) full).1

consumes :
    EmailVerificationRepository.mark_consumed accepts 6 (aware 9) full
    ≡ (ok confirmed, with_confirmed)
unfolding EmailVerificationRepository.mark_consumed lookup EmailVerification.validate
    EmailVerification.check_status_timestamps
consumes = refl

mark_consumed_lem_example :
    EmailVerificationRepository.mark_consumed accepts 6 (aware 9) full
    ≡ (ok confirmed, with_confirmed)
unfolding lookup EmailVerificationRepository.mark_consumed EmailVerification.validate
    EmailVerification.check_status_timestamps
mark_consumed_lem_example =
    Consumption.mark_consumed_lem accepts full full-IsSound.verifications 6 (aware 9)

revoke_pending_for_user_lem_example :
    (d : Dict Uuid EmailVerification) × (EmailVerificationRepository.revoke_pending_for_user accepts
        1
        (aware 6)
        full
      ≡ (ok 1, Consumption.with_verifications full d))
    × ((k : Uuid)
        → lookup k d
          ≡ rewrite_entry
              (Resend.pending_of 1)
              (VerificationValidity.as_revoked (aware 6))
              (lookup k full.email_verifications_by_id))
unfolding flowtona.Common.count_where
revoke_pending_for_user_lem_example =
    Resend.revoke_pending_for_user_lem accepts 1 (aware 6) full full-IsSound.verifications

in_memory-KeepsVerifications_example :
    KeepsVerifications
      (in_memory_verifications accepts)
      (Verifications.IsConsistent accepts)
      (verification_of accepts)
      (λ e. accepts (normalise_email e))
in_memory-KeepsVerifications_example = in_memory-KeepsVerifications accepts accepts-IsStable

-- after a resend has revoked the pending verification
abbrev resent : Store
resent = (EmailVerificationRepository.revoke_pending_for_user accepts 1 (aware 6) full).1

-- The other repository is called in between.
accepted_for_good_example :
    let last = (EmailVerificationRepository.mark_consumed accepts 6 (aware 9) with_accepted).1 in
    InvitationRepository.mark_accepted accepts 5 (aware 10) last
    ≡ (err (concurrent_update "invitation" (by_uuid 5) (some "pending") (some "accepted")), last)
accepted_for_good_example =
    Lives.accepted_for_good accepts accepts-IsStable full with_accepted _ 5 (aware 9) (aware 10)
      joined full-IsSound accepts_invitation
      (next here (Step.mark_consumed with_accepted 6 (aware 9)))

invitation_life_example :
    (j : Invitation) × (lookup 5 with_accepted.invitations_by_id ≡ some j) × Lives.Becomes invited j
unfolding lookup
invitation_life_example =
    Lives.invitation_life accepts accepts-IsStable full-IsSound
      (next here (Step.mark_accepted full 5 (aware 9))) 5 invited refl

consumed_for_good_example :
    let last = (InvitationRepository.mark_accepted accepts 5 (aware 9) with_confirmed).1 in
    EmailVerificationRepository.mark_consumed accepts 6 (aware 10) last ≡ (
      err (concurrent_update "email_verification" (by_uuid 6) (some "pending") (some "consumed")),
      last,
    )
consumed_for_good_example =
    Later.consumed_for_good accepts accepts-IsStable full with_confirmed _ 6 (aware 9) (aware 10)
      confirmed full-IsSound consumes (next here (Step.mark_accepted with_confirmed 5 (aware 9)))

verification_life_example :
    (w : EmailVerification) × (lookup 6 with_confirmed.email_verifications_by_id ≡ some w)
    × Later.Becomes sent w
unfolding lookup
verification_life_example =
    Later.verification_life accepts accepts-IsStable full-IsSound
      (next here (Step.mark_consumed full 6 (aware 9))) 6 sent refl
