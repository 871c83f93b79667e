-- ===== src/History/Once.antt =====
-- What happens once.
use flowtona.Common.{
  ◌≡◌, ◌≢◌, Text, Option, some, arith, lookup, lookup-insert_self, ok, ==_refl, list_eq, nat_eq,
  pair_eq,
}
use flowtona.Common.Action.{at_end}
use flowtona.Email.{IsStable, normalise_email}
use flowtona.Exceptions.{Uuid}
use flowtona.Models.Invitation.{Invitation}
use flowtona.Models.Invitation as Invitation
use flowtona.Models.EmailVerification.{EmailVerification}
use flowtona.Models.EmailVerification as EmailVerification
use flowtona.Models.RefreshToken.{RefreshTokenRecord, active, status_beq_iff}
use flowtona.Store.{Store}
use flowtona.Repositories.UserRepository.Consistency as Users
use flowtona.Repositories.UserRepository.Addresses
use flowtona.Repositories.MembershipRepository.Consistency as Memberships
use flowtona.Repositories.InvitationRepository.Consistency as Invitations
use flowtona.Repositories.InvitationRepository.Acceptance
use flowtona.Repositories.EmailVerificationRepository.Consistency as Verifications
use flowtona.Repositories.EmailVerificationRepository.Consumption
use flowtona.Repositories.RefreshTokenRepository
use flowtona.Repositories.RefreshTokenRepository.Consistency as Tokens
use flowtona.Repositories.RefreshTokenRepository.Rotation
use flowtona.History.{Step, Reach}
use flowtona.History.Events.{
  Event, Does, signed_up, joined, invitation_issued, invitation_accepted, verification_issued,
  verification_consumed, token_issued, token_rotated, sign_up, join, invite, accept, ask, consume,
  issue, rotate,
}
use flowtona.History.Invariant.{IsSound, Reach-IsSound, Step-IsSound}
use flowtona.History.Filed.{Reach-Filed}
use flowtona.History.Kept.{not_active}
use flowtona.History.Tokens.{Reach-Kept}
use flowtona.History.Invitations.{invitation_life}
use flowtona.History.Invitations as InvitationLife
use flowtona.History.Verifications.{verification_life}
use flowtona.History.Verifications as VerificationLife

module _ (email_str : Text → Option Text) (stable : IsStable email_str) where
  Does-IsSound :
      {e : Event} {s s' : Store}
      → IsSound email_str s
      → Does email_str e s s'
      → IsSound email_str s'
  Does-IsSound i (sign_up s s' email p d id now u new run) =
      at_end (IsSound email_str) run
        (Step-IsSound email_str stable (Step.user_create s email p d id now new) i)
  Does-IsSound i (join s s' u t role id now m new run) =
      at_end (IsSound email_str) run
        (Step-IsSound email_str stable (Step.membership_create s u t role id now new) i)
  Does-IsSound i (invite s s' t e role h by expires id now v new run) =
      at_end (IsSound email_str) run (
        Step-IsSound email_str stable (Step.invitation_create s t e role h by expires id now new) i)
  Does-IsSound i (accept s s' id at v run) =
      at_end (IsSound email_str) run (Step-IsSound email_str stable (Step.mark_accepted s id at) i)
  Does-IsSound i (ask s s' u e h expires id now v new run) =
      at_end (IsSound email_str) run
        (Step-IsSound email_str stable (Step.verification_create s u e h expires id now new) i)
  Does-IsSound i (consume s s' id at v run) =
      at_end (IsSound email_str) run (Step-IsSound email_str stable (Step.mark_consumed s id at) i)
  Does-IsSound i (issue s s' u t f h expires id now v new run) =
      at_end (IsSound email_str) run
        (Step-IsSound email_str stable (Step.token_create s u t f h expires id now new) i)
  Does-IsSound i (rotate s s' h replacement at v run) =
      at_end (IsSound email_str) run
        (Step-IsSound email_str stable (Step.mark_rotated s h replacement at) i)

  -- Where a key is in an index no record can be created for it.
  abbrev Spent : Event → Store → Type 0
  Spent (signed_up a) s = (k : Uuid) × (lookup a s.user_id_by_email ≡ some k)
  Spent (joined u t) s = (k : Uuid) × (lookup (u, t) s.membership_id_by_user_tenant ≡ some k)
  Spent (invitation_issued h) s = (k : Uuid) × (lookup h s.invitation_id_by_token_hash ≡ some k)
  Spent (invitation_accepted i) s =
      (v : Invitation) × (lookup i s.invitations_by_id ≡ some v) × (v.status ≢ Invitation.pending)
  Spent (verification_issued h) s =
      (k : Uuid) × (lookup h s.email_verification_id_by_token_hash ≡ some k)
  Spent (verification_consumed i) s =
      (v : EmailVerification) × (lookup i s.email_verifications_by_id ≡ some v)
      × (v.status ≢ EmailVerification.pending)
  Spent (token_issued h) s = (k : Uuid) × (lookup h s.refresh_token_id_by_hash ≡ some k)
  Spent (token_rotated h) s =
      (t : RefreshTokenRecord) × (RefreshTokenRepository.get_by_token_hash h s ≡ ok (some t))
      × (t.status ≢ active)

  Does-Spent : {e : Event} {s s' : Store} → IsSound email_str s → Does email_str e s s' → Spent e s'
  Does-Spent i (sign_up s s' email p d id now u new run) =
      let (a, free, address, made, after) =
        Addresses.created email_str email p d id now s s' u run in
      (id, ground (arith, lookup-insert_self (normalise_email email) id s.user_id_by_email))
  Does-Spent i (join s s' u t role id now m new run) = (
    id,
    ground (
      arith,
      Memberships.create_membership_lem u t role id now s,
      lookup-insert_self (u, t) id s.membership_id_by_user_tenant,
    ),
  )
  Does-Spent i (invite s s' t e role h by expires id now v new run) = (
    id,
    ground (
      arith,
      Invitations.create_outcomes email_str t e role h by expires id now stable s,
      lookup-insert_self h id s.invitation_id_by_token_hash,
    ),
  )
  Does-Spent i (accept s s' id at v run) =
      let (stored, over) =
        InvitationLife.stored_by email_str stable s s' id at v i.invitations run in
      (v, stored, ground arith)
  Does-Spent i (ask s s' u e h expires id now v new run) = (
    id,
    ground (
      arith,
      Verifications.create_outcomes email_str u e h expires id now stable s,
      lookup-insert_self h id s.email_verification_id_by_token_hash,
    ),
  )
  Does-Spent i (consume s s' id at v run) =
      let (stored, over) =
        VerificationLife.stored_by email_str stable s s' id at v i.verifications run in
      (v, stored, ground arith)
  Does-Spent i (issue s s' u t f h expires id now v new run) = (
    id,
    ground (
      arith,
      Tokens.create_outcomes u t f h expires id now s,
      lookup-insert_self h id s.refresh_token_id_by_hash,
    ),
  )
  Does-Spent i (rotate s s' h replacement at v run) =
      let (t, before, live, made, after) =
        Rotation.get-mark_rotated replacement at s s' h v i.tokens run in
      (v, ground (arith, after h, ==_refl h), ground arith)

  Reach-Spent :
      {s s' : Store} (e : Event)
      → IsSound email_str s
      → Reach email_str s s'
      → Spent e s
      → Spent e s'
  Reach-Spent (signed_up a) i r (k, there) =
      (k, (Reach-Filed email_str stable i r).addresses a k there)
  Reach-Spent (joined u t) i r (k, there) =
      (k, (Reach-Filed email_str stable i r).pairs (u, t) k there)
  Reach-Spent (invitation_issued h) i r (k, there) =
      (k, (Reach-Filed email_str stable i r).invitations h k there)
  Reach-Spent (invitation_accepted id) i r (v, there, over) =
      let (w, later, way) = invitation_life email_str stable i r id v there in
      (w, later, ground arith)
  Reach-Spent (verification_issued h) i r (k, there) =
      (k, (Reach-Filed email_str stable i r).verifications h k there)
  Reach-Spent (verification_consumed id) i r (v, there, over) =
      let (w, later, way) = verification_life email_str stable i r id v there in
      (w, later, ground arith)
  Reach-Spent (token_issued h) i r (k, there) =
      (k, (Reach-Filed email_str stable i r).tokens h k there)
  Reach-Spent {s} {s'} (token_rotated h) i r (t, there, over) =
      let (stored, hash) = ((Rotation.get_by_token_hash_iff s h i.tokens).1 t).0 there in
      let (u, later, way) = Reach-Kept email_str stable i r t.id t stored in
      let i2 = Reach-IsSound email_str stable i r in
      (
        u,
        ((Rotation.get_by_token_hash_iff s' h i2.tokens).1 u).1 (ground arith, ground arith),
        not_active t.status u.status way.forward over,
      )

  Spent-refuses :
      {e : Event} {s s' : Store} → IsSound email_str s → Does email_str e s s' → ¬ Spent e s
  Spent-refuses i (sign_up s s' email p d id now u new run) (k, there) =
      ground (arith, Users.create_user_lem email_str email p d id now s)
  Spent-refuses i (join s s' u t role id now m new run) (k, there) =
      ground (arith, Memberships.create_membership_lem u t role id now s)
  Spent-refuses i (invite s s' t e role h by expires id now v new run) (k, there) =
      ground (arith, Invitations.create_invitation_lem email_str t e role h by expires id now s)
  Spent-refuses i (accept s s' id at v run) (w, there, over) = ground (
    arith,
    Acceptance.mark_accepted_lem email_str s i.invitations id at,
    Invitation.status_beq_iff w.status Invitation.pending,
  )
  Spent-refuses i (ask s s' u e h expires id now v new run) (k, there) =
      ground (arith, Verifications.create_verification_lem email_str u e h expires id now s)
  Spent-refuses i (consume s s' id at v run) (w, there, over) = ground (
    arith,
    Consumption.mark_consumed_lem email_str s i.verifications id at,
    EmailVerification.status_beq_iff w.status EmailVerification.pending,
  )
  Spent-refuses i (issue s s' u t f h expires id now v new run) (k, there) =
      ground (arith, Tokens.create_token_lem u t f h expires id now s)
  Spent-refuses i (rotate s s' h replacement at v run) (w, there, over) = ground (
    arith,
    Rotation.mark_rotated_lem replacement at s h (some w) i.tokens there,
    status_beq_iff w.status active,
  )

  -- With a stable check of addresses, on a sound store a call that succeeds in an event is the last one: whatever calls follow, no call succeeds in the same event, be it a sign-up under a normal form of the submitted text, a membership of a user in a tenant, an invitation, a verification or a token issued under a hash, an invitation accepted, a verification consumed, or a token rotated.
  pub once :
      (e : Event) (s1 s2 s3 s4 : Store)
      → IsSound email_str s1
      → Does email_str e s1 s2
      → Reach email_str s2 s3
      → ¬ Does email_str e s3 s4
  once e s1 s2 s3 s4 i does r =
      let i2 = Does-IsSound i does in
      λ again.
        Spent-refuses (Reach-IsSound email_str stable i2 r) again
          (Reach-Spent e i2 r (Does-Spent i does))
