-- ===== src/History/Invitations.antt =====
-- The life of an invitation over a run of the service.
use flowtona.Common.{
  ◌≡◌, ◌⊎◌, inl, inr, refl, sym, ap, Text, Option, none, some, arith, DateTime, Dict, lookup,
  insert, lookup-insert_self, ok, err, Result-cases, Bool-cases, ◌==◌, list_eq, nat_eq,
}
use flowtona.Common.Action.{at_end}
use flowtona.Email.{IsStable}
use flowtona.Exceptions.{Uuid, concurrent_update, by_uuid}
use flowtona.Models.Membership.{Role}
use flowtona.Models.Invitation.{Invitation, pending, accepted, status_eq, status_beq_iff}
use flowtona.Models.Invitation.Validity.{as_accepted}
use flowtona.Store.{Store}
use flowtona.Repositories.InvitationRepository
use flowtona.Repositories.InvitationRepository.Consistency
use flowtona.Repositories.InvitationRepository.Acceptance
use flowtona.History.{Step, Reach, here, next}
use flowtona.History.Parts.{only}
use flowtona.History.Lives
use flowtona.History.Invariant.{IsSound, Reach-IsSound, Step-IsSound}

-- What can become of a record: it stays as it is, or from pending it is accepted at some time.
abbrev pub Becomes : Invitation → Invitation → Type 0
Becomes i j = (j ≡ i) ⊎ ((i.status ≡ pending) × ((at : DateTime) × (j ≡ as_accepted at i)))

Becomes-trans : {i j k : Invitation} → Becomes i j → Becomes j k → Becomes i k
Becomes-trans first second = ground arith

abbrev Invitations : Type 0
Invitations = Dict Uuid Invitation

abbrev Kept : Invitations → Invitations → Type 0
Kept = Lives.AllKept Becomes

Kept-same : {d d' : Invitations} → d' ≡ d → Kept d d'
Kept-same same = Lives.AllKept-same Becomes (λ v. inl refl) same

Kept-insert :
    (d : Invitations) (id : Uuid) (w : Invitation)
    → ((v : Invitation) → lookup id d ≡ some v → Becomes v w)
    → Kept d (insert id w d)
Kept-insert = Lives.AllKept-insert Becomes (λ v. inl refl)

abbrev invitations_of : Store → Invitations
invitations_of s = s.invitations_by_id

-- Only a pending record has a successful answer.
accepted_from :
    (id : Uuid) (at : DateTime) (o : Option Invitation) (j : Invitation)
    → Acceptance.acceptance id at o ≡ ok j
    → (i : Invitation) × (o ≡ some i) × (i.status ≡ pending) × (j ≡ as_accepted at i)
accepted_from id at none j run = absurd (ground arith)
accepted_from id at (some i) j run = elim (Bool-cases (i.status == pending)) [
  | inl waiting ↦ (i, refl, (status_beq_iff i.status pending).0 waiting, ground arith)
  | inr over ↦ absurd (ground arith)
]

module _ (email_str : Text → Option Text) (stable : IsStable email_str) where
  Kept-create :
      (s : Store) (t : Uuid) (e : Text) (role : Role) (h : Text) (by : Uuid) (expires : DateTime)
      (id : Uuid) (now : DateTime)
      → lookup id (invitations_of s) ≡ none
      → Kept
          (invitations_of s)
          (invitations_of (InvitationRepository.create email_str t e role h by expires id now s).1)
  Kept-create s t e role h by expires id now new =
      elim (Consistency.create_outcomes email_str t e role h by expires id now stable s) [
        | inl (raised, run) ↦ rw run (Kept-same refl)
        | inr (a, _, run, _, _) ↦ rw run (
            Kept-insert (invitations_of s) id
              (Consistency.issued email_str t e role h by expires id now a)
              (λ i found. absurd (ground arith)))
      ]

  Kept-mark_accepted :
      (s : Store) (c : Consistency.IsConsistent email_str s) (id : Uuid) (at : DateTime)
      → Kept
          (invitations_of s)
          (invitations_of (InvitationRepository.mark_accepted email_str id at s).1)
  Kept-mark_accepted s c id at =
      let o = lookup id (invitations_of s) in
      rw (Acceptance.mark_accepted_lem email_str s c id at)
        (elim (Result-cases (Acceptance.acceptance id at o)) [
          | inl (e, raised) ↦ rw raised (Kept-same refl)
          | inr (j, done) ↦
              let (i, there, waiting, made) = accepted_from id at o j done in
              rw done (
                Kept-insert (invitations_of s) id j (λ x found.
                  let same : i ≡ x = ground arith in rw (sym same) (inr (waiting, (at, made)))))
        ])

  Step-Kept :
      {s s' : Store}
      → IsSound email_str s
      → Step email_str s s'
      → Kept (invitations_of s) (invitations_of s')
  Step-Kept i (Step.invitation_create s t e role h by expires id now new) =
      Kept-create s t e role h by expires id now new
  Step-Kept i (Step.mark_accepted s id at) = Kept-mark_accepted s i.invitations id at
  Step-Kept i st = Kept-same (ap invitations_of (only email_str stable i st))

  -- With a stable check of addresses, from a sound store no run of calls loses an invitation: a record stored under a key is still there, and it is the same, or it was pending and is the same but for having been accepted at some time.
  pub invitation_life :
      {s s' : Store}
      → IsSound email_str s
      → Reach email_str s s'
      → (k : Uuid) (i : Invitation) → lookup k s.invitations_by_id ≡ some i
      → (j : Invitation) × (lookup k s'.invitations_by_id ≡ some j) × Becomes i j
  invitation_life i here = Kept-same refl
  invitation_life i (next r st) =
      Lives.AllKept-trans Becomes _ _ _ (λ u v w a b. Becomes-trans a b) (invitation_life i r)
        (Step-Kept (Reach-IsSound email_str stable i r) st)

  -- What an acceptance that returned has stored.
  pub stored_by :
      (s s' : Store) (id : Uuid) (at : DateTime) (j : Invitation)
      → Consistency.IsConsistent email_str s
      → InvitationRepository.mark_accepted email_str id at s ≡ (ok j, s')
      → (lookup id s'.invitations_by_id ≡ some j) × (j.status ≡ accepted)
  stored_by s s' id at j c run =
      let o = lookup id (invitations_of s) in
      let lem = Acceptance.mark_accepted_lem email_str s c id at in
      let done : Acceptance.acceptance id at o ≡ ok j = ground (arith, lem) in
      let (i, there, waiting, made) = accepted_from id at o j done in
      (ground (arith, lem, done, lookup-insert_self id j s.invitations_by_id), ground (arith, made))

  -- With a stable check of addresses, after an acceptance of an invitation that succeeds on a sound store, whatever calls follow, a second acceptance is refused with a conflict that names the status `accepted`, and changes nothing.
  pub accepted_for_good :
      (s s1 s2 : Store) (id : Uuid) (at later : DateTime) (j : Invitation)
      → IsSound email_str s
      → InvitationRepository.mark_accepted email_str id at s ≡ (ok j, s1)
      → Reach email_str s1 s2
      → InvitationRepository.mark_accepted email_str id later s2
        ≡ (err (concurrent_update "invitation" (by_uuid id) (some "pending") (some "accepted")), s2)
  accepted_for_good s s1 s2 id at later j i run r =
      let i1 : IsSound email_str s1 =
        at_end (IsSound email_str) run
          (Step-IsSound email_str stable (Step.mark_accepted s id at) i) in
      let (stored, over) = stored_by s s1 id at j i.invitations run in
      let (k, there, way) = invitation_life i1 r id j stored in
      let i2 = Reach-IsSound email_str stable i1 r in
      let same : k ≡ j = ground arith in
      ground (
        arith,
        Acceptance.mark_accepted_lem email_str s2 i2.invitations id later,
        status_beq_iff k.status pending,
      )
