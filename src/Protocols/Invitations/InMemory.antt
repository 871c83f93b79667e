-- ===== src/Protocols/Invitations/InMemory.antt =====
-- InMemoryInvitationRepository as an implementation of the protocol.
use flowtona.Common.{
  ◌≡◌, refl, inl, inr, Result-cases, Text, Option, none, some, arith, DateTime, ok, err, Bool-cases,
  ◌==◌, nat_eq, lookup, lookup-insert, insert,
}
use flowtona.Common.Action.{at_end}
use flowtona.Exceptions.{Uuid, Error}
use flowtona.Email.{normalise_email, IsStable}
use flowtona.Models.Membership.{Role}
use flowtona.Models.Invitation.{Invitation, pending, status_eq, status_beq_iff}
use flowtona.Models.Invitation.Validity.{as_accepted}
use flowtona.Store.{Store}
use flowtona.Repositories.InvitationRepository
use flowtona.Repositories.InvitationRepository.Consistency
use flowtona.Repositories.InvitationRepository.Acceptance
use flowtona.Repositories.InvitationRepository.Lookup.{get_invitation_iff}
use flowtona.Protocols.Invitations.{InvitationOperations, KeepsInvitations, IsOpen, IsRefusal}

abbrev pub invitation_of : Uuid → Store → Option Invitation
invitation_of k s = lookup k s.invitations_by_id

module _ (email_str : Text → Option Text) where
  abbrev pub in_memory_invitations : InvitationOperations Store
  in_memory_invitations = record {
    create = InvitationRepository.create email_str;
    get_by_token_hash = InvitationRepository.get_by_token_hash;
    mark_accepted = InvitationRepository.mark_accepted email_str;
  }

  module _ (s : Store) (c : Consistency.IsConsistent email_str s) (id : Uuid) (at : DateTime) where
    accepted :
        (i : Invitation)
        → lookup id s.invitations_by_id ≡ some i
        → IsOpen at i
        → InvitationRepository.mark_accepted email_str id at s ≡ (
          ok (as_accepted at i),
          record s { invitations_by_id = insert id (as_accepted at i) s.invitations_by_id },
        )
    accepted i there waiting =
        ground
          (arith, Acceptance.mark_accepted_lem email_str s c id at, status_beq_iff i.status pending)

    acceptance-IsOpen :
        (x : Option Invitation) (j : Invitation)
        → Acceptance.acceptance id at x ≡ ok j
        → (i : Invitation) × (x ≡ some i) × IsOpen at i
    acceptance-IsOpen none j run = absurd (ground arith)
    acceptance-IsOpen (some i) j run = elim (Bool-cases (i.status == pending)) [
      | inl waiting ↦ (i, refl, ((status_beq_iff i.status pending).0 waiting, ground arith))
      | inr over ↦ absurd (ground arith)
    ]

    acceptance-IsRefusal :
        (x : Option Invitation) (e : Error)
        → Acceptance.acceptance id at x ≡ err e
        → IsRefusal id at x e
    acceptance-IsRefusal none e raised = ground arith
    acceptance-IsRefusal (some i) e raised = ground (arith, status_beq_iff i.status pending)

    refused :
        ((i : Invitation) → lookup id s.invitations_by_id ≡ some i → ¬ IsOpen at i)
        → (e : Error) × (InvitationRepository.mark_accepted email_str id at s ≡ (err e, s))
          × IsRefusal id at (lookup id s.invitations_by_id) e
    refused over =
        let x = lookup id s.invitations_by_id in
        elim (Result-cases (Acceptance.acceptance id at x)) [
          | inl (e, raised) ↦ (
            e,
            ground (arith, Acceptance.mark_accepted_lem email_str s c id at, raised),
            acceptance-IsRefusal x e raised,
          )
          | inr (j, done) ↦
              let (i, there, open_still) = acceptance-IsOpen x j done in
              absurd (over i there open_still)
        ]

  created :
      (s s' : Store) (tenant : Uuid) (email : Text) (role : Role) (h : Text) (by : Uuid)
      (expires : DateTime) (id : Uuid) (now : DateTime) (i : Invitation)
      → IsStable email_str
      → InvitationRepository.create email_str tenant email role h by expires id now s ≡ (ok i, s')
      → (a : Text) × (email_str (normalise_email email) ≡ some a)
        × (i ≡ Consistency.issued email_str tenant email role h by expires id now a)
        × (s' ≡ Consistency.added i s)
  created s s' tenant email role h by expires id now i stable run =
      elim (Consistency.create_outcomes email_str tenant email role h by expires id now stable s) [
        | inl (e, raised) ↦ absurd (ground arith)
        | inr (a, address, returned, _, _) ↦ (a, address, ground arith, ground arith)
      ]

  -- If the check of addresses is stable, on every consistent store the in-memory repository keeps the protocol of invitations: a `create` that succeeds under a new UUID stores a pending invitation with the given fields and the address that the check makes of the normal form of the text, and changes no other row; `get_by_token_hash` never raises and finds exactly the stored invitation with the hash; `mark_accepted` accepts one that is pending and unexpired, and otherwise raises not-found, the conflict of its status or of its expiry, or a type error for times of different kinds, and changes nothing.
  pub in_memory-KeepsInvitations :
      IsStable email_str
      → KeepsInvitations in_memory_invitations
          (Consistency.IsConsistent email_str)
          invitation_of
          (λ e. email_str (normalise_email e))
  in_memory-KeepsInvitations stable = record {
    creates = λ s s' tenant email role h by expires id now i c new run.
        let (a, address, made, after) =
          created s s' tenant email role h by expires id now i stable run in
        (
          ground arith,
          at_end (Consistency.IsConsistent email_str) run (
              Consistency.create-IsConsistent email_str tenant email role h by expires id now stable
                s new c),
          λ k. ground (arith, made, lookup-insert k id i s.invitations_by_id),
        );
    looks_up = λ s h c. (get_invitation_iff email_str s h c).0;
    finds = λ s h i c. (get_invitation_iff email_str s h c).1 i;
    accepts = λ s id at i c there waiting. (
      record s { invitations_by_id = insert id (as_accepted at i) s.invitations_by_id },
      accepted s c id at i there waiting,
      at_end (Consistency.IsConsistent email_str) (accepted s c id at i there waiting)
          (Acceptance.mark_accepted-IsConsistent email_str s c id at),
      λ k. lookup-insert k id (as_accepted at i) s.invitations_by_id,
    );
    refuses = λ s id at c over. refused s c id at over;
  }
