-- ===== src/Repositories/InvitationRepository/Acceptance.antt =====
-- `mark_accepted` on a consistent store: an invitation is accepted in time, and at most once.
use flowtona.Common.{
  Text, ◌≡◌, refl, inl, inr, Bool, true, false, Option, none, some, arith, DateTime, le_datetime,
  Dict, lookup, insert, lookup-insert, lookup-insert_self, Result, ok, err, Bool-cases,
  Option-cases, ◌==◌, nat_eq, list_eq, if◌then◌else◌, refresh-IsIndexed, Refreshes-insert,
  insert-HasDistinctKeys,
}
use flowtona.Exceptions.{Uuid, Error, record_not_found, concurrent_update, by_uuid, type_error}
use flowtona.Models.Invitation.{Invitation, pending, value, status_eq}
use flowtona.Models.Invitation.Validity.{as_accepted, validate_invitation_iff, validate-as_accepted}
use flowtona.Store.{Store}
use flowtona.Repositories.InvitationRepository.{mark_accepted}
use flowtona.Repositories.InvitationRepository.Consistency.{IsConsistent, id_of, OwnsHash}

abbrev pub Invitations : Type 0
Invitations = Dict Uuid Invitation

abbrev pub with_invitations : Store → Invitations → Store
with_invitations s d = record s { invitations_by_id = d }

-- The answer for a pending invitation, by whether it has expired at the time of acceptance.
abbrev pub in_time : Uuid → DateTime → Invitation → Option Bool → Result Error Invitation
in_time id at i none = err type_error
in_time id at i (some true) =
    err (concurrent_update "invitation" (by_uuid id) (some "unexpired") (some "expired"))
in_time id at i (some false) = ok (as_accepted at i)

-- What `mark_accepted` answers, by what is stored under the id.
abbrev pub acceptance : Uuid → DateTime → Option Invitation → Result Error Invitation
acceptance id at none = err (record_not_found "invitation" (by_uuid id))
acceptance id at (some i) =
    if i.status == pending
    then in_time id at i (le_datetime i.expires_at at)
    else err (concurrent_update "invitation" (by_uuid id) (some "pending") (some (value i.status)))

-- A successful answer is stored; after a raise the store is as it was.
abbrev pub stored : Uuid → Result Error Invitation → Store → Store
stored id (ok i) s = with_invitations s (insert id i s.invitations_by_id)
stored id (err _) s = s

module _ (email_str : Text → Option Text) (s : Store) (c : IsConsistent email_str s) where
  -- On a consistent store `mark_accepted` never fails its own validation: it raises not-found for an unknown id, a conflict with the actual status for an invitation that is not pending, a type error if the times are of different kinds, a conflict for one that has expired by the given time, and otherwise accepts exactly that invitation; where it raises it changes nothing.
  pub mark_accepted_lem :
      (id : Uuid) (at : DateTime)
      → let answer = acceptance id at (lookup id s.invitations_by_id) in
        mark_accepted email_str id at s ≡ (answer, stored id answer s)
  unfolding mark_accepted
  mark_accepted_lem id at = elim (Option-cases (lookup id s.invitations_by_id)) [
    | inl absent ↦ ground arith
    | inr (i, found) ↦ ground (arith, validate-as_accepted email_str at i (c.storable id i found))
  ]

  stored-IsConsistent :
      (id : Uuid) (at : DateTime) (o : Option Invitation)
      → lookup id s.invitations_by_id ≡ o
      → IsConsistent email_str (stored id (acceptance id at o) s)
  stored-IsConsistent id at none found = c
  stored-IsConsistent id at (some i) found = elim (Bool-cases (i.status == pending)) [
    | inl waiting ↦ rw waiting (by_time (le_datetime i.expires_at at))
    | inr over ↦ rw over c
  ]
    where
      by_time : (o : Option Bool) → IsConsistent email_str (stored id (in_time id at i o) s)
      by_time none = c
      by_time (some true) = c
      by_time (some false) = record {
        indexed =
            refresh-IsIndexed id_of OwnsHash
              (insert-HasDistinctKeys id (as_accepted at i) s.invitations_by_id c.indexed.distinct)
              (Refreshes-insert id_of OwnsHash id i (as_accepted at i) s.invitations_by_id found
                refl (λ h owns. owns))
              c.indexed;
        storable = λ k u there. ground (
          arith,
          lookup-insert k id (as_accepted at i) s.invitations_by_id,
          c.storable k u,
          validate-as_accepted email_str at i (c.storable id i found),
        );
      }

  -- From a consistent store `mark_accepted` leaves a consistent store, whether it succeeds or raises.
  pub mark_accepted-IsConsistent :
      (id : Uuid) (at : DateTime) → IsConsistent email_str (mark_accepted email_str id at s).1
  mark_accepted-IsConsistent id at =
      rw (mark_accepted_lem id at) (stored-IsConsistent id at (lookup id s.invitations_by_id) refl)

-- In any store: once accepted, an invitation cannot be accepted again, at whatever time: the second call raises a conflict that names the status `accepted`, and changes nothing.
pub mark_accepted_twice :
    (email_str : Text → Option Text) (s s' : Store) (id : Uuid) (at later : DateTime)
    (i : Invitation)
    → mark_accepted email_str id at s ≡ (ok i, s')
    → mark_accepted email_str id later s'
      ≡ (err (concurrent_update "invitation" (by_uuid id) (some "pending") (some "accepted")), s')
unfolding mark_accepted
mark_accepted_twice email_str s s' id at later i run =
    elim (Option-cases (lookup id s.invitations_by_id)) [
      | inl absent ↦ absurd (ground arith)
      | inr (u, found) ↦ ground (
        arith,
        lookup-insert_self id i s.invitations_by_id,
        validate_invitation_iff email_str (as_accepted at u) i,
      )
    ]
