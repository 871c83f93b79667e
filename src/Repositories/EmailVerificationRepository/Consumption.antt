-- ===== src/Repositories/EmailVerificationRepository/Consumption.antt =====
-- `mark_consumed` on a consistent store: a verification is used at most once.
use flowtona.Common.{
  Text, ◌≡◌, refl, inl, inr, Option, none, some, arith, DateTime, Dict, lookup, insert,
  lookup-insert, lookup-insert_self, Result, ok, err, Bool-cases, Option-cases, ◌==◌, nat_eq,
  list_eq, if◌then◌else◌, refresh-IsIndexed, Refreshes-insert, insert-HasDistinctKeys,
}
use flowtona.Exceptions.{Uuid, Error, record_not_found, concurrent_update, by_uuid}
use flowtona.Models.EmailVerification.{EmailVerification, pending, value, status_beq_iff, status_eq}
use flowtona.Models.EmailVerification.Validity.{
  validate_verification_iff, as_consumed, validate-as_consumed,
}
use flowtona.Store.{Store}
use flowtona.Repositories.EmailVerificationRepository.{mark_consumed}
use flowtona.Repositories.EmailVerificationRepository.Consistency.{IsConsistent, id_of, OwnsHash}

abbrev pub Verifications : Type 0
Verifications = Dict Uuid EmailVerification

abbrev pub with_verifications : Store → Verifications → Store
with_verifications s d = record s { email_verifications_by_id = d }

-- What `mark_consumed` answers, by what is stored under the id.
abbrev pub consumption : Uuid → DateTime → Option EmailVerification → Result Error EmailVerification
consumption id at none = err (record_not_found "email_verification" (by_uuid id))
consumption id at (some v) =
    if v.status == pending
    then ok (as_consumed at v)
    else err (
        concurrent_update "email_verification" (by_uuid id) (some "pending")
          (some (value v.status)))

abbrev pub consumed_store : Uuid → DateTime → Option EmailVerification → Store → Store
consumed_store id at none s = s
consumed_store id at (some v) s =
    if v.status == pending
    then with_verifications s (insert id (as_consumed at v) s.email_verifications_by_id)
    else s

module _ (email_str : Text → Option Text) (s : Store) (c : IsConsistent email_str s) where
  -- On a consistent store `mark_consumed` never fails its own validation: it raises not-found for an unknown id, raises a conflict with the actual status for a record that is not pending, and otherwise consumes exactly that record; where it raises it changes nothing.
  pub mark_consumed_lem :
      (id : Uuid) (at : DateTime)
      → let o = lookup id s.email_verifications_by_id in
        mark_consumed email_str id at s ≡ (consumption id at o, consumed_store id at o s)
  unfolding mark_consumed
  mark_consumed_lem id at = elim (Option-cases (lookup id s.email_verifications_by_id)) [
    | inl absent ↦ ground arith
    | inr (v, found) ↦ elim (Bool-cases (v.status == pending)) [
      | inl waiting ↦ ground (
        arith,
        validate-as_consumed email_str at v (c.storable id v found)
            ((status_beq_iff v.status pending).0 waiting),
      )
      | inr over ↦ ground arith
    ]
  ]

  -- From a consistent store `mark_consumed` leaves a consistent store, whether it succeeds or raises.
  pub mark_consumed-IsConsistent :
      (id : Uuid) (at : DateTime) → IsConsistent email_str (mark_consumed email_str id at s).1
  mark_consumed-IsConsistent id at =
      rw (mark_consumed_lem id at) (after (lookup id s.email_verifications_by_id) refl)
    where
      after :
          (o : Option EmailVerification)
          → lookup id s.email_verifications_by_id ≡ o
          → IsConsistent email_str (consumed_store id at o s)
      after none found = c
      after (some v) found = elim (Bool-cases (v.status == pending)) [
        | inl waiting ↦ rw waiting (record {
          indexed =
              refresh-IsIndexed id_of OwnsHash
                (insert-HasDistinctKeys id (as_consumed at v) s.email_verifications_by_id
                  c.indexed.distinct)
                (Refreshes-insert id_of OwnsHash id v (as_consumed at v) s.email_verifications_by_id
                  found refl (λ h owns. owns))
                c.indexed;
          storable = λ k u there. ground (
            arith,
            lookup-insert k id (as_consumed at v) s.email_verifications_by_id,
            c.storable k u,
            validate-as_consumed email_str at v (c.storable id v found)
                ((status_beq_iff v.status pending).0 waiting),
          );
        })
        | inr over ↦ rw over c
      ]

-- Once consumed, a verification cannot be consumed again, at whatever time: the second call raises a conflict that names the status `consumed`, and changes nothing.
pub mark_consumed_twice :
    (email_str : Text → Option Text) (s s' : Store) (id : Uuid) (at later : DateTime)
    (v : EmailVerification)
    → mark_consumed email_str id at s ≡ (ok v, s')
    → mark_consumed email_str id later s' ≡ (
      err (concurrent_update "email_verification" (by_uuid id) (some "pending") (some "consumed")),
      s',
    )
unfolding mark_consumed
mark_consumed_twice email_str s s' id at later v run =
    elim (Option-cases (lookup id s.email_verifications_by_id)) [
      | inl absent ↦ absurd (ground arith)
      | inr (u, found) ↦ ground (
        arith,
        lookup-insert_self id v s.email_verifications_by_id,
        validate_verification_iff email_str (as_consumed at u) v,
      )
    ]
