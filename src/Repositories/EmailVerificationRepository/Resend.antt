-- ===== src/Repositories/EmailVerificationRepository/Resend.antt =====
-- `revoke_pending_for_user`, which a resend calls, as a sweep over the records.
use flowtona.Common.{
  ℕ, ◌+◌, Text, ◌≡◌, refl, inr, Bool, ◌&&◌, Option, none, some, [], ◌∷◌, arith, DateTime, lookup,
  insert, ok, ◌==◌, nat_eq, list_eq, if◌then◌else◌, count_where, one_if, sweep, lookup-sweep_self,
  sweep-HasDistinctKeys, AllValues, AllValues-of_lookup, rewrite_entry, refresh-IsIndexed,
  Refreshes-rewrite,
}
use flowtona.Common.Action.{for_each}
use flowtona.Exceptions.{Uuid}
use flowtona.Models.EmailVerification.{EmailVerification, pending, status_beq_iff, status_eq}
use flowtona.Models.EmailVerification.Validity.{as_revoked, validate-as_revoked}
use flowtona.Store.{Store}
use flowtona.Repositories.EmailVerificationRepository.{revoke_item, revoke_pending_for_user}
use flowtona.Repositories.EmailVerificationRepository.Consistency.{
  IsConsistent, IsStorable, id_of, OwnsHash,
}
use flowtona.Repositories.EmailVerificationRepository.Consumption.{
  Verifications, with_verifications,
}

-- what `revoke_pending_for_user` tests
abbrev pub pending_of : Uuid → EmailVerification → Bool
pending_of user_id v = v.user_id == user_id && v.status == pending

module _ (email_str : Text → Option Text) (user_id : Uuid) (at : DateTime) where
  revoke_item_lem :
      (n : ℕ) (k : Uuid) (v : EmailVerification) (s : Store)
      → IsStorable email_str v
      → revoke_item email_str user_id at n (k, v) s ≡ (
        ok (n + one_if (pending_of user_id) v),
        with_verifications s (
            if pending_of user_id v
            then insert k (as_revoked at v) s.email_verifications_by_id
            else s.email_verifications_by_id),
      )
  unfolding revoke_item
  revoke_item_lem n k v s valid =
      ground (arith, validate-as_revoked email_str at v valid, status_beq_iff v.status pending)

  revoke_items_lem :
      (rest : Verifications) (n : ℕ) (s : Store)
      → AllValues (IsStorable email_str) rest
      → for_each (revoke_item email_str user_id at) rest n s ≡ (
        ok (n + count_where (pending_of user_id) rest),
        with_verifications s
            (sweep (pending_of user_id) (as_revoked at) rest s.email_verifications_by_id),
      )
  unfolding for_each count_where sweep
  revoke_items_lem [] n s valid = ground arith
  revoke_items_lem ((k, v) ∷ rest) n s valid = rw (revoke_item_lem n k v s valid.0) (
      ground (
        arith,
        revoke_items_lem rest (n + one_if (pending_of user_id) v)
            (with_verifications s (
              if pending_of user_id v
              then insert k (as_revoked at v) s.email_verifications_by_id
              else s.email_verifications_by_id))
            valid.1,
      ))

  module _ (s : Store) (c : IsConsistent email_str s) where
    abbrev records : Verifications
    records = s.email_verifications_by_id

    abbrev after : Verifications
    after = sweep (pending_of user_id) (as_revoked at) records records

    run_resend :
        revoke_pending_for_user email_str user_id at s
        ≡ (ok (count_where (pending_of user_id) records), with_verifications s after)
    unfolding revoke_pending_for_user
    run_resend = ground (
      arith,
      revoke_items_lem records 0 s
          (AllValues-of_lookup (IsStorable email_str) records c.indexed.distinct c.storable),
    )

    lookup-after :
        (k : Uuid)
        → lookup k after ≡ rewrite_entry (pending_of user_id) (as_revoked at) (lookup k records)
    lookup-after k =
        lookup-sweep_self (pending_of user_id) (as_revoked at) k records c.indexed.distinct

    -- On a consistent store `revoke_pending_for_user` revokes, at the given time, exactly the pending records of the user, changes no other record and not the index, and returns how many it revoked.
    pub revoke_pending_for_user_lem :
        (d : Verifications) × (revoke_pending_for_user email_str user_id at s ≡ (
          ok (count_where (pending_of user_id) s.email_verifications_by_id),
          with_verifications s d,
        ))
        × ((k : Uuid)
            → lookup k d
              ≡ rewrite_entry
                  (pending_of user_id)
                  (as_revoked at)
                  (lookup k s.email_verifications_by_id))
    revoke_pending_for_user_lem = (after, run_resend, lookup-after)

    -- After `revoke_pending_for_user` the store is still consistent.
    pub revoke_pending_for_user-IsConsistent :
        IsConsistent email_str (revoke_pending_for_user email_str user_id at s).1
    revoke_pending_for_user-IsConsistent = rw run_resend (record {
      indexed =
          refresh-IsIndexed id_of OwnsHash
            (sweep-HasDistinctKeys (pending_of user_id) (as_revoked at) records records
              c.indexed.distinct)
            (Refreshes-rewrite id_of OwnsHash (pending_of user_id) (as_revoked at) records after
              (λ v. refl) (λ h v owns. owns) (λ k. inr (lookup-after k)))
            c.indexed;
      storable = λ k u found. storable_after (lookup k records) k u refl (lookup-after k) found;
    })
      where
        storable_after :
            (o : Option EmailVerification) (k : Uuid) (u : EmailVerification)
            → lookup k records ≡ o
            → lookup k after ≡ rewrite_entry (pending_of user_id) (as_revoked at) o
            → lookup k after ≡ some u
            → IsStorable email_str u
        storable_after none k u before e found = absurd (ground arith)
        storable_after (some v) k u before e found = ground (
          arith,
          c.storable k v before,
          validate-as_revoked email_str at v (c.storable k v before),
          status_beq_iff v.status pending,
        )
