-- ===== src/Protocols/Verifications/InMemory.antt =====
-- InMemoryEmailVerificationRepository as an implementation of the protocol.
use flowtona.Common.{
  ◌≡◌, ◌≢◌, inl, inr, Text, Option, some, arith, DateTime, ok, err, nat_eq, lookup, lookup-insert,
  Option-cases, count_where-HasCount,
}
use flowtona.Common.Action.{at_end}
use flowtona.Exceptions.{Uuid}
use flowtona.Models.EmailVerification.{EmailVerification, pending, status_eq, status_beq_iff}
use flowtona.Models.EmailVerification.Validity.{as_consumed}
use flowtona.Email.{normalise_email, IsStable}
use flowtona.Store.{Store}
use flowtona.Repositories.EmailVerificationRepository
use flowtona.Repositories.EmailVerificationRepository.Consistency
use flowtona.Repositories.EmailVerificationRepository.Consumption
use flowtona.Repositories.EmailVerificationRepository.Lookup.{get_verification_iff}
use flowtona.Repositories.EmailVerificationRepository.Resend
use flowtona.Repositories.EmailVerificationRepository.Resend.{pending_of}
use flowtona.Protocols.Verifications.{VerificationOperations, KeepsVerifications, refusal}

module _ (email_str : Text → Option Text) where
  abbrev pub in_memory_verifications : VerificationOperations Store
  in_memory_verifications = record {
    create = EmailVerificationRepository.create email_str;
    get_by_token_hash = EmailVerificationRepository.get_by_token_hash;
    mark_consumed = EmailVerificationRepository.mark_consumed email_str;
    revoke_pending_for_user = EmailVerificationRepository.revoke_pending_for_user email_str;
  }

  abbrev pub verification_of : Uuid → Store → Option EmailVerification
  verification_of k s = lookup k s.email_verifications_by_id

  consumed :
      (s : Store) (id : Uuid) (at : DateTime) (v : EmailVerification)
      → Consistency.IsConsistent email_str s
      → lookup id s.email_verifications_by_id ≡ some v
      → v.status ≡ pending
      → EmailVerificationRepository.mark_consumed email_str id at s
        ≡ (ok (as_consumed at v), Consumption.consumed_store id at (some v) s)
  consumed s id at v c there waiting =
      ground (arith, Consumption.mark_consumed_lem email_str s c id at)

  refused :
      (s : Store) (id : Uuid) (at : DateTime)
      → Consistency.IsConsistent email_str s
      → ((v : EmailVerification)
          → lookup id s.email_verifications_by_id ≡ some v
          → v.status ≢ pending)
      → EmailVerificationRepository.mark_consumed email_str id at s
        ≡ (err (refusal id (lookup id s.email_verifications_by_id)), s)
  refused s id at c over = elim (Option-cases (lookup id s.email_verifications_by_id)) [
    | inl absent ↦ ground (arith, Consumption.mark_consumed_lem email_str s c id at)
    | inr (v, there) ↦ ground (
      arith,
      Consumption.mark_consumed_lem email_str s c id at,
      over v there,
      status_beq_iff v.status pending,
    )
  ]

  created :
      (s s' : Store) (user : Uuid) (email h : Text) (expires : DateTime) (id : Uuid)
      (now : DateTime) (u : EmailVerification)
      → IsStable email_str
      → EmailVerificationRepository.create email_str user email h expires id now s ≡ (ok u, s')
      → (a : Text) × (email_str (normalise_email email) ≡ some a)
        × (u ≡ Consistency.issued email_str user email h expires id now a)
        × (s' ≡ Consistency.added u s)
  created s s' user email h expires id now u stable run =
      elim (Consistency.create_outcomes email_str user email h expires id now stable s) [
        | inl (e, raised) ↦ absurd (ground arith)
        | inr (a, address, returned, _, _) ↦ (a, address, ground arith, ground arith)
      ]

  -- If the check of addresses is stable, on every consistent store the in-memory repository keeps the protocol of email verifications: a `create` that succeeds under a new UUID stores a pending record with the given fields and the address that the check makes of the normal form of the text, and changes no other row; `get_by_token_hash` never raises and finds exactly the stored record with the hash; `mark_consumed` consumes a pending one, and otherwise raises not-found or a conflict with the actual status and changes nothing; `revoke_pending_for_user` revokes exactly the pending records of the user and returns how many those are.
  pub in_memory-KeepsVerifications :
      IsStable email_str
      → KeepsVerifications in_memory_verifications
          (Consistency.IsConsistent email_str)
          verification_of
          (λ e. email_str (normalise_email e))
  in_memory-KeepsVerifications stable = record {
    creates = λ s s' user email h expires id now u c new run.
        let (a, address, made, after) = created s s' user email h expires id now u stable run in
        (
          ground arith,
          at_end (Consistency.IsConsistent email_str) run (
              Consistency.create-IsConsistent email_str user email h expires id now stable s new c),
          λ k. ground (arith, made, lookup-insert k id u s.email_verifications_by_id),
        );
    looks_up = λ s h c. (get_verification_iff email_str s h c).0;
    finds = λ s h v c. (get_verification_iff email_str s h c).1 v;
    consumes = λ s id at v c there waiting. (
      Consumption.consumed_store id at (some v) s,
      consumed s id at v c there waiting,
      at_end (Consistency.IsConsistent email_str) (consumed s id at v c there waiting)
          (Consumption.mark_consumed-IsConsistent email_str s c id at),
      λ k. ground (
        arith,
        lookup-insert k id (as_consumed at v) s.email_verifications_by_id,
        status_beq_iff v.status pending,
      ),
    );
    refuses = refused;
    ends_pending = λ s user at c.
        let (d, run, rows) = Resend.revoke_pending_for_user_lem email_str user at s c in
        (
          _,
          _,
          run,
          count_where-HasCount (pending_of user) s.email_verifications_by_id c.indexed.distinct,
          at_end (Consistency.IsConsistent email_str) run
              (Resend.revoke_pending_for_user-IsConsistent email_str user at s c),
          rows,
        );
  }
