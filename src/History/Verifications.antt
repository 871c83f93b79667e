-- ===== src/History/Verifications.antt =====
-- The life of an email verification over a run of the service.
use flowtona.Common.{
  ◌≡◌, ◌⊎◌, inl, inr, refl, sym, ap, Text, Option, none, some, arith, DateTime, Dict, lookup,
  insert, lookup-insert_self, ok, err, Bool-cases, Option-cases, ◌==◌, list_eq, nat_eq,
}
use flowtona.Common.Action.{at_end}
use flowtona.Email.{IsStable}
use flowtona.Exceptions.{Uuid, concurrent_update, by_uuid}
use flowtona.Models.EmailVerification.{
  EmailVerification, pending, consumed, status_eq, status_beq_iff,
}
use flowtona.Models.EmailVerification.Validity.{as_consumed, as_revoked}
use flowtona.Store.{Store}
use flowtona.Repositories.EmailVerificationRepository
use flowtona.Repositories.EmailVerificationRepository.Consistency
use flowtona.Repositories.EmailVerificationRepository.Consumption
use flowtona.Repositories.EmailVerificationRepository.Resend
use flowtona.History.{Step, Reach, here, next}
use flowtona.History.Parts.{only}
use flowtona.History.Lives
use flowtona.History.Invariant.{IsSound, Reach-IsSound, Step-IsSound}

-- What can become of a record: it stays as it is, or from pending it is consumed or revoked.
abbrev pub Becomes : EmailVerification → EmailVerification → Type 0
Becomes v w =
    (w ≡ v)
    ⊎ ((v.status ≡ pending) × ((at : DateTime) × ((w ≡ as_consumed at v) ⊎ (w ≡ as_revoked at v))))

Becomes-trans : {u v w : EmailVerification} → Becomes u v → Becomes v w → Becomes u w
Becomes-trans first second = ground arith

abbrev Verifications : Type 0
Verifications = Dict Uuid EmailVerification

abbrev Kept : Verifications → Verifications → Type 0
Kept = Lives.AllKept Becomes

Kept-same : {d d' : Verifications} → d' ≡ d → Kept d d'
Kept-same same = Lives.AllKept-same Becomes (λ v. inl refl) same

Kept-insert :
    (d : Verifications) (id : Uuid) (w : EmailVerification)
    → ((v : EmailVerification) → lookup id d ≡ some v → Becomes v w)
    → Kept d (insert id w d)
Kept-insert = Lives.AllKept-insert Becomes (λ v. inl refl)

abbrev verifications_of : Store → Verifications
verifications_of s = s.email_verifications_by_id

module _ (email_str : Text → Option Text) (stable : IsStable email_str) where
  Kept-create :
      (s : Store) (u : Uuid) (e h : Text) (expires : DateTime) (id : Uuid) (now : DateTime)
      → lookup id (verifications_of s) ≡ none
      → Kept
          (verifications_of s)
          (verifications_of (EmailVerificationRepository.create email_str u e h expires id now s).1)
  Kept-create s u e h expires id now new =
      elim (Consistency.create_outcomes email_str u e h expires id now stable s) [
        | inl (raised, run) ↦ rw run (Kept-same refl)
        | inr (a, _, run, _, _) ↦ rw run (
            Kept-insert (verifications_of s) id
              (Consistency.issued email_str u e h expires id now a)
              (λ i found. absurd (ground arith)))
      ]

  Kept-mark_consumed :
      (s : Store) (c : Consistency.IsConsistent email_str s) (id : Uuid) (at : DateTime)
      → Kept
          (verifications_of s)
          (verifications_of (EmailVerificationRepository.mark_consumed email_str id at s).1)
  Kept-mark_consumed s c id at =
      rw (Consumption.mark_consumed_lem email_str s c id at)
        (go (lookup id (verifications_of s)) refl)
    where
      go :
          (o : Option EmailVerification)
          → lookup id (verifications_of s) ≡ o
          → Kept (verifications_of s) (verifications_of (Consumption.consumed_store id at o s))
      go none found = Kept-same refl
      go (some v) found = elim (Bool-cases (v.status == pending)) [
        | inl waiting ↦ rw waiting (
            Kept-insert (verifications_of s) id (as_consumed at v) (λ x there.
              let same : v ≡ x = ground arith in
              rw (sym same) (inr ((status_beq_iff v.status pending).0 waiting, (at, inl refl)))))
        | inr over ↦ rw over (Kept-same refl)
      ]

  Kept-revoke :
      (s : Store) (c : Consistency.IsConsistent email_str s) (u : Uuid) (at : DateTime)
      → Kept (verifications_of s) (
          verifications_of (EmailVerificationRepository.revoke_pending_for_user email_str u at s).1)
  Kept-revoke s c u at =
      let (d, run, each) = Resend.revoke_pending_for_user_lem email_str u at s c in
      rw run (λ k v found. elim (Bool-cases (Resend.pending_of u v)) [
        | inl live ↦ (
          as_revoked at v,
          ground (arith, each k),
          inr (ground (arith, status_beq_iff v.status pending), (at, inr refl)),
        )
        | inr other ↦ (v, ground (arith, each k), inl refl)
      ])

  Step-Kept :
      {s s' : Store}
      → IsSound email_str s
      → Step email_str s s'
      → Kept (verifications_of s) (verifications_of s')
  Step-Kept i (Step.verification_create s u e h expires id now new) =
      Kept-create s u e h expires id now new
  Step-Kept i (Step.mark_consumed s id at) = Kept-mark_consumed s i.verifications id at
  Step-Kept i (Step.revoke_pending s u at) = Kept-revoke s i.verifications u at
  Step-Kept i st = Kept-same (ap verifications_of (only email_str stable i st))

  -- With a stable check of addresses, from a sound store no run of calls loses an email verification: a record stored under a key is still there, and it is the same, or it was pending and is the same but for having been consumed or revoked at some time.
  pub verification_life :
      {s s' : Store}
      → IsSound email_str s
      → Reach email_str s s'
      → (k : Uuid) (i : EmailVerification) → lookup k s.email_verifications_by_id ≡ some i
      → (j : EmailVerification) × (lookup k s'.email_verifications_by_id ≡ some j) × Becomes i j
  verification_life i here = Kept-same refl
  verification_life i (next r st) =
      Lives.AllKept-trans Becomes _ _ _ (λ u v w a b. Becomes-trans a b) (verification_life i r)
        (Step-Kept (Reach-IsSound email_str stable i r) st)

  -- What a consumption that returned has stored.
  pub stored_by :
      (s s' : Store) (id : Uuid) (at : DateTime) (w : EmailVerification)
      → Consistency.IsConsistent email_str s
      → EmailVerificationRepository.mark_consumed email_str id at s ≡ (ok w, s')
      → (lookup id s'.email_verifications_by_id ≡ some w) × (w.status ≡ consumed)
  stored_by s s' id at w c run =
      let lem = Consumption.mark_consumed_lem email_str s c id at in
      elim (Option-cases (lookup id (verifications_of s))) [
        | inl absent ↦ absurd (ground arith)
        | inr (v, there) ↦ elim (Bool-cases (v.status == pending)) [
          | inl waiting ↦ (
            ground (arith, lookup-insert_self id (as_consumed at v) s.email_verifications_by_id),
            ground arith,
          )
          | inr over ↦ absurd (ground arith)
        ]
      ]

  -- With a stable check of addresses, after a consumption of an email verification that succeeds on a sound store, whatever calls follow, a second consumption is refused with a conflict that names the status `consumed`, and changes nothing.
  pub consumed_for_good :
      (s s1 s2 : Store) (id : Uuid) (at later : DateTime) (w : EmailVerification)
      → IsSound email_str s
      → EmailVerificationRepository.mark_consumed email_str id at s ≡ (ok w, s1)
      → Reach email_str s1 s2
      → EmailVerificationRepository.mark_consumed email_str id later s2 ≡ (
        err (
            concurrent_update "email_verification" (by_uuid id) (some "pending") (some "consumed")),
        s2,
      )
  consumed_for_good s s1 s2 id at later w i run r =
      let i1 : IsSound email_str s1 =
        at_end (IsSound email_str) run
          (Step-IsSound email_str stable (Step.mark_consumed s id at) i) in
      let (stored, over) = stored_by s s1 id at w i.verifications run in
      let (x, there, way) = verification_life i1 r id w stored in
      let i2 = Reach-IsSound email_str stable i1 r in
      let same : x ≡ w = ground arith in
      ground (
        arith,
        Consumption.mark_consumed_lem email_str s2 i2.verifications id later,
        status_beq_iff x.status pending,
      )
