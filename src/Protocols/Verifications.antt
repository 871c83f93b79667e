-- ===== src/Protocols/Verifications.antt =====
-- app/repositories/email_verification_repository.py: class EmailVerificationRepository(Protocol).
-- A repository over any state is its operations; its docstrings are laws on the rows by id.
pub mod InMemory
use flowtona.Common.{
  ℕ, ◌≡◌, ◌≢◌, ◌↔◌, sym, ap, ◌∙◌, Text, Option, none, some, arith, DateTime, Result, ok, err, ◌==◌,
  ==_iff, nat_eq, if◌then◌else◌, rewrite_entry, HasCount,
}
use flowtona.Common.Action.{Action}
use flowtona.Exceptions.{Uuid, Error, record_not_found, concurrent_update, by_uuid}
use flowtona.Models.EmailVerification.{EmailVerification, pending, value, status_eq, status_beq_iff}
use flowtona.Models.EmailVerification.Validity.{as_consumed, as_revoked}
use flowtona.Repositories.EmailVerificationRepository.Resend.{pending_of}

-- The methods; `create` is given the UUID and the time that it would draw.
pub record VerificationOperations (S : Type 0) : Type 0 where
  pub create : Uuid → Text → Text → DateTime → Uuid → DateTime → Action Error S EmailVerification
  pub get_by_token_hash : Text → S → Result Error (Option EmailVerification)
  pub mark_consumed : Uuid → DateTime → Action Error S EmailVerification
  pub revoke_pending_for_user : Uuid → DateTime → Action Error S ℕ

-- Why `mark_consumed` refuses: by the row of the id.
abbrev pub refusal : Uuid → Option EmailVerification → Error
refusal id none = record_not_found "email_verification" (by_uuid id)
refusal id (some v) =
    concurrent_update "email_verification" (by_uuid id) (some "pending") (some (value v.status))

-- The promises, on the states that satisfy `IsGood`, where `row` reads the row of an id and `address` gives the address to store for a text, if it has one.
pub record KeepsVerifications {S : Type 0} (o : VerificationOperations S) (IsGood : S → Type 0)
    (row : Uuid → S → Option EmailVerification) (address : Text → Option Text) : Type 0 where
  pub creates :
      (s s' : S) (user : Uuid) (email h : Text) (expires : DateTime) (id : Uuid) (now : DateTime)
      (u : EmailVerification)
      → IsGood s
      → row id s ≡ none
      → o.create user email h expires id now s ≡ (ok u, s')
      → ((u.id ≡ id)
          × (u.user_id ≡ user)
          × (address email ≡ some u.email)
          × (u.token_hash ≡ h)
          × (u.status ≡ pending)
          × (u.created_at ≡ now)
          × (u.expires_at ≡ expires))
        × IsGood s'
        × ((k : Uuid) → row k s' ≡ (if id == k then some u else row k s))
  pub looks_up :
      (s : S) (h : Text)
      → IsGood s
      → (x : Option EmailVerification) × (o.get_by_token_hash h s ≡ ok x)
  pub finds :
      (s : S) (h : Text) (v : EmailVerification)
      → IsGood s
      → (o.get_by_token_hash h s ≡ ok (some v)) ↔ ((row v.id s ≡ some v) × (v.token_hash ≡ h))
  pub consumes :
      (s : S) (id : Uuid) (at : DateTime) (v : EmailVerification)
      → IsGood s
      → row id s ≡ some v
      → v.status ≡ pending
      → (s' : S) × (o.mark_consumed id at s ≡ (ok (as_consumed at v), s'))
        × IsGood s'
        × ((k : Uuid) → row k s' ≡ (if id == k then some (as_consumed at v) else row k s))
  pub refuses :
      (s : S) (id : Uuid) (at : DateTime)
      → IsGood s
      → ((v : EmailVerification) → row id s ≡ some v → v.status ≢ pending)
      → o.mark_consumed id at s ≡ (err (refusal id (row id s)), s)
  pub ends_pending :
      (s : S) (user : Uuid) (at : DateTime)
      → IsGood s
      → (n : ℕ) × (s' : S) × (o.revoke_pending_for_user user at s ≡ (ok n, s'))
        × HasCount (pending_of user) (λ k. row k s) n
        × IsGood s'
        × ((k : Uuid) → row k s' ≡ rewrite_entry (pending_of user) (as_revoked at) (row k s))

-- What a row of the user has become after the pending ones are revoked.
closed :
    (user : Uuid) (at : DateTime) (before : Option EmailVerification) (v : EmailVerification)
    → some v ≡ rewrite_entry (pending_of user) (as_revoked at) before
    → v.user_id ≡ user
    → v.status ≢ pending
closed user at none v now mine = absurd (ground arith)
closed user at (some u) v now mine =
    ground (arith, ==_iff u.user_id user, status_beq_iff u.status pending)

module _ {S : Type 0} (o : VerificationOperations S) (IsGood : S → Type 0)
    (row : Uuid → S → Option EmailVerification) (address : Text → Option Text)
    (keeps : KeepsVerifications o IsGood row address) where
  -- Whatever repository keeps the protocol: after the pending verifications of a user are revoked, none that a token of the user still finds can be consumed; the attempt raises and changes nothing.
  pub resend_ends_pending :
      (s : S) (user : Uuid) (at : DateTime) (h : Text) (v : EmailVerification) (later : DateTime)
      → IsGood s
      → let s' = (o.revoke_pending_for_user user at s).1 in
        o.get_by_token_hash h s' ≡ ok (some v)
        → v.user_id ≡ user
        → (e : Error) × (o.mark_consumed v.id later s' ≡ (err e, s'))
  resend_ends_pending s user at h v later good found mine =
      let (n, s', run, counted, good', rows) = keeps.ends_pending s user at good in
      let same : (o.revoke_pending_for_user user at s).1 ≡ s' =
        ap (λ (x : Result Error ℕ × S). x.1) run in
      let found' : o.get_by_token_hash h s' ≡ ok (some v) =
        sym (ap (λ x. o.get_by_token_hash h x) same) ∙ found in
      let stored : row v.id s' ≡ some v = ((keeps.finds s' h v good').0 found').0 in
      rw same (
        (
          refusal v.id (row v.id s'),
          keeps.refuses s' v.id later good' (λ u there.
              closed user at (row v.id s) u (sym there ∙ rows v.id)
                (ground (arith, stored, there, mine))),
        ))
