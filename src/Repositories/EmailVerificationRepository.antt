-- ===== src/Repositories/EmailVerificationRepository.antt =====
-- app/repositories/in_memory/email_verification_repository.py: InMemoryEmailVerificationRepository
pub mod Resend
pub mod Consumption
pub mod Lookup
pub mod Consistency
use flowtona.Common.{
  ℕ, ◌+◌, Text, not, ◌&&◌, Option, none, some, DateTime, lookup, insert, contains, Result, ok, err,
  or_raise, raise_if, if◌then◌else◌, ◌==◌, nat_eq, list_eq,
}
use flowtona.Common.Action.{◌>>=◌, ◌>>◌, pure, lift, gets, modify, for_each}
use flowtona.Exceptions.{Uuid, Error, duplicate_entry, record_not_found, concurrent_update, by_uuid}
use flowtona.Email.{normalise_email}
use flowtona.Models.EmailVerification.{
  EmailVerification, pending, consumed, revoked, value, status_eq, validate, fresh,
}
use flowtona.Store.{Store, Method, index}

module _ (email_str : Text → Option Text) where
  unfoldable pub create : Uuid → Text → Text → DateTime → Uuid → DateTime → Method EmailVerification
  create user_id email token_hash expires_at id now = do
    let normalized = normalise_email email
    taken ← gets (λ s. contains token_hash s.email_verification_id_by_token_hash)
    lift (raise_if taken (duplicate_entry "email_verification" "token_hash"))
    verification ← lift (validate email_str (fresh id user_id normalized token_hash now expires_at))
    modify (λ s. record s {
      email_verifications_by_id = insert verification.id verification s.email_verifications_by_id;
    })
    modify (λ s. record s {
      email_verification_id_by_token_hash =
          insert token_hash verification.id s.email_verification_id_by_token_hash;
    })
    pure verification

  unfoldable pub mark_consumed : Uuid → DateTime → Method EmailVerification
  mark_consumed verification_id consumed_at = do
    stored ← gets (λ s. lookup verification_id s.email_verifications_by_id)
    verification ←
        lift (or_raise stored (record_not_found "email_verification" (by_uuid verification_id)))
    lift (
        raise_if (not (verification.status == pending)) (
          concurrent_update "email_verification" (by_uuid verification_id) (some "pending")
            (some (value verification.status))))
    updated ← lift (
        validate email_str
          (record verification { status = consumed; consumed_at = some consumed_at }))
    modify (λ s. record s {
      email_verifications_by_id = insert verification_id updated s.email_verifications_by_id;
    })
    pure updated

  -- the body of the loop, on the count so far and one item of the snapshot
  unfoldable pub revoke_item : Uuid → DateTime → ℕ → Uuid × EmailVerification → Method ℕ
  revoke_item user_id revoked_at count (verification_id, verification) =
      if verification.user_id == user_id && verification.status == pending
      then (do
        updated ← lift (
            validate email_str
              (record verification { status = revoked; revoked_at = some revoked_at }))
        modify (λ s. record s {
          email_verifications_by_id = insert verification_id updated s.email_verifications_by_id;
        })
        pure (count + 1))
      else pure count

  unfoldable pub revoke_pending_for_user : Uuid → DateTime → Method ℕ
  revoke_pending_for_user user_id revoked_at = do
    items ← gets (λ s. s.email_verifications_by_id)
    for_each (revoke_item user_id revoked_at) items 0

found : Store → Option Uuid → Result Error (Option EmailVerification)
found s none = ok none
found s (some id) = elim (index id s.email_verifications_by_id) [
  | ok v ↦ ok (some v)
  | err e ↦ err e
]

unfoldable pub get_by_token_hash : Text → Store → Result Error (Option EmailVerification)
unfolding found
get_by_token_hash token_hash s = found s (lookup token_hash s.email_verification_id_by_token_hash)
