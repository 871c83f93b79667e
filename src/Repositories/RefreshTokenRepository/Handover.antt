-- ===== src/Repositories/RefreshTokenRepository/Handover.antt =====
-- `mark_rotated` of a token that is active.
use flowtona.Common.{
  ◌≡◌, ◌≢◌, Text, some, arith, DateTime, insert, lookup-insert, lookup-insert_self, ok, ==_iff,
  list_eq, nat_eq,
}
use flowtona.Common.Action.{at_end}
use flowtona.Exceptions.{Uuid}
use flowtona.Models.RefreshToken.{RefreshTokenRecord, active, status_eq, status_beq_iff}
use flowtona.Models.RefreshToken.Validity.{as_rotated}
use flowtona.Store.{Store}
use flowtona.Repositories.RefreshTokenRepository.{mark_rotated, get_by_token_hash}
use flowtona.Repositories.RefreshTokenRepository.Consistency.{IsConsistent}
use flowtona.Repositories.RefreshTokenRepository.Rotation
use flowtona.Repositories.RefreshTokenRepository.Revocation.{with_tokens}
use flowtona.Repositories.RefreshTokenRepository.Issuance.{IsFresh, IsUsable, stored, found}

module _ (s : Store) (c : IsConsistent s) (t : RefreshTokenRecord) (usable : IsUsable s t)
    (replacement : Uuid) (at : DateTime) where
  abbrev pub old : RefreshTokenRecord
  old = as_rotated replacement at t

  abbrev pub handed_over : Store
  handed_over = with_tokens s (insert t.id old s.refresh_tokens_by_id)

  pub rotates : mark_rotated t.token_hash replacement at s ≡ (ok old, handed_over)
  rotates = ground (
    arith,
    Rotation.mark_rotated_lem replacement at s t.token_hash (some t) c usable.0,
    status_beq_iff t.status active,
  )

  pub handed_over-IsConsistent : IsConsistent handed_over
  handed_over-IsConsistent =
      at_end IsConsistent rotates
        (Rotation.mark_rotated-IsConsistent replacement at s t.token_hash c)

  pub old_found : get_by_token_hash t.token_hash handed_over ≡ ok (some old)
  old_found =
      found handed_over handed_over-IsConsistent old
        (lookup-insert_self t.id old s.refresh_tokens_by_id)

  -- Every other record is found as before.
  pub others_found :
      (u : RefreshTokenRecord)
      → u.id ≢ t.id
      → get_by_token_hash u.token_hash s ≡ ok (some u)
      → get_by_token_hash u.token_hash handed_over ≡ ok (some u)
  others_found u other known = found handed_over handed_over-IsConsistent u (
      ground (
        arith,
        stored s c u known,
        lookup-insert u.id t.id old s.refresh_tokens_by_id,
        ==_iff t.id u.id,
      ))

  -- What is new stays new.
  pub still-IsFresh :
      (id : Uuid) (h : Text) (now expires : DateTime)
      → IsFresh s id h now expires
      → IsFresh handed_over id h now expires
  still-IsFresh id h now expires (new_id, new_hash, later) = (
    ground (
      arith,
      stored s c t usable.0,
      lookup-insert id t.id old s.refresh_tokens_by_id,
      ==_iff t.id id,
    ),
    new_hash,
    later,
  )
