-- ===== src/Repositories/RefreshTokenRepository.antt =====
-- app/repositories/in_memory/refresh_token_repository.py: class InMemoryRefreshTokenRepository
pub mod Revocation
pub mod Families
pub mod Rotation
pub mod Issuance
pub mod Handover
pub mod Order
pub mod View
pub mod Consistency
use flowtona.Common.{
  ℕ, ◌+◌, Text, Bool, not, ◌&&◌, ◌||◌, Option, none, some, List, [], ◌∷◌, ◌++◌, DateTime, Dict,
  lookup, insert, contains, Result, ok, err, or_raise, raise_if, if◌then◌else◌, ◌==◌, is_listed,
  nat_eq, list_eq,
}
use flowtona.Common.Action.{◌>>=◌, ◌>>◌, pure, lift, gets, modify, for_each}
use flowtona.Exceptions.{
  Uuid, Error, duplicate_entry, record_not_found, concurrent_update, by_uuid, by_text,
}
use flowtona.Models.RefreshToken.{
  RefreshTokenRecord, active, rotated, revoked, value, status_eq, validate, fresh,
}
use flowtona.Store.{Store, Method, index}

-- A Python set is the list of its members, each once. Python walks it in another order.
-- `ids.add(i)`
unfoldable pub add : Uuid → List Uuid → List Uuid
unfolding is_listed
add i ids = if is_listed i ids then ids else ids ++ i ∷ []

-- `d.get(k, set())`
abbrev pub ids_of : Uuid → Dict Uuid (List Uuid) → List Uuid
ids_of k d = elim (lookup k d) [ none ↦ [] | some ids ↦ ids ]

unfoldable pub create :
    Uuid → Uuid → Uuid → Text → DateTime → Uuid → DateTime → Method RefreshTokenRecord
create user_id tenant_id family_id token_hash expires_at id now = do
  taken ← gets (λ s. contains token_hash s.refresh_token_id_by_hash)
  lift (raise_if taken (duplicate_entry "refresh_token" "token_hash"))
  token ← lift (validate (fresh id user_id tenant_id family_id token_hash now expires_at))
  modify (λ s. record s { refresh_tokens_by_id = insert token.id token s.refresh_tokens_by_id })
  modify (λ s. record s {
    refresh_token_id_by_hash = insert token_hash token.id s.refresh_token_id_by_hash;
  })
  modify (λ s. record s {
    refresh_token_ids_by_family =
        insert family_id (add token.id (ids_of family_id s.refresh_token_ids_by_family))
          s.refresh_token_ids_by_family;
  })
  pure token

found : Store → Option Uuid → Result Error (Option RefreshTokenRecord)
found s none = ok none
found s (some id) = elim (index id s.refresh_tokens_by_id) [ ok t ↦ ok (some t) | err e ↦ err e ]

unfoldable pub get_by_token_hash : Text → Store → Result Error (Option RefreshTokenRecord)
unfolding found
get_by_token_hash token_hash s = found s (lookup token_hash s.refresh_token_id_by_hash)

unfoldable pub mark_rotated : Text → Uuid → DateTime → Method RefreshTokenRecord
mark_rotated token_hash replaced_by_token_id rotated_at = do
  indexed ← gets (λ s. lookup token_hash s.refresh_token_id_by_hash)
  token_id ← lift (or_raise indexed (record_not_found "refresh_token" (by_text token_hash)))
  stored ← gets (λ s. index token_id s.refresh_tokens_by_id)
  token ← lift stored
  lift (
      raise_if (not (token.status == active)) (
        concurrent_update "refresh_token" (by_uuid token_id) (some "active")
          (some (value token.status))))
  updated ← lift (
      validate (record token {
        status = rotated;
        rotated_at = some rotated_at;
        replaced_by_token_id = some replaced_by_token_id;
      }))
  modify (λ s. record s { refresh_tokens_by_id = insert token_id updated s.refresh_tokens_by_id })
  pure updated

-- `data["status"] = REVOKED; …; refresh_tokens_by_id[token_id] = …; count += 1`
unfoldable pub revoke : DateTime → ℕ → Uuid → RefreshTokenRecord → Method ℕ
revoke revoked_at count token_id token = do
  updated ← lift (validate (record token { status = revoked; revoked_at = some revoked_at }))
  modify (λ s. record s { refresh_tokens_by_id = insert token_id updated s.refresh_tokens_by_id })
  pure (count + 1)

-- the body of the loop of `revoke_family`
unfoldable pub revoke_member : DateTime → ℕ → Uuid → Method ℕ
revoke_member revoked_at count token_id = do
  stored ← gets (λ s. index token_id s.refresh_tokens_by_id)
  token ← lift stored
  if token.status == revoked then pure count else revoke revoked_at count token_id token

unfoldable pub revoke_family : Uuid → DateTime → Method ℕ
revoke_family family_id revoked_at = do
  ids ← gets (λ s. ids_of family_id s.refresh_token_ids_by_family)
  for_each (revoke_member revoked_at) ids 0

-- the body of the loop of `revoke_all_active`, on one item of the snapshot
unfoldable pub revoke_item : Uuid → Uuid → DateTime → ℕ → Uuid × RefreshTokenRecord → Method ℕ
revoke_item user_id tenant_id revoked_at count (token_id, token) =
    if token.user_id == user_id && token.tenant_id == tenant_id && not (token.status == revoked)
    then revoke revoked_at count token_id token
    else pure count

unfoldable pub revoke_all_active : Uuid → Uuid → DateTime → Method ℕ
revoke_all_active user_id tenant_id revoked_at = do
  items ← gets (λ s. s.refresh_tokens_by_id)
  for_each (revoke_item user_id tenant_id revoked_at) items 0
