-- ===== src/Repositories/RefreshTokenRepository/Issuance.antt =====
-- `create` of a token under a UUID and a hash that are new, with an expiry after its issue.
use flowtona.Common.{
  ◌≡◌, ◌≢◌, refl, Text, none, some, false, arith, DateTime, le_datetime, lookup, lookup-insert,
  lookup-insert_self, ok, ==_iff, list_eq, nat_eq,
}
use flowtona.Common.Action.{at_end}
use flowtona.Exceptions.{Uuid}
use flowtona.Models.RefreshToken.{RefreshTokenRecord, active, status_eq}
use flowtona.Models.RefreshToken.Validity.{validate_token_iff}
use flowtona.Store.{Store}
use flowtona.Repositories.RefreshTokenRepository.{create, get_by_token_hash}
use flowtona.Repositories.RefreshTokenRepository.Consistency
use flowtona.Repositories.RefreshTokenRepository.Consistency.{IsConsistent}
use flowtona.Repositories.RefreshTokenRepository.Rotation

-- The UUID and the hash are not in the store, and the expiry is after the issue.
abbrev pub IsFresh : Store → Uuid → Text → DateTime → DateTime → Type 0
IsFresh s id h now expires =
    (lookup id s.refresh_tokens_by_id ≡ none)
    × (lookup h s.refresh_token_id_by_hash ≡ none)
    × (le_datetime expires now ≡ some false)

-- The token is stored and can be used.
abbrev pub IsUsable : Store → RefreshTokenRecord → Type 0
IsUsable s t = (get_by_token_hash t.token_hash s ≡ ok (some t)) × (t.status ≡ active)

module _ (s : Store) (c : IsConsistent s) where
  -- A record that its hash finds is stored.
  pub stored :
      (t : RefreshTokenRecord)
      → get_by_token_hash t.token_hash s ≡ ok (some t)
      → lookup t.id s.refresh_tokens_by_id ≡ some t
  stored t known = (((Rotation.get_by_token_hash_iff s t.token_hash c).1 t).0 known).0

  pub found :
      (t : RefreshTokenRecord)
      → lookup t.id s.refresh_tokens_by_id ≡ some t
      → get_by_token_hash t.token_hash s ≡ ok (some t)
  found t there = ((Rotation.get_by_token_hash_iff s t.token_hash c).1 t).1 (there, refl)

module _ (s : Store) (c : IsConsistent s) (user tenant family : Uuid) (h : Text)
    (expires : DateTime) (id : Uuid) (now : DateTime) (new : IsFresh s id h now expires) where
  abbrev pub issue : RefreshTokenRecord
  issue = Consistency.issued user tenant family h expires id now

  abbrev pub issued_store : Store
  issued_store = Consistency.added issue s

  pub creates : create user tenant family h expires id now s ≡ (ok issue, issued_store)
  creates = ground (
    arith,
    Consistency.create_token_lem user tenant family h expires id now s,
    validate_token_iff issue issue,
  )

  pub issued_store-IsConsistent : IsConsistent issued_store
  issued_store-IsConsistent =
      at_end IsConsistent creates
        (Consistency.create-IsConsistent user tenant family h expires id now s new.0 c)

  pub issue-IsUsable : IsUsable issued_store issue
  issue-IsUsable = (
    found issued_store issued_store-IsConsistent issue
        (lookup-insert_self id issue s.refresh_tokens_by_id),
    refl,
  )

  pub keeps_found :
      (t : RefreshTokenRecord)
      → get_by_token_hash t.token_hash s ≡ ok (some t)
      → get_by_token_hash t.token_hash issued_store ≡ ok (some t)
  keeps_found t known = found issued_store issued_store-IsConsistent t (
      ground (
        arith,
        stored s c t known,
        lookup-insert t.id id issue s.refresh_tokens_by_id,
        ==_iff id t.id,
      ))

  pub keeps_IsFresh :
      (id' : Uuid) (h' : Text) (now' expires' : DateTime)
      → id' ≢ id
      → h' ≢ h
      → IsFresh s id' h' now' expires'
      → IsFresh issued_store id' h' now' expires'
  keeps_IsFresh id' h' now' expires' other_id other_hash (new_id, new_hash, later) = (
    ground (arith, lookup-insert id' id issue s.refresh_tokens_by_id, ==_iff id id'),
    ground (arith, lookup-insert h' h id s.refresh_token_id_by_hash, ==_iff h h'),
    later,
  )
