-- ===== src/Flows/Sessions.antt =====
-- A session that renews its refresh token again and again. As the methods of
-- app/repositories/refresh_token_repository.py are, `create` of a successor in the same family comes
-- first, since mark_rotated of the old token is given the successor's id.
pub mod Leaves
pub mod Race
use flowtona.Common.{
  ◌≡◌, ◌≢◌, refl, sym, Text, Option, none, some, false, List, [], ◌∷◌, arith, DateTime, le_datetime,
  lookup, insert, lookup-insert, lookup-insert_self, ok, err, ==_iff, list_eq, nat_eq,
}
use flowtona.Common.Action.{◌>>=◌, ◌>>◌, pure, at_end}
use flowtona.Exceptions.{Uuid, concurrent_update, by_uuid}
use flowtona.Models.RefreshToken.{RefreshTokenRecord, active, value, status_eq, status_beq_iff}
use flowtona.Models.RefreshToken.Validity.{as_rotated, validate_token_iff}
use flowtona.Store.{Store, Method}
use flowtona.Repositories.RefreshTokenRepository.{create, mark_rotated, get_by_token_hash}
use flowtona.Repositories.RefreshTokenRepository.Consistency
use flowtona.Repositories.RefreshTokenRepository.Consistency.{IsConsistent}
use flowtona.Repositories.RefreshTokenRepository.Rotation
use flowtona.Repositories.RefreshTokenRepository.Issuance
use flowtona.Repositories.RefreshTokenRepository.Issuance.{IsFresh, IsUsable}
use flowtona.Repositories.RefreshTokenRepository.Handover
use flowtona.Repositories.RefreshTokenRepository.Revocation.{with_tokens}

-- What a renewal brings: the new UUID, the hash of the new text, the time, and the new expiry.
pub record Renewal : Type 0 where
  pub id : Uuid
  pub token_hash : Text
  pub at : DateTime
  pub expires_at : DateTime

-- `create` draws the successor's UUID, which mark_rotated then needs.
unfoldable pub renew : RefreshTokenRecord → Renewal → Method RefreshTokenRecord
renew t r = do
  u ← create t.user_id t.tenant_id t.family_id r.token_hash r.expires_at r.id r.at
  mark_rotated t.token_hash u.id r.at
  pure u

-- One renewal after the other, each of the token that the last one made.
unfoldable pub renew_all : RefreshTokenRecord → List Renewal → Method RefreshTokenRecord
renew_all t [] = pure t
renew_all t (r ∷ rs) = do u ← renew t r; renew_all u rs

abbrev pub IsNew : Store → Renewal → Type 0
IsNew s r = IsFresh s r.id r.token_hash r.at r.expires_at

abbrev pub Differs : Renewal → List Renewal → Type 0
Differs r [] = Unit
Differs r (q ∷ qs) = (q.id ≢ r.id) × (q.token_hash ≢ r.token_hash) × Differs r qs

-- UUIDs and hashes that are neither in the store nor twice in the list, and expiries in the future.
abbrev pub AreFresh : Store → List Renewal → Type 0
AreFresh s [] = Unit
AreFresh s (r ∷ rs) = IsNew s r × Differs r rs × AreFresh s rs

-- The same session: the same user, tenant and family.
abbrev pub Continues : RefreshTokenRecord → RefreshTokenRecord → Type 0
Continues t u = (u.user_id ≡ t.user_id) × (u.tenant_id ≡ t.tenant_id) × (u.family_id ≡ t.family_id)

abbrev pub successor : RefreshTokenRecord → Renewal → RefreshTokenRecord
successor t r =
    Consistency.issued t.user_id t.tenant_id t.family_id r.token_hash r.expires_at r.id r.at

module _ (s : Store) (c : IsConsistent s) (t : RefreshTokenRecord)
    (known : get_by_token_hash t.token_hash s ≡ ok (some t)) (r : Renewal) (new : IsNew s r) where
  abbrev pub between : Store
  between = Consistency.added (successor t r) s

  creates :
      create t.user_id t.tenant_id t.family_id r.token_hash r.expires_at r.id r.at s
      ≡ (ok (successor t r), between)
  creates =
      Issuance.creates s c t.user_id t.tenant_id t.family_id r.token_hash r.expires_at r.id r.at new

  between-IsConsistent : IsConsistent between
  between-IsConsistent =
      Issuance.issued_store-IsConsistent s c t.user_id t.tenant_id t.family_id r.token_hash
        r.expires_at r.id r.at new

  successor-IsUsable : IsUsable between (successor t r)
  successor-IsUsable =
      Issuance.issue-IsUsable s c t.user_id t.tenant_id t.family_id r.token_hash r.expires_at r.id
        r.at new

  still_known : get_by_token_hash t.token_hash between ≡ ok (some t)
  still_known =
      Issuance.keeps_found s c t.user_id t.tenant_id t.family_id r.token_hash r.expires_at r.id r.at
        new t known

  module _ (live : t.status ≡ active) where
    abbrev pub after : Store
    after = with_tokens between (insert t.id (as_rotated r.id r.at t) between.refresh_tokens_by_id)

    pub renews : renew t r s ≡ (ok (successor t r), after)
    unfolding renew
    renews = ground (
      arith,
      creates,
      Handover.rotates between between-IsConsistent t (still_known, live) r.id r.at,
    )

    pub after-IsConsistent : IsConsistent after
    after-IsConsistent =
        Handover.handed_over-IsConsistent between between-IsConsistent t (still_known, live) r.id
          r.at

    differs : r.id ≢ t.id
    differs = ground (arith, Issuance.stored s c t known)

    pub heir-IsUsable : IsUsable after (successor t r)
    heir-IsUsable = (
      Handover.others_found between between-IsConsistent t (still_known, live) r.id r.at
          (successor t r) differs successor-IsUsable.0,
      refl,
    )

    stays_fresh : (rs : List Renewal) → Differs r rs → AreFresh s rs → AreFresh after rs
    stays_fresh [] apart fresh = tt
    stays_fresh (q ∷ qs) (other_id, other_hash, apart) (first, distinct, fresh) = (
      Handover.still-IsFresh between between-IsConsistent t (still_known, live) r.id r.at q.id
          q.token_hash q.at q.expires_at
          (Issuance.keeps_IsFresh s c t.user_id t.tenant_id t.family_id r.token_hash r.expires_at
            r.id r.at new q.id q.token_hash q.at q.expires_at other_id other_hash first),
      distinct,
      stays_fresh qs apart fresh,
    )

-- On a consistent store a session with an active token can be renewed as often as it likes: for every list of renewals with UUIDs and hashes that are new and differ from one another and expiries in the future, every creation and every rotation succeeds, and the last token is stored, active, and of the same user, tenant and family.
pub session_goes_on :
    (rs : List Renewal) (s : Store) (t : RefreshTokenRecord)
    → IsConsistent s
    → IsUsable s t
    → AreFresh s rs
    → (u : RefreshTokenRecord) × (s' : Store) × (renew_all t rs s ≡ (ok u, s'))
      × IsUsable s' u
      × Continues t u
unfolding renew_all
session_goes_on [] s t c usable fresh = (t, s, refl, usable, (refl, refl, refl))
session_goes_on (r ∷ rs) s t c (known, live) (new, apart, fresh) =
    let (u, s', run, last, same) =
      session_goes_on rs (after s c t known r new live) (successor t r)
        (after-IsConsistent s c t known r new live) (heir-IsUsable s c t known r new live)
        (stays_fresh s c t known r new live rs apart fresh) in
    (u, s', ground (arith, renews s c t known r new live), last, same)
