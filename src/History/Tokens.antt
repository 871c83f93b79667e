-- ===== src/History/Tokens.antt =====
-- The life of a refresh token over a run of the service.
use flowtona.Common.{
  ◌≡◌, ◌≢◌, refl, sym, ◌∙◌, ap, Text, Option, some, arith, DateTime, lookup, ok, err, Result,
  ==_refl, list_eq, nat_eq,
}
use flowtona.Email.{IsStable}
use flowtona.Exceptions.{Uuid, Error, concurrent_update, by_uuid}
use flowtona.Models.RefreshToken.{
  RefreshTokenRecord, Status, active, value, status_eq, status_beq_iff,
}
use flowtona.Store.{Store}
use flowtona.Repositories.RefreshTokenRepository.{mark_rotated}
use flowtona.Repositories.RefreshTokenRepository.Rotation
use flowtona.History.{Step, Reach, here, next}
use flowtona.History.Parts.{only}
use flowtona.History.Invariant.{IsSound, Reach-IsSound, Step-IsSound}
use flowtona.History.Kept.{
  Evolves, not_active, Kept, Kept-same, Kept-trans, tokens_of, Kept-create, Kept-mark_rotated,
  Kept-revoke_family, Kept-revoke_all_active,
}

refused :
    (replacement : Uuid) (at : DateTime) (h : Text) (v : RefreshTokenRecord) (s : Store) (i : Uuid)
    → v.id ≡ i
    → v.status ≢ active
    → ◌≡◌ {A = Result Error RefreshTokenRecord × Store}
        (
          Rotation.rotation replacement at h (some v),
          Rotation.rotated_store replacement at (some v) s,
        )
        (
          err (
              concurrent_update "refresh_token"
                (by_uuid i)
                (some "active")
                (some (value v.status))),
          s,
        )
refused replacement at h v s i same over =
    ground (arith, same, over, status_beq_iff v.status active)

module _ (email_str : Text → Option Text) (stable : IsStable email_str) where
  Step-Kept :
      {s s' : Store} → IsSound email_str s → Step email_str s s' → Kept (tokens_of s) (tokens_of s')
  Step-Kept i (Step.token_create s u t f h expires id now new) =
      Kept-create s i.tokens u t f h expires id now new
  Step-Kept i (Step.mark_rotated s h replacement at) = Kept-mark_rotated s i.tokens h replacement at
  Step-Kept i (Step.revoke_family s f at) = Kept-revoke_family s i.tokens f at
  Step-Kept i (Step.revoke_all_active s u t at) = Kept-revoke_all_active s i.tokens u t at
  Step-Kept i st = Kept-same (ap tokens_of (only email_str stable i st))

  -- With a stable check of addresses, from a sound store no run of calls loses a refresh token: a record stored under a key is still there, with the same user, tenant, family, hash and expiry, its status moves from active to rotated to revoked and never back, once it has left active its successor and its rotation time stay, and once it is revoked it never changes.
  pub Reach-Kept :
      {s s' : Store}
      → IsSound email_str s
      → Reach email_str s s'
      → (k : Uuid) (t : RefreshTokenRecord) → lookup k s.refresh_tokens_by_id ≡ some t
      → (u : RefreshTokenRecord) × (lookup k s'.refresh_tokens_by_id ≡ some u) × Evolves t u
  Reach-Kept {s} i here = Kept-same refl
  Reach-Kept i (next r st) =
      Kept-trans _ _ _ (Reach-Kept i r) (Step-Kept (Reach-IsSound email_str stable i r) st)

  module _ (replacement replacement' : Uuid) (at at' : DateTime) (h : Text) where
    -- With a stable check of addresses, after a rotation of a token that succeeds on a sound store, whatever calls follow, a second rotation of the same token hash is refused with a conflict and changes nothing; the conflict names the record that the first one rotated.
    pub rotated_once :
        (s s1 s2 : Store) (u : RefreshTokenRecord)
        → IsSound email_str s
        → mark_rotated h replacement at s ≡ (ok u, s1)
        → Reach email_str s1 s2
        → (found : Status) × (found ≢ active)
          × (mark_rotated h replacement' at' s2 ≡ (
            err (
                concurrent_update "refresh_token"
                  (by_uuid u.id)
                  (some "active")
                  (some (value found))),
            s2,
          ))
    rotated_once s s1 s2 u i run r =
        let (t, before, live, made, after) =
          Rotation.get-mark_rotated replacement at s s1 h u i.tokens run in
        let step : Step email_str s (mark_rotated h replacement at s).1 =
          Step.mark_rotated s h replacement at in
        let i1 : IsSound email_str s1 =
          rw (sym (ap (λ (x : Result Error RefreshTokenRecord × Store). x.1) run))
            (Step-IsSound email_str stable step i) in
        let (stored, same_hash) =
          ((Rotation.get_by_token_hash_iff s1 h i1.tokens).1 u).0
            (ground (arith, after h, ==_refl h)) in
        let (v, there, way) = Reach-Kept i1 r u.id u stored in
        let i2 : IsSound email_str s2 = Reach-IsSound email_str stable i1 r in
        let over : v.status ≢ active =
          not_active u.status v.status way.forward (ground (arith, made)) in
        let stored' : lookup v.id (tokens_of s2) ≡ some v = ground (arith, there, way.id) in
        (
          v.status,
          over,
          Rotation.mark_rotated_lem replacement' at' s2 h (some v) i2.tokens (
                ((Rotation.get_by_token_hash_iff s2 h i2.tokens).1 v).1
                  (stored', way.hash ∙ same_hash))
              ∙ refused replacement' at' h v s2 u.id way.id over,
        )
