-- ===== src/History/Logout.antt =====
-- A family of refresh tokens that is revoked stays so.
use flowtona.Common.{
  Option, ◌≡◌, refl, Text, some, arith, ℕ, DateTime, lookup, ok, err, Bool-cases, inl, inr, ◌==◌,
  ==_iff, ==_refl, list_eq, nat_eq,
}
use flowtona.Common.Action.{at_end}
use flowtona.Email.{IsStable}
use flowtona.Exceptions.{Uuid, concurrent_update, by_uuid}
use flowtona.Models.RefreshToken.{RefreshTokenRecord, active, revoked, status_eq, status_beq_iff}
use flowtona.Models.RefreshToken.Validity.{as_revoked}
use flowtona.Store.{Store}
use flowtona.Repositories.RefreshTokenRepository.{mark_rotated, revoke_family}
use flowtona.Repositories.RefreshTokenRepository.Families
use flowtona.Repositories.RefreshTokenRepository.Rotation
use flowtona.History.{Step, Reach}
use flowtona.History.Invariant.{IsSound, Reach-IsSound, Step-IsSound}
use flowtona.History.Tokens.{Reach-Kept}

-- What `revoke_family` leaves of a token of the family.
revoked_in :
    (s : Store) (f : Uuid) (at : DateTime) (n : ℕ) (s' : Store) (email_str : Text → Option Text)
    (t : RefreshTokenRecord)
    → IsSound email_str s
    → revoke_family f at s ≡ (ok n, s')
    → lookup t.id s.refresh_tokens_by_id ≡ some t
    → t.family_id ≡ f
    → (u : RefreshTokenRecord) × (lookup t.id s'.refresh_tokens_by_id ≡ some u)
      × (u.status ≡ revoked)
      × (u.token_hash ≡ t.token_hash)
      × (u.id ≡ t.id)
revoked_in s f at n s' email_str t i run there mine =
    let (d, ran, each) = Families.revoke_family_lem at s i.tokens f in
    let after : s'.refresh_tokens_by_id ≡ d = ground (arith, ran) in
    elim (Bool-cases (t.status == revoked)) [
      | inl gone ↦
          (t, ground (arith, each t.id), (status_beq_iff t.status revoked).0 gone, refl, refl)
      | inr live ↦ (
        as_revoked at t,
        ground (arith, each t.id, ==_refl f, ==_iff t.family_id f),
        refl,
        refl,
        refl,
      )
    ]

module _ (email_str : Text → Option Text) (stable : IsStable email_str) where
  -- With a stable check of addresses, after a family is revoked on a sound store, whatever calls follow, a token that was in the family cannot be rotated: the attempt raises a conflict that names the status `revoked`, and changes nothing.
  pub logout_is_final :
      (s s1 s2 : Store) (f : Uuid) (at at' : DateTime) (n : ℕ) (t : RefreshTokenRecord)
      (replacement : Uuid)
      → IsSound email_str s
      → lookup t.id s.refresh_tokens_by_id ≡ some t
      → t.family_id ≡ f
      → revoke_family f at s ≡ (ok n, s1)
      → Reach email_str s1 s2
      → mark_rotated t.token_hash replacement at' s2 ≡ (
        err (concurrent_update "refresh_token" (by_uuid t.id) (some "active") (some "revoked")),
        s2,
      )
  logout_is_final s s1 s2 f at at' n t replacement i there mine run r =
      let i1 : IsSound email_str s1 =
        at_end (IsSound email_str) run
          (Step-IsSound email_str stable (Step.revoke_family s f at) i) in
      let (u, stored, gone, hash, id) = revoked_in s f at n s1 email_str t i run there mine in
      let (v, later, way) = Reach-Kept email_str stable i1 r t.id u stored in
      let i2 = Reach-IsSound email_str stable i1 r in
      let same : v ≡ u = way.final gone in
      let stored' : lookup v.id s2.refresh_tokens_by_id ≡ some v = ground arith in
      let same_hash : v.token_hash ≡ t.token_hash = ground arith in
      let found =
        ((Rotation.get_by_token_hash_iff s2 t.token_hash i2.tokens).1 v).1 (stored', same_hash) in
      ground (
        arith,
        Rotation.mark_rotated_lem replacement at' s2 t.token_hash (some v) i2.tokens found,
        status_beq_iff v.status active,
      )
