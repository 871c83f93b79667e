-- ===== src/History/Kept.antt =====
-- What becomes of the stored refresh tokens in one call on the collection of tokens.
use flowtona.Common.{
  ℕ, ◌≤◌, ◌≡◌, ◌≢◌, refl, sym, ◌∙◌, ap, Text, Bool-cases, inl, inr, Option, none, some, arith,
  DateTime, Dict, lookup, insert, ok, ◌==◌, list_eq, nat_eq, rewrite_entry, Bool, true,
}
use flowtona.Exceptions.{Uuid}
use flowtona.Models.RefreshToken.{
  RefreshTokenRecord, Status, active, rotated, revoked, status_eq, status_beq_iff,
}
use flowtona.Models.RefreshToken.Validity.{as_rotated, as_revoked}
use flowtona.Store.{Store}
use flowtona.History.Lives
use flowtona.Repositories.RefreshTokenRepository
use flowtona.Repositories.RefreshTokenRepository.{get_by_token_hash, mark_rotated}
use flowtona.Repositories.RefreshTokenRepository.Revocation.{unrevoked, unrevoked_of}
use flowtona.Repositories.RefreshTokenRepository.Consistency as Tokens
use flowtona.Repositories.RefreshTokenRepository.Rotation
use flowtona.Repositories.RefreshTokenRepository.Families

-- How far a token has come.
abbrev pub rank : Status → ℕ
rank active = 0
rank rotated = 1
rank revoked = 2

-- What can become of a record: its identity is fixed, its status moves forward alone, a rotated
-- record keeps its successor, and a revoked one never changes.
pub record Evolves (t u : RefreshTokenRecord) : Type 0 where
  pub id : u.id ≡ t.id
  pub user : u.user_id ≡ t.user_id
  pub tenant : u.tenant_id ≡ t.tenant_id
  pub family : u.family_id ≡ t.family_id
  pub hash : u.token_hash ≡ t.token_hash
  pub issued : u.issued_at ≡ t.issued_at
  pub expires : u.expires_at ≡ t.expires_at
  pub forward : rank t.status ≤ rank u.status
  pub successor :
      t.status ≢ active
      → (u.replaced_by_token_id ≡ t.replaced_by_token_id) × (u.rotated_at ≡ t.rotated_at)
  pub final : t.status ≡ revoked → u ≡ t

Evolves-refl : (t : RefreshTokenRecord) → Evolves t t
Evolves-refl t = ground arith

pub not_active : (a b : Status) → rank a ≤ rank b → a ≢ active → b ≢ active
not_active a b forward over = ground arith

pub Evolves-trans : {t u v : RefreshTokenRecord} → Evolves t u → Evolves u v → Evolves t v
Evolves-trans {t} {u} {v} a b = record {
  id = b.id ∙ a.id;
  user = b.user ∙ a.user;
  tenant = b.tenant ∙ a.tenant;
  family = b.family ∙ a.family;
  hash = b.hash ∙ a.hash;
  issued = b.issued ∙ a.issued;
  expires = b.expires ∙ a.expires;
  forward = omega arith;
  successor = λ over.
      let still_over : u.status ≢ active = not_active t.status u.status a.forward over in
      (
        (b.successor still_over).0 ∙ (a.successor over).0,
        (b.successor still_over).1 ∙ (a.successor over).1,
      );
  final = λ gone.
      let same : u ≡ t = a.final gone in
      b.final (ap (λ (x : RefreshTokenRecord). x.status) same ∙ gone) ∙ same;
}

Evolves-as_rotated :
    (replacement : Uuid) (at : DateTime) (t : RefreshTokenRecord)
    → t.status ≡ active
    → Evolves t (as_rotated replacement at t)
Evolves-as_rotated replacement at t live = ground arith

Evolves-as_revoked :
    (at : DateTime) (t : RefreshTokenRecord) → t.status ≢ revoked → Evolves t (as_revoked at t)
Evolves-as_revoked at t live = ground arith

-- Every record of `d` is still in `d'`, as far as it has come.
abbrev pub Kept : Dict Uuid RefreshTokenRecord → Dict Uuid RefreshTokenRecord → Type 0
Kept = Lives.AllKept Evolves

pub Kept-same : {d d' : Dict Uuid RefreshTokenRecord} → d' ≡ d → Kept d d'
Kept-same same = Lives.AllKept-same Evolves Evolves-refl same

Kept-insert :
    (d : Dict Uuid RefreshTokenRecord) (i : Uuid) (u : RefreshTokenRecord)
    → ((t : RefreshTokenRecord) → lookup i d ≡ some t → Evolves t u)
    → Kept d (insert i u d)
Kept-insert = Lives.AllKept-insert Evolves Evolves-refl

pub Kept-trans : (d e f : Dict Uuid RefreshTokenRecord) → Kept d e → Kept e f → Kept d f
Kept-trans d e f = Lives.AllKept-trans Evolves d e f (λ t u v a b. Evolves-trans a b)

Kept-revoked :
    (at : DateTime) (test : RefreshTokenRecord → Bool) (d d' : Dict Uuid RefreshTokenRecord)
    → ((t : RefreshTokenRecord) → test t ≡ true → unrevoked t ≡ true)
    → ((k : Uuid) → lookup k d' ≡ rewrite_entry test (as_revoked at) (lookup k d))
    → Kept d d'
Kept-revoked at test d d' live pointwise k t found = elim (Bool-cases (test t)) [
  | inl p ↦ (
    as_revoked at t,
    ground (arith, pointwise k),
    Evolves-as_revoked at t (ground (arith, live t p)),
  )
  | inr p ↦ (t, ground (arith, pointwise k), Evolves-refl t)
]

abbrev pub tokens_of : Store → Dict Uuid RefreshTokenRecord
tokens_of s = s.refresh_tokens_by_id

module _ (s : Store) (c : Tokens.IsConsistent s) where
  pub Kept-create :
      (u t f : Uuid) (h : Text) (expires : DateTime) (id : Uuid) (now : DateTime)
      → lookup id (tokens_of s) ≡ none
      → Kept (tokens_of s) (tokens_of (RefreshTokenRepository.create u t f h expires id now s).1)
  Kept-create u t f h expires id now new = elim (Tokens.create_outcomes u t f h expires id now s) [
    | inl (e, run) ↦ rw run (Kept-same refl)
    | inr (run, _, _) ↦ rw run (
        Kept-insert (tokens_of s) id (Tokens.issued u t f h expires id now)
          (λ x found. absurd (ground arith)))
  ]

  pub Kept-mark_rotated :
      (h : Text) (replacement : Uuid) (at : DateTime)
      → Kept (tokens_of s) (tokens_of (mark_rotated h replacement at s).1)
  Kept-mark_rotated h replacement at =
      let ((o, found), means) = Rotation.get_by_token_hash_iff s h c in
      rw (Rotation.mark_rotated_lem replacement at s h o c found)
        (go o (λ t found_t. ((means t).0 (found ∙ ap (λ x. ok x) found_t)).0))
    where
      go :
          (o : Option RefreshTokenRecord)
          → ((t : RefreshTokenRecord) → o ≡ some t → lookup t.id (tokens_of s) ≡ some t)
          → Kept (tokens_of s) (tokens_of (Rotation.rotated_store replacement at o s))
      go none stored = Kept-same refl
      go (some t) stored = elim (Bool-cases (t.status == active)) [
        | inl live ↦ rw live (
            Kept-insert (tokens_of s) t.id (as_rotated replacement at t) (λ x there.
              let same : t ≡ x = ground (arith, stored t refl) in
              rw (sym same) (
                Evolves-as_rotated replacement at t
                  (ground (arith, status_beq_iff t.status active)))))
        | inr over ↦ rw over (Kept-same refl)
      ]

  pub Kept-revoke_family :
      (f : Uuid) (at : DateTime)
      → Kept (tokens_of s) (tokens_of (RefreshTokenRepository.revoke_family f at s).1)
  Kept-revoke_family f at =
      let (d, run, pointwise) = Families.revoke_family_lem at s c f in
      rw run
        (Kept-revoked at (Families.unrevoked_in f) (tokens_of s) d (λ t p. ground arith) pointwise)

  pub Kept-revoke_all_active :
      (u t : Uuid) (at : DateTime)
      → Kept (tokens_of s) (tokens_of (RefreshTokenRepository.revoke_all_active u t at s).1)
  Kept-revoke_all_active u t at =
      let (d, run, pointwise) = Families.revoke_all_active_lem at s c u t in
      rw run (Kept-revoked at (unrevoked_of u t) (tokens_of s) d (λ x p. ground arith) pointwise)
