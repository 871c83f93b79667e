-- ===== src/Protocols/RefreshTokens.antt =====
-- app/repositories/refresh_token_repository.py: class RefreshTokenRepository(Protocol).
-- A repository over any state is its operations; its docstrings are laws on the rows by id.
pub mod InMemory
use flowtona.Common.{
  ℕ, ◌≡◌, ◌≢◌, ◌↔◌, ◌⊎◌, inl, inr, refl, sym, ap, ◌∙◌, Text, Option, none, some, arith, DateTime,
  Result, ok, err, ◌==◌, ==_iff, nat_eq, if◌then◌else◌, rewrite_entry, lookup, lookup-insert,
  Bool-cases, Result-cases, Option-cases, HasCount,
}
use flowtona.Common.Action.{Action}
use flowtona.Exceptions.{Uuid, Error, record_not_found, concurrent_update, by_uuid, by_text}
use flowtona.Models.RefreshToken.{
  RefreshTokenRecord, active, value, fresh, status_eq, status_beq_iff,
}
use flowtona.Models.RefreshToken.Validity.{as_rotated, as_revoked}
use flowtona.Store.{Store}
use flowtona.Repositories.RefreshTokenRepository
use flowtona.Repositories.RefreshTokenRepository.Consistency
use flowtona.Repositories.RefreshTokenRepository.Rotation
use flowtona.Repositories.RefreshTokenRepository.Families
use flowtona.Repositories.RefreshTokenRepository.Revocation.{unrevoked_of}
use flowtona.Repositories.RefreshTokenRepository.Families.{unrevoked_in}

-- The methods; `create` is given the UUID and the time that it would draw.
pub record Operations (S : Type 0) : Type 0 where
  pub create :
      Uuid → Uuid → Uuid → Text → DateTime → Uuid → DateTime → Action Error S RefreshTokenRecord
  pub get_by_token_hash : Text → S → Result Error (Option RefreshTokenRecord)
  pub mark_rotated : Text → Uuid → DateTime → Action Error S RefreshTokenRecord
  pub revoke_family : Uuid → DateTime → Action Error S ℕ
  pub revoke_all_active : Uuid → Uuid → DateTime → Action Error S ℕ

-- Why `mark_rotated` refuses: by what the hash finds.
abbrev pub refusal : Text → Option RefreshTokenRecord → Error
refusal h none = record_not_found "refresh_token" (by_text h)
refusal h (some t) =
    concurrent_update "refresh_token" (by_uuid t.id) (some "active") (some (value t.status))

-- The promises, on the states that satisfy `IsGood`, where `row` reads the row of an id.
pub record MeetsProtocol {S : Type 0} (o : Operations S) (IsGood : S → Type 0)
    (row : Uuid → S → Option RefreshTokenRecord) : Type 0 where
  pub creates :
      (s s' : S) (user tenant family : Uuid) (h : Text) (expires : DateTime) (id : Uuid)
      (now : DateTime) (u : RefreshTokenRecord)
      → IsGood s
      → row id s ≡ none
      → o.create user tenant family h expires id now s ≡ (ok u, s')
      → (u ≡ fresh id user tenant family h now expires)
        × IsGood s'
        × ((k : Uuid) → row k s' ≡ (if id == k then some u else row k s))
  pub looks_up :
      (s : S) (h : Text)
      → IsGood s
      → (x : Option RefreshTokenRecord) × (o.get_by_token_hash h s ≡ ok x)
  pub finds :
      (s : S) (h : Text) (t : RefreshTokenRecord)
      → IsGood s
      → (o.get_by_token_hash h s ≡ ok (some t)) ↔ ((row t.id s ≡ some t) × (t.token_hash ≡ h))
  pub rotates :
      (s s' : S) (h : Text) (replacement : Uuid) (at : DateTime) (u : RefreshTokenRecord)
      → IsGood s
      → o.mark_rotated h replacement at s ≡ (ok u, s')
      → (t : RefreshTokenRecord) × (o.get_by_token_hash h s ≡ ok (some t))
        × (t.status ≡ active)
        × (u ≡ as_rotated replacement at t)
        × IsGood s'
        × ((k : Uuid) → row k s' ≡ (if t.id == k then some u else row k s))
  pub refuses :
      (s s' : S) (h : Text) (replacement : Uuid) (at : DateTime) (e : Error)
      → IsGood s
      → o.mark_rotated h replacement at s ≡ (err e, s')
      → (s' ≡ s)
        × ((x : Option RefreshTokenRecord)
            → o.get_by_token_hash h s ≡ ok x
            → (e ≡ refusal h x) × ((t : RefreshTokenRecord) → x ≡ some t → t.status ≢ active))
  pub ends_family :
      (s : S) (family : Uuid) (at : DateTime)
      → IsGood s
      → (n : ℕ) × (s' : S) × (o.revoke_family family at s ≡ (ok n, s'))
        × HasCount (unrevoked_in family) (λ k. row k s) n
        × IsGood s'
        × ((k : Uuid) → row k s' ≡ rewrite_entry (unrevoked_in family) (as_revoked at) (row k s))
  pub ends_all :
      (s : S) (user tenant : Uuid) (at : DateTime)
      → IsGood s
      → (n : ℕ) × (s' : S) × (o.revoke_all_active user tenant at s ≡ (ok n, s'))
        × HasCount (unrevoked_of user tenant) (λ k. row k s) n
        × IsGood s'
        × ((k : Uuid)
            → row k s' ≡ rewrite_entry (unrevoked_of user tenant) (as_revoked at) (row k s))

-- What a row of the family has become after the family is revoked.
spent :
    (family : Uuid) (at : DateTime) (before : Option RefreshTokenRecord) (t : RefreshTokenRecord)
    → some t ≡ rewrite_entry (unrevoked_in family) (as_revoked at) before
    → t.family_id ≡ family
    → t.status ≢ active
spent family at none t now mine = absurd (ground arith)
spent family at (some u) t now mine = ground (arith, ==_iff u.family_id family)

module _ {S : Type 0} (o : Operations S) (IsGood : S → Type 0)
    (row : Uuid → S → Option RefreshTokenRecord) (meets : MeetsProtocol o IsGood row) where
  -- A token that is not active cannot be rotated.
  rotation_refused :
      (s : S) (h : Text) (replacement : Uuid) (at : DateTime) (t : RefreshTokenRecord)
      → IsGood s
      → o.get_by_token_hash h s ≡ ok (some t)
      → t.status ≢ active
      → (e : Error) × (o.mark_rotated h replacement at s ≡ (err e, s))
  rotation_refused s h replacement at t good found over =
      go (o.mark_rotated h replacement at s).0 (o.mark_rotated h replacement at s).1 refl
    where
      go :
          (a : Result Error RefreshTokenRecord) (s' : S)
          → ◌≡◌ {A = Result Error RefreshTokenRecord × S}
              (o.mark_rotated h replacement at s)
              (a, s')
          → (e : Error) × (o.mark_rotated h replacement at s ≡ (err e, s))
      go (err e) s' run =
          (e, run ∙ ap (λ (x : S). (err e, x)) (meets.refuses s s' h replacement at e good run).0)
      go (ok u) s' run =
          let (t', found', live, _, _, _) = meets.rotates s s' h replacement at u good run in
          absurd (ground arith)

  -- Whatever repository keeps the protocol: after a logout of a family, no token of that family can be rotated; the attempt raises and changes nothing.
  pub logout_ends_family :
      (s : S) (family : Uuid) (at : DateTime) (h : Text) (t : RefreshTokenRecord)
      (replacement : Uuid) (later : DateTime)
      → IsGood s
      → let s' = (o.revoke_family family at s).1 in
        o.get_by_token_hash h s' ≡ ok (some t)
        → t.family_id ≡ family
        → (e : Error) × (o.mark_rotated h replacement later s' ≡ (err e, s'))
  logout_ends_family s family at h t replacement later good found mine =
      let (n, s', run, counted, good', rows) = meets.ends_family s family at good in
      let same : (o.revoke_family family at s).1 ≡ s' = ap (λ (x : Result Error ℕ × S). x.1) run in
      let found' : o.get_by_token_hash h s' ≡ ok (some t) =
        sym (ap (λ x. o.get_by_token_hash h x) same) ∙ found in
      let stored : row t.id s' ≡ some t = ((meets.finds s' h t good').0 found').0 in
      rw same (
        rotation_refused s' h replacement later t good' found'
          (spent family at (row t.id s) t (sym stored ∙ rows t.id) mine))
