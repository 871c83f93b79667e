-- ===== src/Protocols/RefreshTokens/InMemory.antt =====
-- InMemoryRefreshTokenRepository as an implementation of the protocol.
use flowtona.Common.{
  ◌≡◌, ◌≢◌, inl, inr, sym, ◌∙◌, Text, Option, none, some, arith, DateTime, Result, ok, err, ◌==◌,
  nat_eq, lookup, lookup-insert, Bool-cases, count_where-HasCount,
}
use flowtona.Common.Action.{at_end}
use flowtona.Exceptions.{Uuid, Error}
use flowtona.Models.RefreshToken.{RefreshTokenRecord, active, status_eq, status_beq_iff}
use flowtona.Store.{Store}
use flowtona.Repositories.RefreshTokenRepository
use flowtona.Repositories.RefreshTokenRepository.Consistency
use flowtona.Repositories.RefreshTokenRepository.Rotation
use flowtona.Repositories.RefreshTokenRepository.Families
use flowtona.Repositories.RefreshTokenRepository.Families.{unrevoked_in}
use flowtona.Repositories.RefreshTokenRepository.Revocation.{unrevoked_of}
use flowtona.Protocols.RefreshTokens.{Operations, MeetsProtocol, refusal}

-- The in-memory repository as an implementation.
abbrev pub in_memory : Operations Store
in_memory = record {
  create = RefreshTokenRepository.create;
  get_by_token_hash = RefreshTokenRepository.get_by_token_hash;
  mark_rotated = RefreshTokenRepository.mark_rotated;
  revoke_family = RefreshTokenRepository.revoke_family;
  revoke_all_active = RefreshTokenRepository.revoke_all_active;
}

abbrev pub row_of : Uuid → Store → Option RefreshTokenRecord
row_of k s = lookup k s.refresh_tokens_by_id

created :
    (s s' : Store) (user tenant family : Uuid) (h : Text) (expires : DateTime) (id : Uuid)
    (now : DateTime) (u : RefreshTokenRecord)
    → RefreshTokenRepository.create user tenant family h expires id now s ≡ (ok u, s')
    → (u ≡ Consistency.issued user tenant family h expires id now)
      × (s' ≡ Consistency.added (Consistency.issued user tenant family h expires id now) s)
created s s' user tenant family h expires id now u run =
    elim (Consistency.create_outcomes user tenant family h expires id now s) [
      | inl (e, raised) ↦ absurd (ground arith)
      | inr (returned, _, _) ↦ (ground arith, ground arith)
    ]

refused :
    (s s' : Store) (h : Text) (replacement : Uuid) (at : DateTime) (e : Error)
    (x : Option RefreshTokenRecord)
    → ◌≡◌ {A = Result Error RefreshTokenRecord × Store}
        (Rotation.rotation replacement at h x, Rotation.rotated_store replacement at x s)
        (err e, s')
    → (s' ≡ s) × (e ≡ refusal h x) × ((t : RefreshTokenRecord) → x ≡ some t → t.status ≢ active)
refused s s' h replacement at e none run =
    (ground arith, ground arith, λ t found. absurd (ground arith))
refused s s' h replacement at e (some u) run = elim (Bool-cases (u.status == active)) [
  | inl live ↦ absurd (ground arith)
  | inr over ↦
      (ground arith, ground arith, λ t found. ground (arith, status_beq_iff u.status active))
]

-- On every consistent store the in-memory repository keeps the protocol of refresh tokens: a `create` that succeeds under a new UUID makes the given record, stores it and changes no other row, `get_by_token_hash` never raises and finds exactly the stored record with the hash, `mark_rotated` rotates an active record and otherwise raises not-found, or a conflict with the actual status, and changes nothing, and the two revocations revoke exactly the unrevoked records in their scope and return how many those are.
pub in_memory-MeetsProtocol : MeetsProtocol in_memory Consistency.IsConsistent row_of
in_memory-MeetsProtocol = record {
  creates = λ s s' user tenant family h expires id now u c new run.
      let (made, after) = created s s' user tenant family h expires id now u run in
      (
        made,
        at_end Consistency.IsConsistent run
            (Consistency.create-IsConsistent user tenant family h expires id now s new c),
        λ k. ground (arith, lookup-insert k id u s.refresh_tokens_by_id),
      );
  looks_up = λ s h c. (Rotation.get_by_token_hash_iff s h c).0;
  finds = λ s h t c. (Rotation.get_by_token_hash_iff s h c).1 t;
  rotates = λ s s' h replacement at u c run.
      let (t, found, live, made, rest) = Rotation.get-mark_rotated replacement at s s' h u c run in
      (
        t,
        found,
        live,
        made,
        at_end Consistency.IsConsistent run
            (Rotation.mark_rotated-IsConsistent replacement at s h c),
        λ k. ground (
          arith,
          Rotation.mark_rotated_lem replacement at s h (some t) c found,
          lookup-insert k t.id u s.refresh_tokens_by_id,
        ),
      );
  refuses = λ s s' h replacement at e c run.
      let ((x, found), _) = Rotation.get_by_token_hash_iff s h c in
      let (unchanged, why, over) =
        refused s s' h replacement at e x
          (sym (Rotation.mark_rotated_lem replacement at s h x c found) ∙ run) in
      (
        unchanged,
        λ y found_y.
            let same : x ≡ y = ground arith in
            (ground (arith, why, same), λ t is_t. over t (same ∙ is_t)),
      );
  ends_family = λ s family at c.
      let (d, run, rows) = Families.revoke_family_lem at s c family in
      (
        _,
        _,
        run,
        count_where-HasCount (unrevoked_in family) s.refresh_tokens_by_id c.indexed.distinct,
        at_end Consistency.IsConsistent run (Families.revoke_family-IsConsistent at s c family),
        rows,
      );
  ends_all = λ s user tenant at c.
      let (d, run, rows) = Families.revoke_all_active_lem at s c user tenant in
      (
        _,
        _,
        run,
        count_where-HasCount (unrevoked_of user tenant) s.refresh_tokens_by_id c.indexed.distinct,
        at_end Consistency.IsConsistent run
            (Families.revoke_all_active-IsConsistent at s c user tenant),
        rows,
      );
}
