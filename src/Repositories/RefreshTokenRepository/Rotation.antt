-- ===== src/Repositories/RefreshTokenRepository/Rotation.antt =====
-- `get_by_token_hash` and `mark_rotated` on a consistent store.
use flowtona.Common.{
  Text, ◌≡◌, refl, sym, ◌∙◌, ◌↔◌, inl, inr, Option, none, some, arith, DateTime, lookup, insert,
  lookup-insert, Result, ok, err, Bool-cases, ◌==◌, ==_iff, nat_eq, list_eq, if◌then◌else◌,
  IsIndexed-cases, refresh-IsIndexed, Refreshes-insert, insert-HasDistinctKeys,
}
use flowtona.Exceptions.{Uuid, Error, record_not_found, concurrent_update, by_uuid, by_text}
use flowtona.Models.RefreshToken.{RefreshTokenRecord, active, value, status_eq}
use flowtona.Models.RefreshToken.Validity.{as_rotated, validate-as_rotated}
use flowtona.Store.{Store}
use flowtona.Repositories.RefreshTokenRepository.{get_by_token_hash, mark_rotated}
use flowtona.Repositories.RefreshTokenRepository.Revocation.{with_tokens}
use flowtona.Repositories.RefreshTokenRepository.Consistency.{IsConsistent, id_of, OwnsHash}

get_by_token_hash_total :
    (s : Store) (h : Text)
    → IsConsistent s
    → (o : Option RefreshTokenRecord) × (get_by_token_hash h s ≡ ok o)
unfolding get_by_token_hash
get_by_token_hash_total s h c = elim (IsIndexed-cases id_of OwnsHash h c.indexed) [
  | inl absent ↦ (none, ground arith)
  | inr (k, u, leads, at, owns) ↦ (some u, ground arith)
]

get_by_token_hash_found :
    (s : Store) (h : Text) (t : RefreshTokenRecord)
    → IsConsistent s
    → (get_by_token_hash h s ≡ ok (some t))
      ↔ ((lookup t.id s.refresh_tokens_by_id ≡ some t) × (t.token_hash ≡ h))
unfolding get_by_token_hash
get_by_token_hash_found s h t c = elim (IsIndexed-cases id_of OwnsHash h c.indexed) [
  | inl absent ↦ (
    λ found. absurd (ground arith),
    λ (at, same). let (g, owns, leads) = c.indexed.reached t.id t at in absurd (ground arith),
  )
  | inr (k, u, leads, at, owns) ↦ (
    λ found. (ground (arith, c.indexed.own_id k u at), ground arith),
    λ (there, same). let (g, owns', leads') = c.indexed.reached t.id t there in ground arith,
  )
]

-- On a consistent store a lookup by hash never raises, and it finds a record exactly if that record is stored under its id and has the hash.
pub get_by_token_hash_iff :
    (s : Store) (h : Text)
    → IsConsistent s
    → ((o : Option RefreshTokenRecord) × (get_by_token_hash h s ≡ ok o))
      × ((t : RefreshTokenRecord)
          → (get_by_token_hash h s ≡ ok (some t))
            ↔ ((lookup t.id s.refresh_tokens_by_id ≡ some t) × (t.token_hash ≡ h)))
get_by_token_hash_iff s h c = (get_by_token_hash_total s h c, λ t. get_by_token_hash_found s h t c)

module _ (replacement : Uuid) (at : DateTime) where
  -- What `mark_rotated` does with what the lookup finds.
  abbrev pub rotation : Text → Option RefreshTokenRecord → Result Error RefreshTokenRecord
  rotation h none = err (record_not_found "refresh_token" (by_text h))
  rotation h (some t) =
      if t.status == active
      then ok (as_rotated replacement at t)
      else err
          (concurrent_update "refresh_token" (by_uuid t.id) (some "active") (some (value t.status)))

  -- What it leaves behind.
  abbrev pub rotated_store : Option RefreshTokenRecord → Store → Store
  rotated_store none s = s
  rotated_store (some t) s =
      if t.status == active
      then with_tokens s (insert t.id (as_rotated replacement at t) s.refresh_tokens_by_id)
      else s

  -- On a consistent store `mark_rotated`, given what the lookup by hash finds, never fails its own validation: it raises not-found with the hash for an unknown hash, raises a conflict with the actual status for a record that is not active, and otherwise rotates exactly that record and returns it; where it raises it changes nothing.
  pub mark_rotated_lem :
      (s : Store) (h : Text) (o : Option RefreshTokenRecord)
      → IsConsistent s
      → get_by_token_hash h s ≡ ok o
      → mark_rotated h replacement at s ≡ (rotation h o, rotated_store o s)
  unfolding get_by_token_hash mark_rotated
  mark_rotated_lem s h o c found = elim (IsIndexed-cases id_of OwnsHash h c.indexed) [
    | inl absent ↦ ground arith
    | inr (k, t, leads, there, owns) ↦ ground (
      arith,
      c.indexed.own_id k t there,
      validate-as_rotated replacement at t (c.storable k t there),
    )
  ]

  rotated-IsConsistent :
      (s : Store) (t : RefreshTokenRecord)
      → IsConsistent s
      → lookup t.id s.refresh_tokens_by_id ≡ some t
      → IsConsistent
          (with_tokens s (insert t.id (as_rotated replacement at t) s.refresh_tokens_by_id))
  rotated-IsConsistent s t c there = record {
    indexed =
        refresh-IsIndexed id_of OwnsHash
          (insert-HasDistinctKeys t.id t' s.refresh_tokens_by_id c.indexed.distinct)
          (Refreshes-insert id_of OwnsHash t.id t t' s.refresh_tokens_by_id there refl
            (λ h owns. owns))
          c.indexed;
    storable = λ k u found. ground (
      arith,
      changed k,
      validate-as_rotated replacement at t (c.storable t.id t there),
      c.storable k u,
    );
    grouped = λ k u found. ground (arith, changed k, c.grouped k u, c.grouped t.id t there);
    members = λ f k listed.
        let (u, found, family) = c.members f k listed in
        elim (Bool-cases (t.id == k)) [
          | inl here ↦ (t', ground (arith, changed k), ground arith)
          | inr other ↦ (u, ground (arith, changed k), family)
        ];
  }
    where
      t' : RefreshTokenRecord
      t' = as_rotated replacement at t

      changed :
          (k : Uuid)
          → lookup k (insert t.id t' s.refresh_tokens_by_id)
            ≡ (if t.id == k then some t' else lookup k s.refresh_tokens_by_id)
      changed k = lookup-insert k t.id t' s.refresh_tokens_by_id

  after_rotation-IsConsistent :
      (s : Store) (h : Text) (o : Option RefreshTokenRecord)
      → IsConsistent s
      → get_by_token_hash h s ≡ ok o
      → IsConsistent (rotated_store o s)
  after_rotation-IsConsistent s h none c found = c
  after_rotation-IsConsistent s h (some t) c found = elim (Bool-cases (t.status == active)) [
    | inl live ↦ rw live (rotated-IsConsistent s t c ((get_by_token_hash_found s h t c).0 found).0)
    | inr over ↦ rw over c
  ]

  -- From a consistent store `mark_rotated`, whether it succeeds or raises, leaves a consistent store.
  pub mark_rotated-IsConsistent :
      (s : Store) (h : Text) → IsConsistent s → IsConsistent (mark_rotated h replacement at s).1
  mark_rotated-IsConsistent s h c =
      let (o, found) = get_by_token_hash_total s h c in
      rw (mark_rotated_lem s h o c found) (after_rotation-IsConsistent s h o c found)

  get_after_insert :
      (s : Store) (h g : Text) (t : RefreshTokenRecord)
      → IsConsistent s
      → get_by_token_hash h s ≡ ok (some t)
      → let t' = as_rotated replacement at t in
        get_by_token_hash g (with_tokens s (insert t.id t' s.refresh_tokens_by_id))
        ≡ (if g == h then ok (some t') else get_by_token_hash g s)
  unfolding get_by_token_hash
  get_after_insert s h g t c found =
      let (there, same) = (get_by_token_hash_found s h t c).0 found in
      let (h', owns, leads) = c.indexed.reached t.id t there in
      elim (IsIndexed-cases id_of OwnsHash g c.indexed) [
        | inl absent ↦ ground (arith, ==_iff g h)
        | inr (k, v, to, at_k, owns') ↦ ground (
          arith,
          ==_iff g h,
          lookup-insert k t.id (as_rotated replacement at t) s.refresh_tokens_by_id,
        )
      ]

  -- After a successful rotation the hash finds the rotated version of the record that it found before, and every other hash finds what it found before.
  pub get-mark_rotated :
      (s s' : Store) (h : Text) (u : RefreshTokenRecord)
      → IsConsistent s
      → mark_rotated h replacement at s ≡ (ok u, s')
      → (t : RefreshTokenRecord) × (get_by_token_hash h s ≡ ok (some t))
        × (t.status ≡ active)
        × (u ≡ as_rotated replacement at t)
        × ((g : Text)
            → get_by_token_hash g s' ≡ (if g == h then ok (some u) else get_by_token_hash g s))
  get-mark_rotated s s' h u c run =
      let (o, found) = get_by_token_hash_total s h c in
      go o found (sym (mark_rotated_lem s h o c found) ∙ run)
    where
      go :
          (o : Option RefreshTokenRecord)
          → get_by_token_hash h s ≡ ok o
          → ◌≡◌ {A = Result Error RefreshTokenRecord × Store}
              (rotation h o, rotated_store o s)
              (ok u, s')
          → (t : RefreshTokenRecord) × (get_by_token_hash h s ≡ ok (some t))
            × (t.status ≡ active)
            × (u ≡ as_rotated replacement at t)
            × ((g : Text)
                → get_by_token_hash g s' ≡ (if g == h then ok (some u) else get_by_token_hash g s))
      go none found r = absurd (ground arith)
      go (some t) found r = (
        t,
        found,
        ground arith,
        ground arith,
        λ g. ground (arith, get_after_insert s h g t c found),
      )
