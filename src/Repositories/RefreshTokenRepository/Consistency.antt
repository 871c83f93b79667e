-- ===== src/Repositories/RefreshTokenRepository/Consistency.antt =====
-- The records, the hash index and the family index of the refresh tokens, kept together.
use flowtona.Common.{
  Text, ◌≡◌, refl, ◌⊎◌, inl, inr, true, ◌||◌, none, some, List, arith, DateTime, Dict, lookup,
  insert, contains, lookup-insert, Result, ok, err, Result-cases, Bool-cases, ◌==◌, nat_eq, list_eq,
  if◌then◌else◌, is_listed, is_listed-append, IsIndexed, add-IsIndexed, empty-IsIndexed,
}
use flowtona.Exceptions.{Uuid, Error, duplicate_entry}
use flowtona.Models.RefreshToken.{RefreshTokenRecord, validate, fresh}
use flowtona.Models.RefreshToken.Validity.{validate_token_iff}
use flowtona.Store.{Store, empty}
use flowtona.Repositories.RefreshTokenRepository.{create, add, ids_of}
use flowtona.Repositories.RefreshTokenRepository.Revocation.{IsStorable}

abbrev pub id_of : RefreshTokenRecord → Uuid
id_of t = t.id

abbrev pub OwnsHash : Text → RefreshTokenRecord → Type 0
OwnsHash h t = h ≡ t.token_hash

pub record IsConsistent (s : Store) : Type 0 where
  pub indexed : IsIndexed id_of OwnsHash s.refresh_tokens_by_id s.refresh_token_id_by_hash
  pub storable :
      (k : Uuid) (t : RefreshTokenRecord) → lookup k s.refresh_tokens_by_id ≡ some t → IsStorable t
  pub grouped :
      (k : Uuid) (t : RefreshTokenRecord)
      → lookup k s.refresh_tokens_by_id ≡ some t
      → is_listed k (ids_of t.family_id s.refresh_token_ids_by_family) ≡ true
  pub members :
      (f k : Uuid)
      → is_listed k (ids_of f s.refresh_token_ids_by_family) ≡ true
      → (t : RefreshTokenRecord) × (lookup k s.refresh_tokens_by_id ≡ some t) × (t.family_id ≡ f)

pub empty-IsConsistent : IsConsistent empty
unfolding lookup is_listed
empty-IsConsistent = record {
  indexed = empty-IsIndexed id_of OwnsHash;
  storable = λ k t h. absurd (ground arith);
  grouped = λ k t h. absurd (ground arith);
  members = λ f k h. absurd (ground arith);
}

pub is_listed-add :
    (j i : Uuid) (ids : List Uuid) → is_listed j (add i ids) ≡ (j == i || is_listed j ids)
unfolding add
is_listed-add j i ids = ground (arith, is_listed-append j i ids)

abbrev Families : Type 0
Families = Dict Uuid (List Uuid)

abbrev enlist : Uuid → Uuid → Families → Families
enlist f i d = insert f (add i (ids_of f d)) d

is_listed-enlist :
    (j i f g : Uuid) (d : Families)
    → is_listed j (ids_of g (enlist f i d))
      ≡ (if f == g then j == i || is_listed j (ids_of g d) else is_listed j (ids_of g d))
is_listed-enlist j i f g d =
    ground (arith, lookup-insert g f (add i (ids_of f d)) d, is_listed-add j i (ids_of f d))

-- What a successful `create` writes.
abbrev pub added : RefreshTokenRecord → Store → Store
added t s = record s {
  refresh_tokens_by_id = insert t.id t s.refresh_tokens_by_id;
  refresh_token_id_by_hash = insert t.token_hash t.id s.refresh_token_id_by_hash;
  refresh_token_ids_by_family = enlist t.family_id t.id s.refresh_token_ids_by_family;
}

added-IsConsistent :
    (t : RefreshTokenRecord) (s : Store)
    → lookup t.id s.refresh_tokens_by_id ≡ none
    → lookup t.token_hash s.refresh_token_id_by_hash ≡ none
    → IsStorable t
    → IsConsistent s
    → IsConsistent (added t s)
added-IsConsistent t s new_id new_hash valid c = record {
  indexed =
      add-IsIndexed id_of OwnsHash t.token_hash t s.refresh_tokens_by_id s.refresh_token_id_by_hash
        new_id new_hash refl c.indexed;
  storable = λ k u h. ground (arith, lookup-insert k t.id t s.refresh_tokens_by_id, c.storable k u);
  grouped = λ k u h. ground (
    arith,
    lookup-insert k t.id t s.refresh_tokens_by_id,
    is_listed-enlist k t.id t.family_id u.family_id s.refresh_token_ids_by_family,
    c.grouped k u,
  );
  members = λ f k h. elim (Bool-cases (is_listed k (ids_of f s.refresh_token_ids_by_family))) [
    | inl old ↦
        let (u, found, family) = c.members f k old in
        (u, ground (arith, lookup-insert k t.id t s.refresh_tokens_by_id), family)
    | inr new ↦ (
      t,
      ground (
        arith,
        lookup-insert k t.id t s.refresh_tokens_by_id,
        is_listed-enlist k t.id t.family_id f s.refresh_token_ids_by_family,
      ),
      ground (arith, is_listed-enlist k t.id t.family_id f s.refresh_token_ids_by_family),
    )
  ];
}

module _ (user_id tenant_id family_id : Uuid) (token_hash : Text) (expires_at : DateTime)
    (id : Uuid) (now : DateTime) where
  abbrev pub issued : RefreshTokenRecord
  issued = fresh id user_id tenant_id family_id token_hash now expires_at

  -- What `create` answers, by whether the hash is taken and what the constructor says.
  abbrev pub answer : Store → Result Error RefreshTokenRecord
  answer s =
      if contains token_hash s.refresh_token_id_by_hash
      then err (duplicate_entry "refresh_token" "token_hash")
      else validate issued

  -- `create` raises a duplicate if the hash is taken, and else what the constructor raises, in both cases changing nothing; otherwise it stores the fresh active record under its id and indexes it by its hash and its family.
  pub create_token_lem :
      (s : Store)
      → create user_id tenant_id family_id token_hash expires_at id now s
        ≡ (answer s, elim (answer s) [ ok t ↦ added t s | err e ↦ s ])
  unfolding create
  create_token_lem s = elim (Bool-cases (contains token_hash s.refresh_token_id_by_hash)) [
    | inl taken ↦ ground arith
    | inr free ↦ elim (Result-cases (validate issued)) [
      | inl (e, refused) ↦ ground arith
      | inr (t, accepted) ↦ ground (arith, (validate_token_iff issued t).0 accepted)
    ]
  ]

  -- `create` raises and changes nothing, or stores the fresh record under a hash that was free.
  pub create_outcomes :
      (s : Store)
      → ((e : Error) × (create user_id tenant_id family_id token_hash expires_at id now s
            ≡ (err e, s)))
        ⊎ ((create user_id tenant_id family_id token_hash expires_at id now s
              ≡ (ok issued, added issued s))
            × (lookup token_hash s.refresh_token_id_by_hash ≡ none)
            × IsStorable issued)
  unfolding create
  create_outcomes s = elim (Bool-cases (contains token_hash s.refresh_token_id_by_hash)) [
    | inl taken ↦ inl (duplicate_entry "refresh_token" "token_hash", ground arith)
    | inr free ↦ elim (Result-cases (validate issued)) [
      | inl (e, refused) ↦ inl (e, ground arith)
      | inr (t, accepted) ↦ inr (
        ground (arith, (validate_token_iff issued t).0 accepted),
        ground arith,
        ground (arith, (validate_token_iff issued t).0 accepted),
      )
    ]
  ]

  -- `create`, whether it succeeds or raises, keeps the store consistent if the UUID that it draws is new.
  pub create-IsConsistent :
      (s : Store)
      → lookup id s.refresh_tokens_by_id ≡ none
      → IsConsistent s
      → IsConsistent (create user_id tenant_id family_id token_hash expires_at id now s).1
  create-IsConsistent s new_id c = elim (create_outcomes s) [
    | inl (e, run) ↦ rw run c
    | inr (run, new_hash, valid) ↦ rw run (added-IsConsistent issued s new_id new_hash valid c)
  ]

-- The invariant reads three fields alone.
pub frame-IsConsistent :
    {s s' : Store}
    → s'.refresh_tokens_by_id ≡ s.refresh_tokens_by_id
    → s'.refresh_token_id_by_hash ≡ s.refresh_token_id_by_hash
    → s'.refresh_token_ids_by_family ≡ s.refresh_token_ids_by_family
    → IsConsistent s
    → IsConsistent s'
frame-IsConsistent p q r c = record {
  indexed = rw (p, q) c.indexed;
  storable = rw p c.storable;
  grouped = rw (p, r) c.grouped;
  members = rw (p, r) c.members;
}
