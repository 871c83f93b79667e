-- ===== src/Repositories/RefreshTokenRepository/Families.antt =====
-- `revoke_family` and `revoke_all_active` on a consistent store: which records they revoke, how
-- many they report, and that the store stays consistent.
use flowtona.Common.{
  ◌≡◌, refl, ◌⊎◌, inl, inr, Bool-cases, Option-cases, Bool, true, false, ◌&&◌, Option, none, some,
  List, arith, DateTime, lookup, ok, ◌==◌, ==_iff, nat_eq, count_where, is_listed, sweep,
  sweep_keys, tally_keys, lookup-sweep_keys, lookup-sweep_self, tally_keys-count, count_where_none,
  AllValues-of_lookup, rewrite_entry, HasDistinctKeys, sweep_keys-HasDistinctKeys,
  sweep-HasDistinctKeys, refresh-IsIndexed, Refreshes-rewrite, rewritten_from, rewritten_to,
  list_eq,
}
use flowtona.Exceptions.{Uuid}
use flowtona.Models.RefreshToken.{RefreshTokenRecord, status_eq}
use flowtona.Models.RefreshToken.Validity.{as_revoked, validate-as_revoked}
use flowtona.Store.{Store}
use flowtona.Repositories.RefreshTokenRepository.{revoke_family, revoke_all_active, ids_of}
use flowtona.Repositories.RefreshTokenRepository.Revocation.{
  Tokens, with_tokens, unrevoked, unrevoked_of, AreStored, IsStorable, revoke_members_lem,
  revoke_items_lem,
}
use flowtona.Repositories.RefreshTokenRepository.Consistency.{IsConsistent, id_of, OwnsHash}

-- The records that `revoke_family` promises to revoke.
abbrev pub unrevoked_in : Uuid → RefreshTokenRecord → Bool
unrevoked_in family_id t = t.family_id == family_id && unrevoked t

revoked_stops :
    (at : DateTime) (t : RefreshTokenRecord)
    → unrevoked t ≡ true
    → unrevoked (as_revoked at t) ≡ false
revoked_stops at t live = refl

module _ (at : DateTime) (s : Store) (c : IsConsistent s) where
  abbrev tokens : Tokens
  tokens = s.refresh_tokens_by_id

  -- Revoking some of the records touches nothing that the indexes read.
  revoked-IsConsistent :
      (test : RefreshTokenRecord → Bool) (d : Tokens)
      → HasDistinctKeys d
      → ((k : Uuid)
          → (lookup k d ≡ lookup k tokens)
            ⊎ (lookup k d ≡ rewrite_entry test (as_revoked at) (lookup k tokens)))
      → IsConsistent (with_tokens s d)
  revoked-IsConsistent test d distinct pointwise = record {
    indexed =
        refresh-IsIndexed id_of OwnsHash distinct
          (Refreshes-rewrite id_of OwnsHash test (as_revoked at) tokens d (λ t. refl)
            (λ h t owns. owns) pointwise)
          c.indexed;
    storable = λ k u found.
        let (t, before, how) =
          rewritten_from test (as_revoked at) (lookup k tokens) (lookup k d) u (pointwise k)
            found in
        ground (arith, c.storable k t before, validate-as_revoked at t (c.storable k t before));
    grouped = λ k u found.
        let (t, before, how) =
          rewritten_from test (as_revoked at) (lookup k tokens) (lookup k d) u (pointwise k)
            found in
        ground (arith, c.grouped k t before);
    members = λ f k listed.
        let (t, found, family) = c.members f k listed in
        let (u, after, how) =
          rewritten_to test (as_revoked at) (lookup k tokens) (lookup k d) t (pointwise k) found in
        (u, after, ground arith);
  }

  module _ (family_id : Uuid) where
    abbrev ids : List Uuid
    ids = ids_of family_id s.refresh_token_ids_by_family

    abbrev family_after : Tokens
    family_after = sweep_keys unrevoked (as_revoked at) ids tokens

    members_stored : AreStored ids tokens
    members_stored k listed =
        let (t, found, family) = c.members family_id k listed in (t, found, c.storable k t found)

    listed_in_family :
        (k : Uuid) (t : RefreshTokenRecord)
        → lookup k tokens ≡ some t
        → is_listed k ids ≡ (t.family_id == family_id)
    listed_in_family k t found = elim (Bool-cases (is_listed k ids)) [
      | inl listed ↦
          let (u, at_k, family) = c.members family_id k listed in
          ground (arith, ==_iff t.family_id family_id)
      | inr absent ↦ ground (arith, c.grouped k t found)
    ]

    lookup-family_after :
        (k : Uuid)
        → lookup k family_after
          ≡ rewrite_entry (unrevoked_in family_id) (as_revoked at) (lookup k tokens)
    lookup-family_after k = elim (Option-cases (lookup k tokens)) [
      | inl absent ↦
          ground
            (arith, lookup-sweep_keys unrevoked (as_revoked at) (revoked_stops at) k ids tokens)
      | inr (t, found) ↦ ground (
        arith,
        lookup-sweep_keys unrevoked (as_revoked at) (revoked_stops at) k ids tokens,
        listed_in_family k t found,
      )
    ]

    tally-family_after :
        tally_keys unrevoked (as_revoked at) ids tokens
        ≡ count_where (unrevoked_in family_id) tokens
    tally-family_after = ground (
      arith,
      tally_keys-count unrevoked (as_revoked at) (unrevoked_in family_id) (revoked_stops at)
          (λ t live. ground arith) ids tokens
          (λ k t listed found. ground (arith, listed_in_family k t found)),
      count_where_none (unrevoked_in family_id) family_after
          (sweep_keys-HasDistinctKeys unrevoked (as_revoked at) ids tokens c.indexed.distinct)
          (λ k t found. gone (lookup k tokens) t (lookup-family_after k) found),
    )
      where
        gone :
            (o : Option RefreshTokenRecord) (t : RefreshTokenRecord)
            {o' : Option RefreshTokenRecord}
            → o' ≡ rewrite_entry (unrevoked_in family_id) (as_revoked at) o
            → o' ≡ some t
            → unrevoked_in family_id t ≡ false
        gone none t e found = absurd (ground arith)
        gone (some u) t e found = ground arith

    -- On a consistent store `revoke_family` revokes, at the given time, exactly the records of the family that were not revoked, changes no other record and no index, and returns how many it revoked.
    pub revoke_family_lem :
        (d : Tokens) × (revoke_family family_id at s
          ≡ (ok (count_where (unrevoked_in family_id) s.refresh_tokens_by_id), with_tokens s d))
        × ((k : Uuid)
            → lookup k d
              ≡ rewrite_entry
                  (unrevoked_in family_id)
                  (as_revoked at)
                  (lookup k s.refresh_tokens_by_id))
    unfolding revoke_family
    revoke_family_lem = (
      family_after,
      ground (arith, revoke_members_lem at ids 0 s members_stored, tally-family_after),
      lookup-family_after,
    )

    -- After `revoke_family` the store is still consistent.
    pub revoke_family-IsConsistent : IsConsistent (revoke_family family_id at s).1
    unfolding revoke_family
    revoke_family-IsConsistent = rw (revoke_members_lem at ids 0 s members_stored) (
        revoked-IsConsistent (unrevoked_in family_id) family_after
          (sweep_keys-HasDistinctKeys unrevoked (as_revoked at) ids tokens c.indexed.distinct)
          (λ k. inr (lookup-family_after k)))

  module _ (user_id tenant_id : Uuid) where
    abbrev scope_after : Tokens
    scope_after = sweep (unrevoked_of user_id tenant_id) (as_revoked at) tokens tokens

    lookup-scope_after :
        (k : Uuid)
        → lookup k scope_after
          ≡ rewrite_entry (unrevoked_of user_id tenant_id) (as_revoked at) (lookup k tokens)
    lookup-scope_after k =
        lookup-sweep_self (unrevoked_of user_id tenant_id) (as_revoked at) k tokens
          c.indexed.distinct

    run_scope :
        revoke_all_active user_id tenant_id at s
        ≡ (ok (count_where (unrevoked_of user_id tenant_id) tokens), with_tokens s scope_after)
    unfolding revoke_all_active
    run_scope = ground (
      arith,
      revoke_items_lem at user_id tenant_id tokens 0 s
          (AllValues-of_lookup IsStorable tokens c.indexed.distinct c.storable),
    )

    -- On a consistent store `revoke_all_active` revokes, at the given time, exactly the records of the user in the tenant that were not revoked, in whatever family, changes no other record and no index, and returns how many it revoked.
    pub revoke_all_active_lem :
        (d : Tokens) × (revoke_all_active user_id tenant_id at s ≡ (
          ok (count_where (unrevoked_of user_id tenant_id) s.refresh_tokens_by_id),
          with_tokens s d,
        ))
        × ((k : Uuid)
            → lookup k d
              ≡ rewrite_entry
                  (unrevoked_of user_id tenant_id)
                  (as_revoked at)
                  (lookup k s.refresh_tokens_by_id))
    revoke_all_active_lem = (scope_after, run_scope, lookup-scope_after)

    -- After `revoke_all_active` the store is still consistent.
    pub revoke_all_active-IsConsistent : IsConsistent (revoke_all_active user_id tenant_id at s).1
    revoke_all_active-IsConsistent = rw run_scope (
        revoked-IsConsistent (unrevoked_of user_id tenant_id) scope_after
          (sweep-HasDistinctKeys (unrevoked_of user_id tenant_id) (as_revoked at) tokens tokens
            c.indexed.distinct)
          (λ k. inr (lookup-scope_after k)))
