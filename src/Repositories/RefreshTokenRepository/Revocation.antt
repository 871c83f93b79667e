-- ===== src/Repositories/RefreshTokenRepository/Revocation.antt =====
-- The two loops of the refresh-token repository that revoke, as sweeps over the records.
use flowtona.Common.{
  ℕ, ◌+◌, ◌≡◌, refl, Bool, true, not, ◌&&◌, some, List, [], ◌∷◌, arith, DateTime, Dict, lookup,
  insert, ok, ◌==◌, ==_iff, nat_eq, if◌then◌else◌, count_where, one_if, is_listed, sweep, sweep_key,
  sweep_keys, tally_found, tally_keys, lookup-sweep_key, AllValues, rewrite, listed_head,
}
use flowtona.Common.Action.{for_each}
use flowtona.Exceptions.{Uuid}
use flowtona.Models.RefreshToken.{RefreshTokenRecord, revoked, validate, status_eq}
use flowtona.Models.RefreshToken.Validity.{as_revoked, validate-as_revoked}
use flowtona.Store.{Store}
use flowtona.Repositories.RefreshTokenRepository.{revoke, revoke_member, revoke_item}

abbrev pub Tokens : Type 0
Tokens = Dict Uuid RefreshTokenRecord

abbrev pub with_tokens : Store → Tokens → Store
with_tokens s d = record s { refresh_tokens_by_id = d }

-- what `revoke_family` tests
abbrev pub unrevoked : RefreshTokenRecord → Bool
unrevoked t = not (t.status == revoked)

-- what `revoke_all_active` tests
abbrev pub unrevoked_of : Uuid → Uuid → RefreshTokenRecord → Bool
unrevoked_of user_id tenant_id t = t.user_id == user_id && t.tenant_id == tenant_id && unrevoked t

abbrev pub IsStorable : RefreshTokenRecord → Type 0
IsStorable t = validate t ≡ ok t

-- Each listed key has a record that the constructor accepts.
abbrev pub AreStored : List Uuid → Tokens → Type 0
AreStored ks d =
    (k : Uuid)
    → is_listed k ks ≡ true
    → (t : RefreshTokenRecord) × (lookup k d ≡ some t) × IsStorable t

module _ (at : DateTime) where
  revoke_lem :
      (n : ℕ) (k : Uuid) (t : RefreshTokenRecord) (s : Store)
      → IsStorable t
      → revoke at n k t s
        ≡ (ok (n + 1), with_tokens s (insert k (as_revoked at t) s.refresh_tokens_by_id))
  unfolding revoke
  revoke_lem n k t s h = rw (validate-as_revoked at t h) refl

  revoke_member_lem :
      (n : ℕ) (k : Uuid) (t : RefreshTokenRecord) (s : Store)
      → lookup k s.refresh_tokens_by_id ≡ some t
      → IsStorable t
      → revoke_member at n k s ≡ (
        ok (n + tally_found unrevoked (lookup k s.refresh_tokens_by_id)),
        with_tokens s (sweep_key unrevoked (as_revoked at) k s.refresh_tokens_by_id),
      )
  unfolding revoke_member
  revoke_member_lem n k t s h valid = ground (arith, revoke_lem n k t s valid)

  revoke_item_lem :
      (user_id tenant_id : Uuid) (n : ℕ) (k : Uuid) (t : RefreshTokenRecord) (s : Store)
      → IsStorable t
      → revoke_item user_id tenant_id at n (k, t) s ≡ (
        ok (n + one_if (unrevoked_of user_id tenant_id) t),
        with_tokens s (
            if unrevoked_of user_id tenant_id t
            then insert k (as_revoked at t) s.refresh_tokens_by_id
            else s.refresh_tokens_by_id),
      )
  unfolding revoke_item
  revoke_item_lem user_id tenant_id n k t s valid = ground (arith, revoke_lem n k t s valid)

  AreStored-sweep_key :
      (k : Uuid) (ks : List Uuid) (d : Tokens)
      → AreStored (k ∷ ks) d
      → AreStored ks (sweep_key unrevoked (as_revoked at) k d)
  unfolding is_listed
  AreStored-sweep_key k ks d stored j listed =
      let (t, found, valid) = stored j (ground arith) in
      (
        rewrite_at t,
        ground (arith, lookup-sweep_key unrevoked (as_revoked at) j k d, ==_iff k j),
        ground (arith, validate-as_revoked at t valid),
      )
    where
      rewrite_at : RefreshTokenRecord → RefreshTokenRecord
      rewrite_at t = if k == j then rewrite unrevoked (as_revoked at) t else t

  pub revoke_members_lem :
      (ks : List Uuid) (n : ℕ) (s : Store)
      → AreStored ks s.refresh_tokens_by_id
      → for_each (revoke_member at) ks n s ≡ (
        ok (n + tally_keys unrevoked (as_revoked at) ks s.refresh_tokens_by_id),
        with_tokens s (sweep_keys unrevoked (as_revoked at) ks s.refresh_tokens_by_id),
      )
  unfolding for_each tally_keys sweep_keys
  revoke_members_lem [] n s stored = ground arith
  revoke_members_lem (k ∷ ks) n s stored =
      let (t, found, valid) = stored k (ground (arith, listed_head k ks)) in
      rw (revoke_member_lem n k t s found valid) (
        ground (
          arith,
          revoke_members_lem ks (n + tally_found unrevoked (lookup k s.refresh_tokens_by_id))
              (with_tokens s (sweep_key unrevoked (as_revoked at) k s.refresh_tokens_by_id))
              (AreStored-sweep_key k ks s.refresh_tokens_by_id stored),
        ))

  pub revoke_items_lem :
      (user_id tenant_id : Uuid) (rest : Tokens) (n : ℕ) (s : Store)
      → AllValues IsStorable rest
      → for_each (revoke_item user_id tenant_id at) rest n s ≡ (
        ok (n + count_where (unrevoked_of user_id tenant_id) rest),
        with_tokens s
            (sweep (unrevoked_of user_id tenant_id) (as_revoked at) rest s.refresh_tokens_by_id),
      )
  unfolding for_each count_where sweep
  revoke_items_lem user_id tenant_id [] n s valid = ground arith
  revoke_items_lem user_id tenant_id ((k, t) ∷ rest) n s valid =
      rw (revoke_item_lem user_id tenant_id n k t s valid.0) (
        ground (
          arith,
          revoke_items_lem user_id tenant_id rest (n + one_if (unrevoked_of user_id tenant_id) t)
              (with_tokens s (
                if unrevoked_of user_id tenant_id t
                then insert k (as_revoked at t) s.refresh_tokens_by_id
                else s.refresh_tokens_by_id))
              valid.1,
        ))
