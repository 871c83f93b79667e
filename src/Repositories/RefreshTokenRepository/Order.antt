-- ===== src/Repositories/RefreshTokenRepository/Order.antt =====
-- The ids of a family are a set in the code, whose order Python leaves open: `revoke_family` does
-- the same whatever list stands for the set.
use flowtona.Common.{
  ℕ, ◌≡◌, sym, ◌∙◌, ok, DateTime, Dict, List, lookup, count_where, is_listed, nat_eq,
}
use flowtona.Exceptions.{Uuid}
use flowtona.Models.RefreshToken.{RefreshTokenRecord}
use flowtona.Store.{Store}
use flowtona.Repositories.RefreshTokenRepository.{revoke_family, ids_of}
use flowtona.Repositories.RefreshTokenRepository.Revocation.{with_tokens}
use flowtona.Repositories.RefreshTokenRepository.Consistency.{IsConsistent}
use flowtona.Repositories.RefreshTokenRepository.Families.{revoke_family_lem, unrevoked_in}

abbrev pub Groups : Type 0
Groups = Dict Uuid (List Uuid)

-- Lists with the same members for every family.
abbrev pub HaveSameMembers : Groups → Groups → Type 0
HaveSameMembers d e = (f k : Uuid) → is_listed k (ids_of f d) ≡ is_listed k (ids_of f e)

abbrev pub regrouped : Groups → Store → Store
regrouped d s = record s { refresh_token_ids_by_family = d }

module _ (s : Store) (d : Groups) (c : IsConsistent s)
    (same : HaveSameMembers d s.refresh_token_ids_by_family) where
  regrouped-IsConsistent : IsConsistent (regrouped d s)
  regrouped-IsConsistent = record {
    indexed = c.indexed;
    storable = c.storable;
    grouped = λ k t there. same t.family_id k ∙ c.grouped k t there;
    members = λ f k listed. c.members f k (sym (same f k) ∙ listed);
  }

  -- On a consistent store, and on the same store with other lists for the sets of ids, which have the same members in any order and any number, `revoke_family` returns the same number and leaves the same record under every id.
  pub revoke_family_unordered :
      (f : Uuid) (at : DateTime)
      → (n : ℕ) × (a : Dict Uuid RefreshTokenRecord) × (b : Dict Uuid RefreshTokenRecord)
        × (revoke_family f at s ≡ (ok n, with_tokens s a))
        × (revoke_family f at (regrouped d s) ≡ (ok n, with_tokens (regrouped d s) b))
        × ((k : Uuid) → lookup k b ≡ lookup k a)
  revoke_family_unordered f at =
      let (a, run, each) = revoke_family_lem at s c f in
      let (b, run', each') = revoke_family_lem at (regrouped d s) regrouped-IsConsistent f in
      (
        count_where (unrevoked_in f) s.refresh_tokens_by_id,
        a,
        b,
        run,
        run',
        λ k. each' k ∙ sym (each k),
      )
