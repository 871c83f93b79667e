-- ===== src/Repositories/RefreshTokenRepository/View.antt =====
-- The refresh tokens without the order in which the dictionary has them: a quotient of the
-- collection, and `revoke_family` as an operation on it.
use mathlib.Core.Quot
use mathlib.Core.Quot.{Quot, Quot-set}
use flowtona.Common.{
  ◌≡◌, ◌≢◌, refl, sym, ◌∙◌, ap, arith, Bool, Option, none, some, DateTime, Dict, [], ◌∷◌, lookup,
  rewrite_entry, rewrite, ==_iff, nat_eq,
}
use flowtona.Exceptions.{Uuid}
use flowtona.Models.RefreshToken.{RefreshTokenRecord}
use flowtona.Models.RefreshToken.Validity.{as_revoked}
use flowtona.Store.{Store}
use flowtona.Repositories.RefreshTokenRepository.{revoke_family}
use flowtona.Repositories.RefreshTokenRepository.Consistency.{IsConsistent}
use flowtona.Repositories.RefreshTokenRepository.Families.{
  revoke_family_lem, revoke_family-IsConsistent, unrevoked_in,
}

abbrev pub Tokens : Type 0
Tokens = Dict Uuid RefreshTokenRecord

-- The same record, or none, under every id.
abbrev pub HaveSameRecords : Tokens → Tokens → Type 0
HaveSameRecords d e = (k : Uuid) → lookup k d ≡ lookup k e

abbrev pub View : Type 0
View = Quot HaveSameRecords

abbrev pub view : Store → View
view s = Quot.mk s.refresh_tokens_by_id

module _ (test : RefreshTokenRecord → Bool) (g : RefreshTokenRecord → RefreshTokenRecord) where
  abbrev pub rewrite_all : Tokens → Tokens
  rewrite_all [] = []
  rewrite_all ((k, t) ∷ d) = (k, rewrite test g t) ∷ rewrite_all d

  pub lookup-rewrite_all :
      (k : Uuid) (d : Tokens) → lookup k (rewrite_all d) ≡ rewrite_entry test g (lookup k d)
  unfolding lookup
  lookup-rewrite_all k [] = refl
  lookup-rewrite_all k ((j, t) ∷ d) = ground (arith, lookup-rewrite_all k d)

  -- Every record that passes the test is changed.
  abbrev pub rewrite_view : View → View
  rewrite_view =
      Quot.lift Quot-set (λ d. Quot.mk (rewrite_all d))
        (λ d e same. Quot.sound (λ k.
          lookup-rewrite_all k d
          ∙ ap (rewrite_entry test g) (same k)
          ∙ sym (lookup-rewrite_all k e)))

-- What `revoke_family` is on views.
abbrev pub revoke_view : Uuid → DateTime → View → View
revoke_view f at = rewrite_view (unrevoked_in f) (as_revoked at)

revoked_entries_commute :
    (f g : Uuid) (at at' : DateTime) (o : Option RefreshTokenRecord)
    → f ≢ g
    → rewrite_entry
        (unrevoked_in f)
        (as_revoked at)
        (rewrite_entry (unrevoked_in g) (as_revoked at') o)
      ≡ rewrite_entry
          (unrevoked_in g)
          (as_revoked at')
          (rewrite_entry (unrevoked_in f) (as_revoked at) o)
revoked_entries_commute f g at at' none apart = refl
revoked_entries_commute f g at at' (some t) apart =
    ground (arith, ==_iff t.family_id f, ==_iff t.family_id g)

-- Two different families, in either order.
revoke_view_comm :
    (f g : Uuid) (at at' : DateTime) (v : View)
    → f ≢ g
    → revoke_view f at (revoke_view g at' v) ≡ revoke_view g at' (revoke_view f at v)
revoke_view_comm f g at at' v apart =
    Quot.ind
      {β = λ v. revoke_view f at (revoke_view g at' v) ≡ revoke_view g at' (revoke_view f at v)}
      (λ w. Quot-set _ _)
      (λ d. Quot.sound (λ k. ground (
        arith,
        lookup-rewrite_all (unrevoked_in f) (as_revoked at) k
            (rewrite_all (unrevoked_in g) (as_revoked at') d),
        lookup-rewrite_all (unrevoked_in g) (as_revoked at') k d,
        lookup-rewrite_all (unrevoked_in g) (as_revoked at') k
            (rewrite_all (unrevoked_in f) (as_revoked at) d),
        lookup-rewrite_all (unrevoked_in f) (as_revoked at) k d,
        revoked_entries_commute f g at at' (lookup k d) apart,
      )))
      v

-- On a consistent store `revoke_family` is `revoke_view` of the view of the store.
pub revoke_family_view :
    (s : Store) (f : Uuid) (at : DateTime)
    → IsConsistent s
    → view (revoke_family f at s).1 ≡ revoke_view f at (view s)
revoke_family_view s f at c =
    let (d, run, each) = revoke_family_lem at s c f in
    rw run (
      Quot.sound (λ k.
        each k
        ∙ sym (lookup-rewrite_all (unrevoked_in f) (as_revoked at) k s.refresh_tokens_by_id)))

-- Two logouts, of different families and at whatever times, leave on a consistent store the same records in either order.
pub logouts_commute :
    (s : Store) (f g : Uuid) (at at' : DateTime)
    → IsConsistent s
    → f ≢ g
    → view (revoke_family g at' (revoke_family f at s).1).1
      ≡ view (revoke_family f at (revoke_family g at' s).1).1
logouts_commute s f g at at' c apart =
    revoke_family_view (revoke_family f at s).1 g at' (revoke_family-IsConsistent at s c f)
    ∙ ap (revoke_view g at') (revoke_family_view s f at c)
    ∙ sym (revoke_view_comm f g at at' (view s) apart)
    ∙ sym (ap (revoke_view f at) (revoke_family_view s g at' c))
    ∙ sym (revoke_family_view (revoke_family g at' s).1 f at (revoke_family-IsConsistent at' s c g))
