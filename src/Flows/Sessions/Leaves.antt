-- ===== src/Flows/Sessions/Leaves.antt =====
-- "A family IS one device/session": logins open a family, renewals and logouts follow one another.
-- A family then has one active leaf at most.
use flowtona.Common.{
  ◌≡◌, ◌≢◌, ◌⊎◌, refl, inl, inr, Text, Option, none, some, arith, DateTime, lookup, insert,
  lookup-insert, rewrite_entry, Bool, ==_iff, nat_eq, list_eq,
}
use flowtona.Exceptions.{Uuid}
use flowtona.Models.RefreshToken.{RefreshTokenRecord, active}
use flowtona.Models.RefreshToken.Validity.{as_revoked, as_rotated, validate_token_iff}
use flowtona.Store.{Store, empty}
use flowtona.Repositories.RefreshTokenRepository.{create, revoke_family, revoke_all_active}
use flowtona.Repositories.RefreshTokenRepository.Consistency
use flowtona.Repositories.RefreshTokenRepository.Consistency.{IsConsistent}
use flowtona.Repositories.RefreshTokenRepository.Revocation.{Tokens, unrevoked_of}
use flowtona.Repositories.RefreshTokenRepository.Families
use flowtona.Repositories.RefreshTokenRepository.Issuance.{IsUsable, stored}
use flowtona.Flows.Sessions.{Renewal, IsNew, renew, renews, successor, after-IsConsistent}

-- One whole flow, whether it succeeds or raises. The UUIDs that are drawn are new.
pub data Flow : Store → Store → Type 0 where
  login :
      (s : Store) (user tenant family : Uuid) (h : Text) (expires : DateTime) (id : Uuid)
      (now : DateTime)
      → lookup id s.refresh_tokens_by_id ≡ none
      → ((k : Uuid) (t : RefreshTokenRecord)
          → lookup k s.refresh_tokens_by_id ≡ some t
          → t.family_id ≢ family)
      → Flow s (create user tenant family h expires id now s).1
  renewal :
      (s : Store) (t : RefreshTokenRecord) (r : Renewal)
      → IsUsable s t
      → lookup r.id s.refresh_tokens_by_id ≡ none
      → Flow s (renew t r s).1
  logout : (s : Store) (family : Uuid) (at : DateTime) → Flow s (revoke_family family at s).1
  logout_all :
      (s : Store) (user tenant : Uuid) (at : DateTime)
      → Flow s (revoke_all_active user tenant at s).1

pub data Flows (s : Store) : Store → Type 0 where
  begin : Flows s s
  then : {t u : Store} → Flows s t → Flow t u → Flows s u

abbrev pub HasOneLeaf : Tokens → Type 0
HasOneLeaf d =
    (k l : Uuid) (t u : RefreshTokenRecord)
    → lookup k d ≡ some t
    → lookup l d ≡ some u
    → t.status ≡ active
    → u.status ≡ active
    → t.family_id ≡ u.family_id
    → k ≡ l

-- What is active was active before.
HasOneLeaf-revoked :
    (test : RefreshTokenRecord → Bool) (at : DateTime) (d d' : Tokens)
    → ((k : Uuid) → lookup k d' ≡ rewrite_entry test (as_revoked at) (lookup k d))
    → HasOneLeaf d
    → HasOneLeaf d'
HasOneLeaf-revoked test at d d' each one k l t u at_k at_l live live' same =
    one k l t u (before k t at_k live) (before l u at_l live') live live' same
  where
    unrevoked :
        (o : Option RefreshTokenRecord) (v : RefreshTokenRecord)
        → rewrite_entry test (as_revoked at) o ≡ some v
        → v.status ≡ active
        → o ≡ some v
    unrevoked none v found live = ground arith
    unrevoked (some w) v found live = ground arith

    before :
        (k : Uuid) (v : RefreshTokenRecord)
        → lookup k d' ≡ some v
        → v.status ≡ active
        → lookup k d ≡ some v
    before k v found live = unrevoked (lookup k d) v (ground (arith, each k)) live

-- A record of a family that has none yet.
HasOneLeaf-opened :
    (d : Tokens) (i : Uuid) (v : RefreshTokenRecord)
    → ((k : Uuid) (t : RefreshTokenRecord) → lookup k d ≡ some t → t.family_id ≢ v.family_id)
    → HasOneLeaf d
    → HasOneLeaf (insert i v d)
HasOneLeaf-opened d i v other one k l t u at_k at_l live live' same = ground (
  arith,
  lookup-insert k i v d,
  lookup-insert l i v d,
  ==_iff i k,
  ==_iff i l,
  other k t,
  other l u,
  one k l t u,
)

-- A leaf hands its family over to its successor.
HasOneLeaf-succeeded :
    (d : Tokens) (i : Uuid) (v : RefreshTokenRecord) (j : Uuid) (t t' : RefreshTokenRecord)
    → lookup j d ≡ some t
    → t.status ≡ active
    → t.family_id ≡ v.family_id
    → t'.status ≢ active
    → HasOneLeaf d
    → HasOneLeaf (insert j t' (insert i v d))
HasOneLeaf-succeeded d i v j t t' there was same over one k l x y at_k at_l live live' alike =
    elim (entry k x at_k live) [
      | inl (here, made) ↦ elim (entry l y at_l live') [
        | inl (here', made') ↦ ground arith
        | inr (kept', other') ↦ absurd (ground (arith, one l j y t))
      ]
      | inr (kept, other) ↦ elim (entry l y at_l live') [
        | inl (here', made') ↦ absurd (ground (arith, one k j x t))
        | inr (kept', other') ↦ one k l x y kept kept' live live' alike
      ]
    ]
  where
    entry :
        (k : Uuid) (x : RefreshTokenRecord)
        → lookup k (insert j t' (insert i v d)) ≡ some x
        → x.status ≡ active
        → ((k ≡ i) × (x ≡ v)) ⊎ ((lookup k d ≡ some x) × (k ≢ j))
    entry k x found live =
        ground (
          arith,
          lookup-insert k j t' (insert i v d),
          lookup-insert k i v d,
          ==_iff j k,
          ==_iff i k,
        )

renewal-keeps :
    (s : Store) (t : RefreshTokenRecord) (r : Renewal)
    → IsUsable s t
    → lookup r.id s.refresh_tokens_by_id ≡ none
    → IsConsistent s
    → HasOneLeaf s.refresh_tokens_by_id
    → IsConsistent (renew t r s).1 × HasOneLeaf (renew t r s).1.refresh_tokens_by_id
unfolding renew
renewal-keeps s t r (known, live) new c one =
    let made =
      Consistency.issued t.user_id t.tenant_id t.family_id r.token_hash r.expires_at r.id r.at in
    elim (Consistency.create_outcomes t.user_id t.tenant_id t.family_id r.token_hash r.expires_at
      r.id r.at s) [
        | inl (e, run) ↦ rw run (c, one)
        | inr (run, free, valid) ↦
            let fresh : IsNew s r = (new, free, ground (arith, validate_token_iff made made)) in
            rw (renews s c t known r fresh live) (
              after-IsConsistent s c t known r fresh live,
              HasOneLeaf-succeeded s.refresh_tokens_by_id r.id (successor t r) t.id t
                  (as_rotated r.id r.at t) (stored s c t known) live refl
                  (λ wrong. absurd (ground arith)) one,
            )
      ]

Flow-keeps :
    {s s' : Store}
    → Flow s s'
    → IsConsistent s
    → HasOneLeaf s.refresh_tokens_by_id
    → IsConsistent s' × HasOneLeaf s'.refresh_tokens_by_id
Flow-keeps (login s user tenant family h expires id now new opens) c one = (
  Consistency.create-IsConsistent user tenant family h expires id now s new c,
  elim (Consistency.create_outcomes user tenant family h expires id now s) [
    | inl (e, run) ↦ rw run one
    | inr (run, free, valid) ↦ rw run (
        HasOneLeaf-opened s.refresh_tokens_by_id id
          (Consistency.issued user tenant family h expires id now) opens one)
  ],
)
Flow-keeps (renewal s t r usable new) c one = renewal-keeps s t r usable new c one
Flow-keeps (logout s family at) c one =
    let (d, run, each) = Families.revoke_family_lem at s c family in
    (
      Families.revoke_family-IsConsistent at s c family,
      rw run
          (HasOneLeaf-revoked (Families.unrevoked_in family) at s.refresh_tokens_by_id d each one),
    )
Flow-keeps (logout_all s user tenant at) c one =
    let (d, run, each) = Families.revoke_all_active_lem at s c user tenant in
    (
      Families.revoke_all_active-IsConsistent at s c user tenant,
      rw run (HasOneLeaf-revoked (unrevoked_of user tenant) at s.refresh_tokens_by_id d each one),
    )

Flows-keep :
    {s s' : Store}
    → Flows s s'
    → IsConsistent s
    → HasOneLeaf s.refresh_tokens_by_id
    → IsConsistent s' × HasOneLeaf s'.refresh_tokens_by_id
Flows-keep begin c one = (c, one)
Flows-keep (then fs f) c one = let (c', one') = Flows-keep fs c one in Flow-keeps f c' one'

-- From the empty store, over any sequence of whole flows in which the UUIDs that are drawn are new, each login opens a family that has no token yet and each renewal starts from a token that is stored and active, two active tokens of one family are one and the same.
pub one_leaf :
    (s : Store)
    → Flows empty s
    → (k l : Uuid) (t u : RefreshTokenRecord) → lookup k s.refresh_tokens_by_id ≡ some t
    → lookup l s.refresh_tokens_by_id ≡ some u
    → t.status ≡ active
    → u.status ≡ active
    → t.family_id ≡ u.family_id
    → (k ≡ l) × (t ≡ u)
unfolding lookup
one_leaf s fs k l t u at_k at_l live live' same =
    let none_yet : HasOneLeaf empty.refresh_tokens_by_id = λ k l t u at_k. absurd (ground arith) in
    let (c, one) = Flows-keep fs Consistency.empty-IsConsistent none_yet in
    let here : k ≡ l = one k l t u at_k at_l live live' same in (here, ground arith)
