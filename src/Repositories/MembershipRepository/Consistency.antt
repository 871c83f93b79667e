-- ===== src/Repositories/MembershipRepository/Consistency.antt =====
-- The memberships, their index by user and tenant, and the list of each user, kept together.
use flowtona.Common.{
  ◌≡◌, refl, sym, inl, inr, true, ◌&&◌, ◌||◌, Option, none, some, List, [], ◌∷◌, ◌++◌, arith,
  DateTime, Dict, lookup, insert, contains, lookup-insert, Result, ok, err, Bool-cases,
  Option-cases, ◌==◌, ==_iff, nat_eq, pair_eq, if◌then◌else◌, is_listed, is_listed-append,
  IsIndexed, add-IsIndexed, empty-IsIndexed, refresh-IsIndexed, Refreshes-insert,
  insert-HasDistinctKeys,
}
use flowtona.Exceptions.{
  Uuid, Error, duplicate_entry, record_not_found, by_uuid, not_implemented_error,
}
use flowtona.Models.Membership.{TenantMembership, Role, fresh}
use flowtona.Store.{Store, empty}
use flowtona.Repositories.MembershipRepository.{create, update, ids_of}

abbrev pub id_of : TenantMembership → Uuid
id_of m = m.id

abbrev pub OwnsPair : Uuid × Uuid → TenantMembership → Type 0
OwnsPair key m = key ≡ (m.user_id, m.tenant_id)

pub record IsConsistent (s : Store) : Type 0 where
  pub indexed : IsIndexed id_of OwnsPair s.memberships_by_id s.membership_id_by_user_tenant
  pub listed :
      (k : Uuid) (m : TenantMembership)
      → lookup k s.memberships_by_id ≡ some m
      → is_listed k (ids_of m.user_id s.membership_ids_by_user) ≡ true
  pub members :
      (u k : Uuid)
      → is_listed k (ids_of u s.membership_ids_by_user) ≡ true
      → (m : TenantMembership) × (lookup k s.memberships_by_id ≡ some m) × (m.user_id ≡ u)

pub empty-IsConsistent : IsConsistent empty
unfolding lookup is_listed
empty-IsConsistent = record {
  indexed = empty-IsIndexed id_of OwnsPair;
  listed = λ k m h. absurd (ground arith);
  members = λ u k h. absurd (ground arith);
}

abbrev Lists : Type 0
Lists = Dict Uuid (List Uuid)

abbrev append_to : Uuid → Uuid → Lists → Lists
append_to u i d = insert u (ids_of u d ++ i ∷ []) d

pub ids_of-append_to :
    (i u v : Uuid) (d : Lists)
    → ids_of v (append_to u i d) ≡ (if u == v then ids_of u d ++ i ∷ [] else ids_of v d)
ids_of-append_to i u v d = ground (arith, lookup-insert v u (ids_of u d ++ i ∷ []) d)

is_listed-append_to :
    (j i u v : Uuid) (d : Lists)
    → is_listed j (ids_of v (append_to u i d))
      ≡ (if u == v then j == i || is_listed j (ids_of v d) else is_listed j (ids_of v d))
is_listed-append_to j i u v d =
    ground (arith, ids_of-append_to i u v d, is_listed-append j i (ids_of u d), ==_iff u v)

module _ (user_id tenant_id : Uuid) (role : Role) (id : Uuid) (now : DateTime) where
  abbrev pub joined : TenantMembership
  joined = fresh id user_id tenant_id role now

  abbrev pub added : Store → Store
  added s = record s {
    memberships_by_id = insert id joined s.memberships_by_id;
    membership_id_by_user_tenant = insert (user_id, tenant_id) id s.membership_id_by_user_tenant;
    membership_ids_by_user = append_to user_id id s.membership_ids_by_user;
  }

  -- `create` raises a duplicate and changes nothing if the user has a membership in the tenant; otherwise it stores an active one, indexes it, and appends it to the user's list.
  pub create_membership_lem :
      (s : Store)
      → create user_id tenant_id role id now s ≡ (
          if contains (user_id, tenant_id) s.membership_id_by_user_tenant
          then (err (duplicate_entry "membership" "user_tenant"), s)
          else (ok joined, added s))
  unfolding create
  create_membership_lem s = ground arith

  added-IsConsistent :
      (s : Store)
      → lookup id s.memberships_by_id ≡ none
      → lookup (user_id, tenant_id) s.membership_id_by_user_tenant ≡ none
      → IsConsistent s
      → IsConsistent (added s)
  added-IsConsistent s new_id new_pair c = record {
    indexed =
        add-IsIndexed id_of OwnsPair (user_id, tenant_id) joined s.memberships_by_id
          s.membership_id_by_user_tenant new_id new_pair refl c.indexed;
    listed = λ k m h. ground (
      arith,
      lookup-insert k id joined s.memberships_by_id,
      is_listed-append_to k id user_id m.user_id s.membership_ids_by_user,
      c.listed k m,
    );
    members = λ u k h. elim (Bool-cases (is_listed k (ids_of u s.membership_ids_by_user))) [
      | inl old ↦
          let (m, found, same) = c.members u k old in
          (m, ground (arith, lookup-insert k id joined s.memberships_by_id), same)
      | inr new ↦ (
        joined,
        ground (
          arith,
          lookup-insert k id joined s.memberships_by_id,
          is_listed-append_to k id user_id u s.membership_ids_by_user,
        ),
        ground (arith, is_listed-append_to k id user_id u s.membership_ids_by_user),
      )
    ];
  }

  -- `create`, whether it succeeds or raises, keeps the store consistent if the UUID that it draws is new.
  pub create-IsConsistent :
      (s : Store)
      → lookup id s.memberships_by_id ≡ none
      → IsConsistent s
      → IsConsistent (create user_id tenant_id role id now s).1
  create-IsConsistent s new_id c =
      rw (create_membership_lem s)
        (elim (Option-cases (lookup (user_id, tenant_id) s.membership_id_by_user_tenant)) [
          | inl free ↦ rw free (added-IsConsistent s new_id free c)
          | inr (k, taken) ↦ rw taken c
        ])

module _ (m : TenantMembership) where
  -- What `update` answers, by what is stored under the membership's id.
  abbrev pub revision : Option TenantMembership → Result Error TenantMembership
  revision none = err (record_not_found "membership" (by_uuid m.id))
  revision (some existing) =
      if existing.user_id == m.user_id && existing.tenant_id == m.tenant_id
      then ok m
      else err not_implemented_error

  abbrev pub revised : Result Error TenantMembership → Store → Store
  revised (ok v) s = record s { memberships_by_id = insert v.id v s.memberships_by_id }
  revised (err _) s = s

  -- `update` raises not-found for an unknown id and refuses another user or tenant than the stored ones, in both cases changing nothing; otherwise it replaces the whole membership.
  pub update_membership_lem :
      (s : Store)
      → let answer = revision (lookup m.id s.memberships_by_id) in
        update m s ≡ (answer, revised answer s)
  unfolding update
  update_membership_lem s = ground arith

  revised-IsConsistent :
      (s : Store) (o : Option TenantMembership)
      → lookup m.id s.memberships_by_id ≡ o
      → IsConsistent s
      → IsConsistent (revised (revision o) s)
  revised-IsConsistent s none found c = c
  revised-IsConsistent s (some x) found c =
      elim (Bool-cases (x.user_id == m.user_id && x.tenant_id == m.tenant_id)) [
        | inl same ↦ rw same (record {
          indexed =
              refresh-IsIndexed id_of OwnsPair
                (insert-HasDistinctKeys m.id m s.memberships_by_id c.indexed.distinct)
                (Refreshes-insert id_of OwnsPair m.id x m s.memberships_by_id found
                  (sym (c.indexed.own_id m.id x found)) (λ key owns. ground arith))
                c.indexed;
          listed = λ k v h. ground (
            arith,
            lookup-insert k m.id m s.memberships_by_id,
            c.listed k v,
            c.listed m.id x found,
          );
          members = λ u k h.
              let (v, at, user) = c.members u k h in
              elim (Bool-cases (m.id == k)) [
                | inl here ↦
                    (m, ground (arith, lookup-insert k m.id m s.memberships_by_id), ground arith)
                | inr there ↦ (v, ground (arith, lookup-insert k m.id m s.memberships_by_id), user)
              ];
        })
        | inr other ↦ rw other c
      ]

  -- `update`, whether it succeeds or raises, keeps the store consistent.
  pub update-IsConsistent : (s : Store) → IsConsistent s → IsConsistent (update m s).1
  update-IsConsistent s c =
      rw (update_membership_lem s) (revised-IsConsistent s (lookup m.id s.memberships_by_id) refl c)

-- The invariant reads three fields alone.
pub frame-IsConsistent :
    {s s' : Store}
    → s'.memberships_by_id ≡ s.memberships_by_id
    → s'.membership_id_by_user_tenant ≡ s.membership_id_by_user_tenant
    → s'.membership_ids_by_user ≡ s.membership_ids_by_user
    → IsConsistent s
    → IsConsistent s'
frame-IsConsistent p q r c = record {
  indexed = rw (p, q) c.indexed;
  listed = rw (p, r) c.listed;
  members = rw (p, r) c.members;
}
