-- ===== src/Repositories/MembershipRepository/Listing.antt =====
-- `get_memberships_for_user` and `get_by_user_and_tenant` on a consistent store.
use flowtona.Common.{
  ◌≡◌, refl, ◌↔◌, ◌⊎◌, inl, inr, true, none, some, List, [], ◌∷◌, ◌++◌, arith, DateTime, Dict,
  lookup, insert, contains, lookup-insert, lookup-insert_self, Result-cases, ok, Bool-cases, ◌==◌,
  nat_eq, pair_eq, if◌then◌else◌, is_listed, listed_head, listed_later,
}
use flowtona.Exceptions.{Uuid}
use flowtona.Models.Membership.{TenantMembership, Role}
use flowtona.Store.{Store}
use flowtona.Repositories.MembershipRepository.{create, collect, ids_of, get_memberships_for_user}
use flowtona.Repositories.MembershipRepository.Consistency.{
  IsConsistent, create_membership_lem, ids_of-append_to,
}

abbrev Memberships : Type 0
Memberships = Dict Uuid TenantMembership

-- `m` is an item of the list.
abbrev pub Among : TenantMembership → List TenantMembership → Type 0
Among m [] = ⊥
Among m (x ∷ xs) = (m ≡ x) ⊎ Among m xs

module _ (d : Memberships)
    (own_id : (k : Uuid) (m : TenantMembership) → lookup k d ≡ some m → m.id ≡ k) where
  abbrev Holds : List Uuid → TenantMembership → Type 0
  Holds ids m = (is_listed m.id ids ≡ true) × (lookup m.id d ≡ some m)

  collect_total :
      (ids : List Uuid)
      → ((k : Uuid) → is_listed k ids ≡ true → (m : TenantMembership) × (lookup k d ≡ some m))
      → (ms : List TenantMembership) × (collect d ids ≡ ok ms)
        × ((m : TenantMembership) → Among m ms ↔ Holds ids m)
  unfolding collect is_listed
  collect_total [] present = ([], refl, λ m. ground arith)
  collect_total (i ∷ ids) present =
      let (x, found) = present i (listed_head i ids) in
      let (ms, rest, each) = collect_total ids (λ k h. present k (listed_later k i ids h)) in
      (x ∷ ms, ground arith, λ m. ground (arith, each m, own_id i x found))

-- On a consistent store the listing never raises, and it has exactly the stored memberships of the user.
pub get_memberships_for_user_lem :
    (s : Store) (u : Uuid)
    → IsConsistent s
    → (ms : List TenantMembership) × (get_memberships_for_user u s ≡ ok ms)
      × ((m : TenantMembership)
          → Among m ms ↔ ((lookup m.id s.memberships_by_id ≡ some m) × (m.user_id ≡ u)))
unfolding get_memberships_for_user
get_memberships_for_user_lem s u c =
    let (ms, run, each) =
      collect_total s.memberships_by_id c.indexed.own_id (ids_of u s.membership_ids_by_user)
        (λ k h. let (m, found, user) = c.members u k h in (m, found)) in
    (
      ms,
      run,
      λ m. (
        λ h.
            let (among, at) = (each m).0 h in
            let (x, found, user) = c.members u m.id among in (at, ground arith),
        λ h. (each m).1 (ground (arith, c.listed m.id m h.0), h.0),
      ),
    )

module _ (d : Memberships) where
  collect-snoc :
      (ids : List Uuid) (ms : List TenantMembership) (i : Uuid) (m : TenantMembership)
      → collect d ids ≡ ok ms
      → lookup i d ≡ some m
      → collect d (ids ++ i ∷ []) ≡ ok (ms ++ m ∷ [])
  unfolding collect
  collect-snoc [] ms i m run found = ground arith
  collect-snoc (j ∷ ids) ms i m run found = elim (Result-cases (collect d ids)) [
    | inl (e, failed) ↦ absurd (ground arith)
    | inr (rest, worked) ↦ ground (arith, collect-snoc ids rest i m worked found)
  ]

  -- A record under a new id changes no list that could be read before.
  collect-insert :
      (ids : List Uuid) (ms : List TenantMembership) (i : Uuid) (m : TenantMembership)
      → lookup i d ≡ none
      → collect d ids ≡ ok ms
      → collect (insert i m d) ids ≡ ok ms
  unfolding collect
  collect-insert [] ms i m new run = run
  collect-insert (j ∷ ids) ms i m new run = elim (Result-cases (collect d ids)) [
    | inl (e, failed) ↦ absurd (ground arith)
    | inr (rest, worked) ↦
        ground (arith, collect-insert ids rest i m new worked, lookup-insert j i m d)
  ]

-- After a successful `create` under a new UUID, the user's listing is the one before with the new membership at its end, and every other user's listing is the one before.
pub get_memberships_for_user-create :
    (s s' : Store) (user_id tenant_id id v : Uuid) (role : Role) (now : DateTime)
    (m : TenantMembership) (ms : List TenantMembership)
    → lookup id s.memberships_by_id ≡ none
    → create user_id tenant_id role id now s ≡ (ok m, s')
    → get_memberships_for_user v s ≡ ok ms
    → get_memberships_for_user v s' ≡ ok (if user_id == v then ms ++ m ∷ [] else ms)
unfolding get_memberships_for_user
get_memberships_for_user-create s s' user_id tenant_id id v role now m ms new run before =
    elim (Bool-cases (contains (user_id, tenant_id) s.membership_id_by_user_tenant)) [
      | inl taken ↦ absurd (ground (arith, create_membership_lem user_id tenant_id role id now s))
      | inr free ↦ ground (
        arith,
        create_membership_lem user_id tenant_id role id now s,
        ids_of-append_to id user_id v s.membership_ids_by_user,
        collect-insert s.memberships_by_id (ids_of v s.membership_ids_by_user) ms id m new before,
        collect-snoc (insert id m s.memberships_by_id) (ids_of v s.membership_ids_by_user) ms id m,
        lookup-insert_self id m s.memberships_by_id,
      )
    ]
