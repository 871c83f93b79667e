-- ===== src/Protocols/Memberships.antt =====
-- app/repositories/membership_repository.py: class MembershipRepository(Protocol).
-- A repository over any state is its operations; what its docstrings and its callers rely on are
-- laws on the rows by id.
pub mod InMemory
use flowtona.Common.{
  ◌≡◌, ◌≢◌, ◌↔◌, ◌⊎◌, refl, Option, none, some, List, [], ◌∷◌, ◌++◌, arith, DateTime, Result, ok,
  err, ◌==◌, ==_refl, nat_eq, if◌then◌else◌,
}
use flowtona.Common.Action.{Action}
use flowtona.Exceptions.{Uuid, Error}
use flowtona.Models.Membership.{TenantMembership, Role, fresh}
use flowtona.Repositories.MembershipRepository.Listing.{Among}

-- The methods; `create` is given the UUID and the time that it would draw.
pub record MembershipOperations (S : Type 0) : Type 0 where
  pub create : Uuid → Uuid → Role → Uuid → DateTime → Action Error S TenantMembership
  pub get_by_user_and_tenant : Uuid → Uuid → S → Result Error (Option TenantMembership)
  pub get_memberships_for_user : Uuid → S → Result Error (List TenantMembership)
  pub update : TenantMembership → Action Error S TenantMembership

-- The promises, on the states that satisfy `IsGood`, where `row` reads the row of an id.
pub record KeepsMemberships {S : Type 0} (o : MembershipOperations S) (IsGood : S → Type 0)
    (row : Uuid → S → Option TenantMembership) : Type 0 where
  pub looks_up :
      (s : S) (u n : Uuid)
      → IsGood s
      → (x : Option TenantMembership) × (o.get_by_user_and_tenant u n s ≡ ok x)
  pub finds :
      (s : S) (u n : Uuid) (m : TenantMembership)
      → IsGood s
      → (o.get_by_user_and_tenant u n s ≡ ok (some m))
        ↔ ((row m.id s ≡ some m) × (m.user_id ≡ u) × (m.tenant_id ≡ n))
  pub lists :
      (s : S) (u : Uuid)
      → IsGood s
      → (ms : List TenantMembership) × (o.get_memberships_for_user u s ≡ ok ms)
        × ((m : TenantMembership) → Among m ms ↔ ((row m.id s ≡ some m) × (m.user_id ≡ u)))
  pub creates :
      (s : S) (u n : Uuid) (role : Role) (id : Uuid) (now : DateTime)
      → IsGood s
      → row id s ≡ none
      → o.get_by_user_and_tenant u n s ≡ ok none
      → (s' : S) × (o.create u n role id now s ≡ (ok (fresh id u n role now), s'))
        × IsGood s'
        × ((k : Uuid) → row k s' ≡ (if id == k then some (fresh id u n role now) else row k s))
  pub unique :
      (s : S) (u n : Uuid) (role : Role) (id : Uuid) (now : DateTime) (m : TenantMembership)
      → IsGood s
      → o.get_by_user_and_tenant u n s ≡ ok (some m)
      → (e : Error) × (o.create u n role id now s ≡ (err e, s))
  pub updates :
      (s : S) (m x : TenantMembership)
      → IsGood s
      → row m.id s ≡ some x
      → x.user_id ≡ m.user_id
      → x.tenant_id ≡ m.tenant_id
      → (s' : S) × (o.update m s ≡ (ok m, s'))
        × IsGood s'
        × ((k : Uuid) → row k s' ≡ (if m.id == k then some m else row k s))
  pub refuses :
      (s : S) (m : TenantMembership)
      → IsGood s
      → ((x : TenantMembership)
          → row m.id s ≡ some x
          → (x.user_id ≢ m.user_id) ⊎ (x.tenant_id ≢ m.tenant_id))
      → (e : Error) × (o.update m s ≡ (err e, s))

module _ {S : Type 0} (o : MembershipOperations S) (IsGood : S → Type 0)
    (row : Uuid → S → Option TenantMembership) (keeps : KeepsMemberships o IsGood row) where
  -- Whatever repository keeps the protocol: a user who has no membership in a tenant can join it under a new UUID; then the lookup by user and tenant finds the new membership, the user's list has it, and the user cannot join again.
  pub join_after_check :
      (s : S) (u n : Uuid) (role role' : Role) (id id' : Uuid) (now later : DateTime)
      → IsGood s
      → row id s ≡ none
      → o.get_by_user_and_tenant u n s ≡ ok none
      → let m = fresh id u n role now in
        (s' : S) × (o.create u n role id now s ≡ (ok m, s'))
        × (o.get_by_user_and_tenant u n s' ≡ ok (some m))
        × ((ms : List TenantMembership) × (o.get_memberships_for_user u s' ≡ ok ms) × Among m ms)
        × ((e : Error) × (o.create u n role' id' later s' ≡ (err e, s')))
  join_after_check s u n role role' id id' now later good new free =
      let m = fresh id u n role now in
      let (s', run, good', rows) = keeps.creates s u n role id now good new free in
      let stored : row id s' ≡ some m = ground (arith, rows id, ==_refl id) in
      let found : o.get_by_user_and_tenant u n s' ≡ ok (some m) =
        (keeps.finds s' u n m good').1 (stored, refl, refl) in
      let (ms, listed, each) = keeps.lists s' u good' in
      (
        s',
        run,
        found,
        (ms, listed, (each m).1 (stored, refl)),
        keeps.unique s' u n role' id' later m good' found,
      )
