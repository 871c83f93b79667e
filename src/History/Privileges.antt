-- ===== src/History/Privileges.antt =====
-- What a member may do over a run of the service, as app/services/permission_service.py reads it
-- from the user and the membership that the repositories find.
use flowtona.Common.{
  ◌≡◌, ◌≢◌, ap, Text, Option, none, some, arith, lookup, lookup-insert, ok, ==_iff, list_eq, nat_eq,
  pair_eq, DateTime, Dict, Option-cases, inl, inr,
}
use flowtona.Email.{IsStable, normalise_email}
use flowtona.Exceptions.{Uuid}
use flowtona.Models.User.{User}
use flowtona.Models.Membership.{TenantMembership, Role}
use flowtona.Store.{Store}
use flowtona.Repositories.UserRepository.{get_by_id}
use flowtona.Repositories.UserRepository.Consistency as Users
use flowtona.Repositories.MembershipRepository.{get_by_user_and_tenant}
use flowtona.Repositories.MembershipRepository.Consistency as Memberships
use flowtona.Repositories.MembershipRepository.Lookup.{get_by_user_and_tenant_iff}
use flowtona.History.{Step, Reach, here, next}
use flowtona.History.Parts.{only}
use flowtona.History.Invariant.{IsSound, Reach-IsSound}

module _ (email_str : Text → Option Text) where
  -- A call other than an update of the user `u`.
  abbrev pub SparesUser : Uuid → {s s' : Store} → Step email_str s s' → Type 0
  SparesUser u (Step.user_update _ user) = user.id ≢ u
  SparesUser u _ = Unit

  -- A call other than an update of the membership `m`.
  abbrev pub SparesMembership : Uuid → {s s' : Store} → Step email_str s s' → Type 0
  SparesMembership m (Step.membership_update _ membership) = membership.id ≢ m
  SparesMembership m _ = Unit

  abbrev pub AllSpareUser : Uuid → {s s' : Store} → Reach email_str s s' → Type 0
  AllSpareUser u here = Unit
  AllSpareUser u (next r st) = AllSpareUser u r × SparesUser u st

  abbrev pub AllSpareMembership : Uuid → {s s' : Store} → Reach email_str s s' → Type 0
  AllSpareMembership m here = Unit
  AllSpareMembership m (next r st) = AllSpareMembership m r × SparesMembership m st

  -- The user `x` and the membership `y`, where they are stored, stay as they are.
  record Stay (x : User) (y : TenantMembership) {s s' : Store} (st : Step email_str s s')
      : Type 0 where
    user :
        SparesUser x.id st
        → lookup x.id s.users_by_id ≡ some x
        → lookup x.id s'.users_by_id ≡ some x
    membership :
        SparesMembership y.id st
        → lookup y.id s.memberships_by_id ≡ some y
        → lookup y.id s'.memberships_by_id ≡ some y

abbrev members_of : Store → Dict Uuid User × Dict Uuid TenantMembership
members_of s = (s.users_by_id, s.memberships_by_id)

module _ (x : User) (y : TenantMembership) where
  module _ (email_str : Text → Option Text) (stable : IsStable email_str) where
    Stay-same :
        {s s' : Store} {st : Step email_str s s'}
        → members_of s' ≡ members_of s
        → Stay email_str x y st
    Stay-same same = record {
      user = λ spared there. ground arith;
      membership = λ spared there. ground arith;
    }

    user_create-Stay :
        (s : Store) (e p d : Text) (id : Uuid) (now : DateTime)
        → (new : lookup id s.users_by_id ≡ none)
        → Stay email_str x y (Step.user_create s e p d id now new)
    user_create-Stay s e p d id now new =
        let lem = Users.create_user_lem email_str e p d id now s in
        elim (Option-cases (lookup (normalise_email e) s.user_id_by_email)) [
          | inr (k, taken) ↦ Stay-same (ground (arith, lem))
          | inl free ↦ elim (Option-cases (email_str (normalise_email e))) [
            | inl refused ↦ Stay-same (ground (arith, lem))
            | inr (a, address) ↦ record {
              user = λ spared there. ground (
                arith,
                lem,
                lookup-insert x.id id (Users.signed_up email_str e p d id now a) s.users_by_id,
                ==_iff id x.id,
              );
              membership = λ spared there. ground (arith, lem);
            }
          ]
        ]

    user_update-Stay : (s : Store) (u : User) → Stay email_str x y (Step.user_update s u)
    user_update-Stay s u = record {
      user = λ spared there. ground (
        arith,
        Users.update_user_lem email_str u s,
        lookup-insert x.id u.id u s.users_by_id,
        ==_iff u.id x.id,
      );
      membership = λ spared there. ground (arith, Users.update_user_lem email_str u s);
    }

    membership_create-Stay :
        (s : Store) (u t : Uuid) (role : Role) (id : Uuid) (now : DateTime)
        → (new : lookup id s.memberships_by_id ≡ none)
        → Stay email_str x y (Step.membership_create s u t role id now new)
    membership_create-Stay s u t role id now new = record {
      user = λ spared there. ground (arith, Memberships.create_membership_lem u t role id now s);
      membership = λ spared there. ground (
        arith,
        Memberships.create_membership_lem u t role id now s,
        lookup-insert y.id id (Memberships.joined u t role id now) s.memberships_by_id,
        ==_iff id y.id,
      );
    }

    membership_update-Stay :
        (s : Store) (m : TenantMembership) → Stay email_str x y (Step.membership_update s m)
    membership_update-Stay s m = record {
      user = λ spared there. ground (arith, Memberships.update_membership_lem m s);
      membership = λ spared there. ground (
        arith,
        Memberships.update_membership_lem m s,
        lookup-insert y.id m.id m s.memberships_by_id,
        ==_iff m.id y.id,
      );
    }

    Step-Stay :
        {s s' : Store} → IsSound email_str s → (st : Step email_str s s') → Stay email_str x y st
    Step-Stay i (Step.user_create s e p d id now new) = user_create-Stay s e p d id now new
    Step-Stay i (Step.user_update s u) = user_update-Stay s u
    Step-Stay i (Step.membership_create s u t role id now new) =
        membership_create-Stay s u t role id now new
    Step-Stay i (Step.membership_update s m) = membership_update-Stay s m
    Step-Stay i st = Stay-same (ap members_of (only email_str stable i st))

    pub Reach-user :
        {s s' : Store}
        → IsSound email_str s
        → (r : Reach email_str s s') → AllSpareUser email_str x.id r
        → lookup x.id s.users_by_id ≡ some x
        → lookup x.id s'.users_by_id ≡ some x
    Reach-user i here spared there = there
    Reach-user i (next r st) (spared, last) there =
        (Step-Stay (Reach-IsSound email_str stable i r) st).user last (Reach-user i r spared there)

    Reach-membership :
        {s s' : Store}
        → IsSound email_str s
        → (r : Reach email_str s s') → AllSpareMembership email_str y.id r
        → lookup y.id s.memberships_by_id ≡ some y
        → lookup y.id s'.memberships_by_id ≡ some y
    Reach-membership i here spared there = there
    Reach-membership i (next r st) (spared, last) there =
        (Step-Stay (Reach-IsSound email_str stable i r) st).membership last
          (Reach-membership i r spared there)

    -- With a stable check of addresses, from a sound store, over any run of calls without an update of the user or of the membership: the lookups that found them go on to find the same user and the same membership.
    pub privileges_stay :
        (s s' : Store) (n : Uuid)
        → IsSound email_str s
        → (r : Reach email_str s s') → AllSpareUser email_str x.id r
        → AllSpareMembership email_str y.id r
        → get_by_id x.id s ≡ some x
        → get_by_user_and_tenant x.id n s ≡ ok (some y)
        → (get_by_id x.id s' ≡ some x) × (get_by_user_and_tenant x.id n s' ≡ ok (some y))
    unfolding get_by_id
    privileges_stay s s' n i r spared spared' user found =
        let (there, mine, in_n) =
          ((get_by_user_and_tenant_iff s x.id n i.memberships).1 y).0 found in
        let i' = Reach-IsSound email_str stable i r in
        (
          Reach-user i r spared user,
          ((get_by_user_and_tenant_iff s' x.id n i'.memberships).1 y).1
              (Reach-membership i r spared' there, mine, in_n),
        )
