-- ===== src/History/Gating.antt =====
-- A user who has signed up and has not confirmed the address, over a run of the service.
use flowtona.Common.{
  ◌≡◌, true, Text, Option, none, some, arith, lookup, lookup-insert_self, ok, list_eq, nat_eq,
  pair_eq, DateTime,
}
use flowtona.Email.{IsStable}
use flowtona.Exceptions.{Uuid}
use flowtona.Models.User.{User}
use flowtona.Models.Membership.{TenantMembership}
use flowtona.Store.{Store}
use flowtona.Repositories.UserRepository
use flowtona.Repositories.UserRepository.{get_by_id}
use flowtona.Repositories.UserRepository.Addresses
use flowtona.Permissions.{Permission, schedule_read, has_permission}
use flowtona.Permissions.Policy.{has_permission_iff}
use flowtona.Common.Action.{at_end}
use flowtona.History.{Step, Reach}
use flowtona.History.Invariant.{IsSound, Step-IsSound}
use flowtona.History.Privileges.{AllSpareUser, Reach-user}

module _ (x : User) (y : TenantMembership) (email_str : Text → Option Text)
    (stable : IsStable email_str) where
  -- With a stable check of addresses, after a sign-up that succeeds on a sound store under a new UUID, over any run of calls without an update of that user, the store has the user as signed up, and with a membership of the user the service grants `schedule_read` at most.
  pub unconfirmed_is_gated :
      (s s1 s2 : Store) (email password_hash display_name : Text) (id : Uuid) (now : DateTime)
      → IsSound email_str s
      → lookup id s.users_by_id ≡ none
      → UserRepository.create email_str email password_hash display_name id now s ≡ (ok x, s1)
      → (r : Reach email_str s1 s2) → AllSpareUser email_str x.id r
      → y.user_id ≡ x.id
      → (get_by_id x.id s2 ≡ some x)
        × ((p : Permission) → has_permission x y p ≡ ok true → p ≡ schedule_read)
  unfolding get_by_id
  unconfirmed_is_gated s s1 s2 email password_hash display_name id now i new run r spared mine =
      let i1 : IsSound email_str s1 = at_end (IsSound email_str) run (
        Step-IsSound email_str stable
          (Step.user_create s email password_hash display_name id now new) i) in
      let (a, free, address, made, after) =
        Addresses.created email_str email password_hash display_name id now s s1 x run in
      let there : lookup x.id s1.users_by_id ≡ some x =
        ground (arith, lookup-insert_self id x s.users_by_id) in
      (
        Reach-user x y email_str stable i1 r spared there,
        λ p granted. ground (arith, (has_permission_iff x y p mine).0 granted),
      )
