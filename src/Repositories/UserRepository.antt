-- ===== src/Repositories/UserRepository.antt =====
-- app/repositories/in_memory/user_repository.py: class InMemoryUserRepository.
-- `create` is given the UUID and the time that the constructor would draw.
pub mod Addresses
pub mod Consistency
use flowtona.Common.{
  Text, not, Option, none, some, DateTime, lookup, insert, contains, Result, ok, err, raise_if,
  ◌==◌, list_eq, nat_eq,
}
use flowtona.Common.Action.{◌>>=◌, ◌>>◌, pure, lift, gets, modify}
use flowtona.Exceptions.{
  Uuid, Error, duplicate_entry, record_not_found, by_uuid, not_implemented_error,
}
use flowtona.Email.{normalise_email}
use flowtona.Models.User.{User, validate, fresh}
use flowtona.Store.{Store, Method, index}

module _ (email_str : Text → Option Text) where
  unfoldable pub create : Text → Text → Text → Uuid → DateTime → Method User
  create email password_hash display_name id now = do
    let normalized = normalise_email email
    taken ← gets (λ s. contains normalized s.user_id_by_email)
    lift (raise_if taken (duplicate_entry "user" "email"))
    user ← lift (validate email_str (fresh id normalized password_hash display_name now))
    modify (λ s. record s { users_by_id = insert user.id user s.users_by_id })
    modify (λ s. record s { user_id_by_email = insert normalized user.id s.user_id_by_email })
    pure user

unfoldable pub get_by_id : Uuid → Store → Option User
get_by_id user_id s = lookup user_id s.users_by_id

found : Store → Option Uuid → Result Error (Option User)
found s none = ok none
found s (some user_id) = elim (index user_id s.users_by_id) [ ok u ↦ ok (some u) | err e ↦ err e ]

unfoldable pub get_by_email : Text → Store → Result Error (Option User)
unfolding found
get_by_email email s = found s (lookup (normalise_email email) s.user_id_by_email)

unfoldable pub update : User → Method User
update user = do
  present ← gets (λ s. contains user.id s.users_by_id)
  lift (raise_if (not present) (record_not_found "user" (by_uuid user.id)))
  stored ← gets (λ s. index user.id s.users_by_id)
  existing ← lift stored
  lift (raise_if (not (existing.email == user.email)) not_implemented_error)
  modify (λ s. record s { users_by_id = insert user.id user s.users_by_id })
  pure user
