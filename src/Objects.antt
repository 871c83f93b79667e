-- ===== src/Objects.antt =====
-- InMemoryUserRepository once more, with users as objects: app/repositories/in_memory/
-- user_repository.py and the configuration of app/models/base.py. A `User` is mutable, so the
-- dictionary holds references, and the methods copy what goes in and what comes out.
pub mod Values
pub mod Creation
pub mod Refinement
pub mod Callers
pub mod Privacy
pub mod Isolation
use flowtona.Common.{
  ℕ, suc, Text, Bool, not, Option, none, some, DateTime, Dict, lookup, insert, contains, Result, ok,
  err, raise_if, ◌==◌, list_eq, nat_eq, if◌then◌else◌,
}
use flowtona.Common.Action.{Action, ◌>>=◌, ◌>>◌, pure, lift, gets, modify}
use flowtona.Exceptions.{
  Uuid, Error, duplicate_entry, record_not_found, by_uuid, not_implemented_error,
}
use flowtona.Email.{normalise_email}
use flowtona.Models.User.{User, validate, fresh}
use flowtona.Store.{index}

-- The identity of an object.
abbrev pub Ref : Type 0
Ref = ℕ

-- The objects that have been made are those below `next`.
pub record Memory : Type 0 where
  pub objects : Ref → User
  pub next : Ref
  pub users_by_id : Dict Uuid Ref
  pub user_id_by_email : Dict Text Uuid

abbrev pub write : Ref → User → (Ref → User) → Ref → User
write r u objects k = if r == k then u else objects k

abbrev pub allocate : User → Memory → Memory
allocate u m = record m { objects = write m.next u m.objects; next = suc m.next }

abbrev pub new : User → Action Error Memory Ref
new u m = (ok m.next, allocate u m)

-- `model_copy(deep=True)`: the fields of a user are immutable, so one new object is a deep copy.
abbrev pub model_copy : Ref → Action Error Memory Ref
model_copy r m = new (m.objects r) m

module _ (email_str : Text → Option Text) where
  unfoldable pub create : Text → Text → Text → Uuid → DateTime → Action Error Memory Ref
  create email password_hash display_name id now = do
    let normalized = normalise_email email
    taken ← gets (λ m. contains normalized m.user_id_by_email)
    lift (raise_if taken (duplicate_entry "user" "email"))
    data_in ← lift (validate email_str (fresh id normalized password_hash display_name now))
    user ← new data_in
    stored ← model_copy user
    modify (λ m. record m { users_by_id = insert (m.objects user).id stored m.users_by_id })
    modify (λ m. record m {
      user_id_by_email = insert normalized (m.objects user).id m.user_id_by_email;
    })
    model_copy stored

copied : Option Ref → Action Error Memory (Option Ref)
copied none = pure none
copied (some user) = do copy ← model_copy user; pure (some copy)

unfoldable pub get_by_id : Uuid → Action Error Memory (Option Ref)
unfolding copied
get_by_id user_id = do user ← gets (λ m. lookup user_id m.users_by_id); copied user

copy_of : Option Uuid → Action Error Memory (Option Ref)
copy_of none = pure none
copy_of (some user_id) = do
  stored ← gets (λ m. index user_id m.users_by_id)
  user ← lift stored
  copy ← model_copy user
  pure (some copy)

unfoldable pub get_by_email : Text → Action Error Memory (Option Ref)
unfolding copy_of
get_by_email email = do
  user_id ← gets (λ m. lookup (normalise_email email) m.user_id_by_email)
  copy_of user_id

unfoldable pub update : Ref → Action Error Memory Ref
update user = do
  id ← gets (λ m. (m.objects user).id)
  present ← gets (λ m. contains id m.users_by_id)
  lift (raise_if (not present) (record_not_found "user" (by_uuid id)))
  stored ← gets (λ m. index id m.users_by_id)
  existing ← lift stored
  same ← gets (λ m. (m.objects existing).email == (m.objects user).email)
  lift (raise_if (not same) not_implemented_error)
  kept ← model_copy user
  modify (λ m. record m { users_by_id = insert id kept m.users_by_id })
  model_copy user

-- `user.attribute = value`, for each attribute.
pub data Assignment : Type 0 where
  set_id : Uuid → Assignment
  set_email set_password_hash set_display_name : Text → Assignment
  set_email_verified : Bool → Assignment
  set_created_at : DateTime → Assignment
  set_updated_at : Option DateTime → Assignment

-- `validate_assignment`: an address is checked again, and values of the right type need no check.
abbrev pub assigned : (Text → Option Text) → Assignment → User → Result Error User
assigned email_str (set_id id) u = ok (record u { id = id })
assigned email_str (set_email email) u = validate email_str (record u { email = email })
assigned email_str (set_password_hash h) u = ok (record u { password_hash = h })
assigned email_str (set_display_name name) u = ok (record u { display_name = name })
assigned email_str (set_email_verified b) u = ok (record u { email_verified = b })
assigned email_str (set_created_at at) u = ok (record u { created_at = at })
assigned email_str (set_updated_at at) u = ok (record u { updated_at = at })

unfoldable pub assign : (Text → Option Text) → Ref → Assignment → Action Error Memory (Unit {0})
assign email_str r a = do
  u ← gets (λ m. m.objects r)
  v ← lift (assigned email_str a u)
  modify (λ m. record m { objects = write r v m.objects })
