-- ===== src/Models/User.antt =====
-- app/models/user.py
use flowtona.Common.{Text, Bool, false, Option, none, DateTime, Result, or_raise, [], ◌∷◌}
use flowtona.Common.Outcome.{◌>>=◌, ok}
use flowtona.Exceptions.{Uuid, Error, validation_error}

pub record User : Type 0 where
  pub id : Uuid
  pub email : Text
  pub password_hash : Text
  pub display_name : Text
  pub email_verified : Bool
  pub created_at : DateTime
  pub updated_at : Option DateTime

-- `User(**data)`: pydantic replaces the address by what `EmailStr` makes of it, or refuses it.
unfoldable pub validate : (Text → Option Text) → User → Result Error User
validate email_str data_in = do
  email ← or_raise (email_str data_in.email) (validation_error "email" (data_in.email ∷ []))
  ok (record data_in { email = email })

-- The fields that a caller leaves out have their defaults.
abbrev pub fresh : Uuid → Text → Text → Text → DateTime → User
fresh id email password_hash display_name created_at = record {
  id = id;
  email = email;
  password_hash = password_hash;
  display_name = display_name;
  email_verified = false;
  created_at = created_at;
  updated_at = none;
}
