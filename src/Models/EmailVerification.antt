-- ===== src/Models/EmailVerification.antt =====
-- app/models/email_verification.py
pub mod Validity
use flowtona.Common.{
  Text, String, ◌≡◌, ◌↔◌, Bool, true, false, ◌||◌, Option, none, arith, is_some, DateTime,
  le_datetime, Result, [], ◌∷◌, or_raise, raise_if, Comparable,
}
use flowtona.Common.Outcome.{◌>>=◌, ◌>>◌, ok}
use flowtona.Exceptions.{Uuid, Error, value_error, type_error, over_input, validation_error}

pub data Status : Type 0 where
  pending consumed revoked : Status

-- the members' values
abbrev pub value : Status → String
value pending = "pending"
value consumed = "consumed"
value revoked = "revoked"

abbrev pub status_beq : Status → Status → Bool
status_beq pending pending = true
status_beq consumed consumed = true
status_beq revoked revoked = true
status_beq _ _ = false

pub status_beq_iff : (a b : Status) → (status_beq a b ≡ true) ↔ (a ≡ b)
status_beq_iff a b = ground arith

instance abbrev pub status_eq : Comparable Status
status_eq = record { same = status_beq; decides = status_beq_iff }

pub record EmailVerification : Type 0 where
  pub id : Uuid
  pub user_id : Uuid
  pub email : Text
  pub token_hash : Text
  pub status : Status
  pub created_at : DateTime
  pub expires_at : DateTime
  pub consumed_at : Option DateTime
  pub revoked_at : Option DateTime

-- the three tests on the status, of which one applies
check_status : Status → EmailVerification → Result Error EmailVerification
check_status pending v = do
  raise_if (is_some v.consumed_at || is_some v.revoked_at)
      (value_error "pending verification cannot have consumed_at or revoked_at")
  ok v
check_status consumed v = do
  or_raise v.consumed_at (value_error "consumed_at is required when status is 'consumed'")
  raise_if (is_some v.revoked_at) (value_error "consumed verification cannot have revoked_at")
  ok v
check_status revoked v = do
  or_raise v.revoked_at (value_error "revoked_at is required when status is 'revoked'")
  raise_if (is_some v.consumed_at) (value_error "revoked verification cannot have consumed_at")
  ok v

unfoldable pub check_status_timestamps : EmailVerification → Result Error EmailVerification
unfolding check_status le_datetime
check_status_timestamps v = do
  not_later ← or_raise (le_datetime v.expires_at v.created_at) type_error
  raise_if not_later (value_error "expires_at must be later than created_at")
  check_status v.status v

-- `EmailVerification(**data)`: the fields first, then the validator over the whole.
unfoldable pub validate : (Text → Option Text) → EmailVerification → Result Error EmailVerification
validate email_str data_in = do
  email ← or_raise (email_str data_in.email) (validation_error "email" (data_in.email ∷ []))
  over_input (data_in.email ∷ data_in.token_hash ∷ [])
      (check_status_timestamps (record data_in { email = email }))

abbrev pub fresh : Uuid → Uuid → Text → Text → DateTime → DateTime → EmailVerification
fresh id user_id email token_hash created_at expires_at = record {
  id = id;
  user_id = user_id;
  email = email;
  token_hash = token_hash;
  status = pending;
  created_at = created_at;
  expires_at = expires_at;
  consumed_at = none;
  revoked_at = none;
}
