-- ===== src/Models/Invitation.antt =====
-- app/models/invitation.py
pub mod Validity
use flowtona.Common.{
  Text, String, ◌≡◌, ◌↔◌, Bool, true, false, Option, none, arith, DateTime, le_datetime, Result, [],
  ◌∷◌, or_raise, raise_if, Comparable,
}
use flowtona.Common.Outcome.{◌>>=◌, ◌>>◌, ok}
use flowtona.Exceptions.{Uuid, Error, value_error, type_error, over_input, validation_error}
use flowtona.Models.Membership.{Role}

pub data Status : Type 0 where
  pending accepted expired : Status

-- the members' values
abbrev pub value : Status → String
value pending = "pending"
value accepted = "accepted"
value expired = "expired"

abbrev pub status_beq : Status → Status → Bool
status_beq pending pending = true
status_beq accepted accepted = true
status_beq expired expired = true
status_beq _ _ = false

pub status_beq_iff : (a b : Status) → (status_beq a b ≡ true) ↔ (a ≡ b)
status_beq_iff a b = ground arith

instance abbrev pub status_eq : Comparable Status
status_eq = record { same = status_beq; decides = status_beq_iff }

pub record Invitation : Type 0 where
  pub id : Uuid
  pub tenant_id : Uuid
  pub email : Text
  pub role : Role
  pub token_hash : Text
  pub status : Status
  pub invited_by_user_id : Uuid
  pub created_at : DateTime
  pub expires_at : DateTime
  pub accepted_at : Option DateTime

unfoldable pub check_expiry_ordering : Invitation → Result Error Invitation
unfolding le_datetime
check_expiry_ordering i = do
  not_later ← or_raise (le_datetime i.expires_at i.created_at) type_error
  raise_if not_later (value_error "expires_at must be later than created_at")
  ok i

check_accepted : Status → Invitation → Result Error Invitation
check_accepted accepted i = do
  or_raise i.accepted_at (value_error "accepted_at is required when status is 'accepted'")
  ok i
check_accepted _ i = ok i

unfoldable pub check_accepted_at_present_when_accepted : Invitation → Result Error Invitation
unfolding check_accepted
check_accepted_at_present_when_accepted i = check_accepted i.status i

-- `Invitation(**data)`: the fields first, then the validators in their order.
unfoldable pub validate : (Text → Option Text) → Invitation → Result Error Invitation
validate email_str data_in = do
  email ← or_raise (email_str data_in.email) (validation_error "email" (data_in.email ∷ []))
  over_input (data_in.email ∷ data_in.token_hash ∷ []) (do
    ordered ← check_expiry_ordering (record data_in { email = email })
    check_accepted_at_present_when_accepted ordered)

abbrev pub fresh : Uuid → Uuid → Text → Role → Text → Uuid → DateTime → DateTime → Invitation
fresh id tenant_id email role token_hash invited_by_user_id created_at expires_at = record {
  id = id;
  tenant_id = tenant_id;
  email = email;
  role = role;
  token_hash = token_hash;
  status = pending;
  invited_by_user_id = invited_by_user_id;
  created_at = created_at;
  expires_at = expires_at;
  accepted_at = none;
}
