-- ===== src/Models/RefreshToken.antt =====
-- app/models/refresh_token.py
pub mod Validity
use flowtona.Common.{
  Text, String, ◌≡◌, ◌↔◌, Bool, true, false, ◌&&◌, Option, none, arith, is_some, DateTime,
  le_datetime, Result, [], ◌∷◌, or_raise, raise_if, Comparable, ◌==◌,
}
use flowtona.Common.Outcome.{◌>>=◌, ◌>>◌, ok}
use flowtona.Exceptions.{Uuid, Error, value_error, type_error, over_input}

pub data Status : Type 0 where
  active rotated revoked : Status

-- the members' values
abbrev pub value : Status → String
value active = "active"
value rotated = "rotated"
value revoked = "revoked"

abbrev pub status_beq : Status → Status → Bool
status_beq active active = true
status_beq rotated rotated = true
status_beq revoked revoked = true
status_beq _ _ = false

pub status_beq_iff : (a b : Status) → (status_beq a b ≡ true) ↔ (a ≡ b)
status_beq_iff a b = ground arith

instance abbrev pub status_eq : Comparable Status
status_eq = record { same = status_beq; decides = status_beq_iff }

pub record RefreshTokenRecord : Type 0 where
  pub id : Uuid
  pub user_id : Uuid
  pub tenant_id : Uuid
  pub family_id : Uuid
  pub token_hash : Text
  pub status : Status
  pub issued_at : DateTime
  pub expires_at : DateTime
  pub rotated_at : Option DateTime
  pub revoked_at : Option DateTime
  pub replaced_by_token_id : Option Uuid

unfoldable pub check_expiry_ordering : RefreshTokenRecord → Result Error RefreshTokenRecord
unfolding le_datetime
check_expiry_ordering t = do
  not_later ← or_raise (le_datetime t.expires_at t.issued_at) type_error
  raise_if not_later (value_error "expires_at must be later than issued_at")
  ok t

unfoldable pub check_replaced_by_not_set_while_active :
    RefreshTokenRecord → Result Error RefreshTokenRecord
check_replaced_by_not_set_while_active t = do
  raise_if (is_some t.replaced_by_token_id && t.status == active)
      (value_error "replaced_by_token_id cannot be set while status is 'active'")
  ok t

check_rotated : Status → RefreshTokenRecord → Result Error RefreshTokenRecord
check_rotated rotated t = do
  or_raise t.rotated_at (value_error "rotated_at is required when status is 'rotated'")
  ok t
check_rotated _ t = ok t

unfoldable pub check_rotated_at_present_when_rotated :
    RefreshTokenRecord → Result Error RefreshTokenRecord
unfolding check_rotated
check_rotated_at_present_when_rotated t = check_rotated t.status t

check_revoked : Status → RefreshTokenRecord → Result Error RefreshTokenRecord
check_revoked revoked t = do
  or_raise t.revoked_at (value_error "revoked_at is required when status is 'revoked'")
  ok t
check_revoked _ t = ok t

unfoldable pub check_revoked_at_present_when_revoked :
    RefreshTokenRecord → Result Error RefreshTokenRecord
unfolding check_revoked
check_revoked_at_present_when_revoked t = check_revoked t.status t

-- `RefreshTokenRecord(**data)`: the validators in their order.
unfoldable pub validate : RefreshTokenRecord → Result Error RefreshTokenRecord
unfolding check_expiry_ordering check_replaced_by_not_set_while_active
    check_rotated_at_present_when_rotated check_revoked_at_present_when_revoked
validate data_in = over_input (data_in.token_hash ∷ []) (do
  a ← check_expiry_ordering data_in
  b ← check_replaced_by_not_set_while_active a
  c ← check_rotated_at_present_when_rotated b
  check_revoked_at_present_when_revoked c)

abbrev pub fresh : Uuid → Uuid → Uuid → Uuid → Text → DateTime → DateTime → RefreshTokenRecord
fresh id user_id tenant_id family_id token_hash issued_at expires_at = record {
  id = id;
  user_id = user_id;
  tenant_id = tenant_id;
  family_id = family_id;
  token_hash = token_hash;
  status = active;
  issued_at = issued_at;
  expires_at = expires_at;
  rotated_at = none;
  revoked_at = none;
  replaced_by_token_id = none;
}
