-- ===== src/Models/RefreshToken/Validity.antt =====
-- Which records the constructor of RefreshTokenRecord accepts.
use flowtona.Common.{◌≡◌, ◌↔◌, true, false, none, some, arith, is_some, DateTime, le_datetime, ok}
use flowtona.Exceptions.{Uuid}
use flowtona.Models.RefreshToken.{RefreshTokenRecord, Status, active, rotated, revoked, validate}

-- What the class promises of a record, status by status.
abbrev pub FitsStatus : Status → RefreshTokenRecord → Type 0
FitsStatus active t = t.replaced_by_token_id ≡ none
FitsStatus rotated t = is_some t.rotated_at ≡ true
FitsStatus revoked t = is_some t.revoked_at ≡ true

abbrev pub IsWellFormed : RefreshTokenRecord → Type 0
IsWellFormed t = (le_datetime t.expires_at t.issued_at ≡ some false) × FitsStatus t.status t

-- The constructor returns a record exactly if it expires after its issue, on the same kind of clock, and has what its status asks for; then it returns it unchanged.
pub validate_token_iff :
    (t u : RefreshTokenRecord) → (validate t ≡ ok u) ↔ ((u ≡ t) × IsWellFormed t)
unfolding validate
validate_token_iff t u = ground arith

abbrev pub as_rotated : Uuid → DateTime → RefreshTokenRecord → RefreshTokenRecord
as_rotated replacement at t = record t {
  status = rotated;
  rotated_at = some at;
  replaced_by_token_id = some replacement;
}

abbrev pub as_revoked : DateTime → RefreshTokenRecord → RefreshTokenRecord
as_revoked at t = record t { status = revoked; revoked_at = some at }

pub validate-as_rotated :
    (replacement : Uuid) (at : DateTime) (t : RefreshTokenRecord)
    → validate t ≡ ok t
    → validate (as_rotated replacement at t) ≡ ok (as_rotated replacement at t)
unfolding validate
validate-as_rotated replacement at t h = ground arith

-- A record that was rotated before keeps its successor when it is revoked.
pub validate-as_revoked :
    (at : DateTime) (t : RefreshTokenRecord)
    → validate t ≡ ok t
    → validate (as_revoked at t) ≡ ok (as_revoked at t)
unfolding validate
validate-as_revoked at t h = ground arith
