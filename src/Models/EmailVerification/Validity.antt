-- ===== src/Models/EmailVerification/Validity.antt =====
-- Which records the constructor of EmailVerification accepts.
use flowtona.Common.{
  Text, ◌≡◌, ◌↔◌, inl, inr, true, false, Option, none, some, arith, is_some, DateTime, le_datetime,
  ok, Option-cases,
}
use flowtona.Models.EmailVerification.{
  EmailVerification, Status, pending, consumed, revoked, validate, check_status_timestamps,
}

-- What the class promises of a record, status by status: each timestamp exactly with its status.
abbrev pub FitsStatus : Status → EmailVerification → Type 0
FitsStatus pending v = (v.consumed_at ≡ none) × (v.revoked_at ≡ none)
FitsStatus consumed v = (is_some v.consumed_at ≡ true) × (v.revoked_at ≡ none)
FitsStatus revoked v = (is_some v.revoked_at ≡ true) × (v.consumed_at ≡ none)

abbrev pub IsWellFormed : EmailVerification → Type 0
IsWellFormed v = (le_datetime v.expires_at v.created_at ≡ some false) × FitsStatus v.status v

check_iff :
    (v u : EmailVerification) → (check_status_timestamps v ≡ ok u) ↔ ((u ≡ v) × IsWellFormed v)
unfolding check_status_timestamps
check_iff v u = ground arith

module _ (email_str : Text → Option Text) where
  -- The constructor returns a record exactly if the address is accepted, the record expires after its creation on the same kind of clock, and its timestamps fit its status; it then returns the data with the address that the check of addresses gave.
  pub validate_verification_iff :
      (v u : EmailVerification)
      → (validate email_str v ≡ ok u)
        ↔ ((email_str v.email ≡ some u.email) × (u ≡ record v { email = u.email }) × IsWellFormed v)
  unfolding validate
  validate_verification_iff v u = elim (Option-cases (email_str v.email)) [
    | inl refused ↦ ground arith
    | inr (a, accepted) ↦ ground (arith, check_iff (record v { email = a }) u)
  ]

abbrev pub as_consumed : DateTime → EmailVerification → EmailVerification
as_consumed at v = record v { status = consumed; consumed_at = some at }

abbrev pub as_revoked : DateTime → EmailVerification → EmailVerification
as_revoked at v = record v { status = revoked; revoked_at = some at }

module _ (email_str : Text → Option Text) (at : DateTime) (v : EmailVerification)
    (storable : validate email_str v ≡ ok v) (open_still : v.status ≡ pending) where
  pub validate-as_consumed : validate email_str (as_consumed at v) ≡ ok (as_consumed at v)
  validate-as_consumed = ground (
    arith,
    validate_verification_iff email_str v v,
    validate_verification_iff email_str (as_consumed at v) (as_consumed at v),
  )

  pub validate-as_revoked : validate email_str (as_revoked at v) ≡ ok (as_revoked at v)
  validate-as_revoked = ground (
    arith,
    validate_verification_iff email_str v v,
    validate_verification_iff email_str (as_revoked at v) (as_revoked at v),
  )
