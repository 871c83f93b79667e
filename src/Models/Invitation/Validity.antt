-- ===== src/Models/Invitation/Validity.antt =====
-- Which records the constructor of Invitation accepts.
use flowtona.Common.{
  Text, ◌≡◌, ◌↔◌, inl, inr, true, false, Option, some, arith, is_some, DateTime, le_datetime, ok,
  Option-cases,
}
use flowtona.Models.Invitation.{
  Invitation, Status, accepted, validate, check_expiry_ordering,
  check_accepted_at_present_when_accepted,
}

-- What the class asks of a record: only an accepted one must say when.
abbrev pub FitsStatus : Status → Invitation → Type 0
FitsStatus accepted i = is_some i.accepted_at ≡ true
FitsStatus _ i = Unit

abbrev pub IsWellFormed : Invitation → Type 0
IsWellFormed i = (le_datetime i.expires_at i.created_at ≡ some false) × FitsStatus i.status i

module _ (email_str : Text → Option Text) where
  -- The constructor returns a record exactly if the address is accepted, the record expires after its creation on the same kind of clock, and an accepted one has its time of acceptance; it then returns the data with the address that the check of addresses gave.
  pub validate_invitation_iff :
      (i u : Invitation)
      → (validate email_str i ≡ ok u)
        ↔ ((email_str i.email ≡ some u.email) × (u ≡ record i { email = u.email }) × IsWellFormed i)
  unfolding validate check_expiry_ordering check_accepted_at_present_when_accepted
  validate_invitation_iff i u = elim (Option-cases (email_str i.email)) [
    | inl refused ↦ ground arith
    | inr (a, taken) ↦ ground arith
  ]

abbrev pub as_accepted : DateTime → Invitation → Invitation
as_accepted at i = record i { status = accepted; accepted_at = some at }

pub validate-as_accepted :
    (email_str : Text → Option Text) (at : DateTime) (i : Invitation)
    → validate email_str i ≡ ok i
    → validate email_str (as_accepted at i) ≡ ok (as_accepted at i)
validate-as_accepted email_str at i storable = ground (
  arith,
  validate_invitation_iff email_str i i,
  validate_invitation_iff email_str (as_accepted at i) (as_accepted at i),
)
