-- ===== src/Protocols/Invitations.antt =====
-- app/repositories/invitation_repository.py: class InvitationRepository(Protocol).
-- A repository over any state is its operations; its docstrings are laws on the rows by id.
pub mod InMemory
use flowtona.Common.{
  ◌≡◌, ◌≢◌, ◌↔◌, ◌⊎◌, inl, inr, Text, Option, none, some, arith, DateTime, le_datetime, true, false,
  Result, ok, err, ◌==◌, ==_refl, nat_eq, if◌then◌else◌,
}
use flowtona.Common.Action.{Action}
use flowtona.Exceptions.{Uuid, Error, record_not_found, concurrent_update, by_uuid, type_error}
use flowtona.Models.Membership.{Role}
use flowtona.Models.Invitation.{Invitation, pending, value}
use flowtona.Models.Invitation.Validity.{as_accepted}

-- The methods; `create` is given the UUID and the time that it would draw.
pub record InvitationOperations (S : Type 0) : Type 0 where
  pub create :
      Uuid → Text → Role → Text → Uuid → DateTime → Uuid → DateTime → Action Error S Invitation
  pub get_by_token_hash : Text → S → Result Error (Option Invitation)
  pub mark_accepted : Uuid → DateTime → Action Error S Invitation

-- A pending, unexpired invitation, as `mark_accepted` wants it at a time.
abbrev pub IsOpen : DateTime → Invitation → Type 0
IsOpen at i = (i.status ≡ pending) × (le_datetime i.expires_at at ≡ some false)

-- Why `mark_accepted` refuses: by the row of the id.
abbrev pub IsRefusal : Uuid → DateTime → Option Invitation → Error → Type 0
IsRefusal id at none e = e ≡ record_not_found "invitation" (by_uuid id)
IsRefusal id at (some i) e =
    ((i.status ≢ pending)
      × (e ≡ concurrent_update "invitation" (by_uuid id) (some "pending") (some (value i.status))))
    ⊎ (((i.status ≡ pending)
          × (le_datetime i.expires_at at ≡ some true)
          × (e ≡ concurrent_update "invitation" (by_uuid id) (some "unexpired") (some "expired")))
        ⊎ ((i.status ≡ pending) × (le_datetime i.expires_at at ≡ none) × (e ≡ type_error)))

-- The promises, on the states that satisfy `IsGood`, where `row` reads the row of an id and `address` gives the address to store for a text, if it has one.
pub record KeepsInvitations {S : Type 0} (o : InvitationOperations S) (IsGood : S → Type 0)
    (row : Uuid → S → Option Invitation) (address : Text → Option Text) : Type 0 where
  pub creates :
      (s s' : S) (tenant : Uuid) (email : Text) (role : Role) (h : Text) (by : Uuid)
      (expires : DateTime) (id : Uuid) (now : DateTime) (i : Invitation)
      → IsGood s
      → row id s ≡ none
      → o.create tenant email role h by expires id now s ≡ (ok i, s')
      → ((i.id ≡ id)
          × (i.tenant_id ≡ tenant)
          × (address email ≡ some i.email)
          × (i.role ≡ role)
          × (i.token_hash ≡ h)
          × (i.status ≡ pending)
          × (i.invited_by_user_id ≡ by)
          × (i.created_at ≡ now)
          × (i.expires_at ≡ expires))
        × IsGood s'
        × ((k : Uuid) → row k s' ≡ (if id == k then some i else row k s))
  pub looks_up :
      (s : S) (h : Text) → IsGood s → (x : Option Invitation) × (o.get_by_token_hash h s ≡ ok x)
  pub finds :
      (s : S) (h : Text) (i : Invitation)
      → IsGood s
      → (o.get_by_token_hash h s ≡ ok (some i)) ↔ ((row i.id s ≡ some i) × (i.token_hash ≡ h))
  pub accepts :
      (s : S) (id : Uuid) (at : DateTime) (i : Invitation)
      → IsGood s
      → row id s ≡ some i
      → IsOpen at i
      → (s' : S) × (o.mark_accepted id at s ≡ (ok (as_accepted at i), s'))
        × IsGood s'
        × ((k : Uuid) → row k s' ≡ (if id == k then some (as_accepted at i) else row k s))
  pub refuses :
      (s : S) (id : Uuid) (at : DateTime)
      → IsGood s
      → ((i : Invitation) → row id s ≡ some i → ¬ IsOpen at i)
      → (e : Error) × (o.mark_accepted id at s ≡ (err e, s)) × IsRefusal id at (row id s) e

module _ {S : Type 0} (o : InvitationOperations S) (IsGood : S → Type 0)
    (row : Uuid → S → Option Invitation) (address : Text → Option Text)
    (keeps : KeepsInvitations o IsGood row address) where
  -- Whatever repository keeps the protocol: an invitation that its token finds, pending and unexpired, can be accepted; afterwards the token finds the accepted invitation, and no second acceptance succeeds, whenever it comes.
  pub accept_once :
      (s : S) (h : Text) (i : Invitation) (at later : DateTime)
      → IsGood s
      → o.get_by_token_hash h s ≡ ok (some i)
      → IsOpen at i
      → let accepted = as_accepted at i in
        (s' : S) × (o.mark_accepted i.id at s ≡ (ok accepted, s'))
        × (o.get_by_token_hash h s' ≡ ok (some accepted))
        × ((e : Error) × (o.mark_accepted i.id later s' ≡ (err e, s')))
  accept_once s h i at later good found waiting =
      let (stored, same) = (keeps.finds s h i good).0 found in
      let (s', run, good', rows) = keeps.accepts s i.id at i good stored waiting in
      let stored' : row i.id s' ≡ some (as_accepted at i) =
        ground (arith, rows i.id, ==_refl i.id) in
      let (e, refused, why) =
        keeps.refuses s' i.id later good'
          (λ j there open_still. absurd (ground (arith, stored', there))) in
      (s', run, (keeps.finds s' h (as_accepted at i) good').1 (stored', same), (e, refused))
