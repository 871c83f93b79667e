-- ===== src/Repositories/InvitationRepository.antt =====
-- app/repositories/in_memory/invitation_repository.py: class InMemoryInvitationRepository
pub mod Lookup
pub mod Consistency
pub mod Acceptance
use flowtona.Common.{
  Text, not, Option, none, some, DateTime, le_datetime, lookup, insert, contains, Result, ok, err,
  or_raise, raise_if, ◌==◌, nat_eq, list_eq,
}
use flowtona.Common.Action.{◌>>=◌, ◌>>◌, pure, lift, gets, modify}
use flowtona.Exceptions.{
  Uuid, Error, duplicate_entry, record_not_found, concurrent_update, by_uuid, type_error,
}
use flowtona.Email.{normalise_email}
use flowtona.Models.Membership.{Role}
use flowtona.Models.Invitation.{Invitation, pending, accepted, value, status_eq, validate, fresh}
use flowtona.Store.{Store, Method, index}

module _ (email_str : Text → Option Text) where
  unfoldable pub create :
      Uuid → Text → Role → Text → Uuid → DateTime → Uuid → DateTime → Method Invitation
  create tenant_id email role token_hash invited_by_user_id expires_at id now = do
    let normalized = normalise_email email
    taken ← gets (λ s. contains token_hash s.invitation_id_by_token_hash)
    lift (raise_if taken (duplicate_entry "invitation" "token_hash"))
    invitation ← lift (
        validate email_str
          (fresh id tenant_id normalized role token_hash invited_by_user_id now expires_at))
    modify
        (λ s. record s { invitations_by_id = insert invitation.id invitation s.invitations_by_id })
    modify (λ s. record s {
      invitation_id_by_token_hash = insert token_hash invitation.id s.invitation_id_by_token_hash;
    })
    pure invitation

  unfoldable pub mark_accepted : Uuid → DateTime → Method Invitation
  mark_accepted invitation_id accepted_at = do
    stored ← gets (λ s. lookup invitation_id s.invitations_by_id)
    invitation ← lift (or_raise stored (record_not_found "invitation" (by_uuid invitation_id)))
    lift (
        raise_if (not (invitation.status == pending)) (
          concurrent_update "invitation" (by_uuid invitation_id) (some "pending")
            (some (value invitation.status))))
    over ← lift (or_raise (le_datetime invitation.expires_at accepted_at) type_error)
    lift (
        raise_if over (
          concurrent_update "invitation" (by_uuid invitation_id) (some "unexpired")
            (some "expired")))
    updated ← lift (
        validate email_str
          (record invitation { status = accepted; accepted_at = some accepted_at }))
    modify (λ s. record s { invitations_by_id = insert invitation_id updated s.invitations_by_id })
    pure updated

found : Store → Option Uuid → Result Error (Option Invitation)
found s none = ok none
found s (some id) = elim (index id s.invitations_by_id) [ ok i ↦ ok (some i) | err e ↦ err e ]

unfoldable pub get_by_token_hash : Text → Store → Result Error (Option Invitation)
unfolding found
get_by_token_hash token_hash s = found s (lookup token_hash s.invitation_id_by_token_hash)
