-- ===== src/History/Parts.antt =====
-- Which repository a call belongs to, and that it writes the collections of that one alone.
use flowtona.Common.{Text, Option}
use flowtona.Email.{IsStable}
use flowtona.Store.{Store}
use flowtona.History.{Step}
use flowtona.History.Frames
use flowtona.History.Soundness.{IsSound}

pub data Part : Type 0 where
  users tenants memberships invitations verifications tokens : Part

abbrev pub WritesOnly : Part → Store → Store → Type 0
WritesOnly users = Frames.UsersOnly
WritesOnly tenants = Frames.TenantsOnly
WritesOnly memberships = Frames.MembershipsOnly
WritesOnly invitations = Frames.InvitationsOnly
WritesOnly verifications = Frames.VerificationsOnly
WritesOnly tokens = Frames.TokensOnly

module _ (email_str : Text → Option Text) where
  abbrev pub part : {s s' : Store} → Step email_str s s' → Part
  part (Step.user_create _ _ _ _ _ _ _) = users
  part (Step.user_update _ _) = users
  part (Step.tenant_create _ _ _ _ _) = tenants
  part (Step.membership_create _ _ _ _ _ _ _) = memberships
  part (Step.membership_update _ _) = memberships
  part (Step.invitation_create _ _ _ _ _ _ _ _ _ _) = invitations
  part (Step.mark_accepted _ _ _) = invitations
  part (Step.verification_create _ _ _ _ _ _ _ _) = verifications
  part (Step.mark_consumed _ _ _) = verifications
  part (Step.revoke_pending _ _ _) = verifications
  part _ = tokens

  module _ (stable : IsStable email_str) where
    pub only :
        {s s' : Store}
        → IsSound email_str s
        → (st : Step email_str s s') → WritesOnly (part st) s s'
    only i (Step.user_create s e p d id now new) =
        Frames.user_create-UsersOnly email_str s e p d id now
    only i (Step.user_update s u) = Frames.user_update-UsersOnly email_str s u
    only i (Step.tenant_create s label id now new) = Frames.tenant_create-TenantsOnly s label id now
    only i (Step.membership_create s u t role id now new) =
        Frames.membership_create-MembershipsOnly email_str s u t role id now
    only i (Step.membership_update s m) = Frames.membership_update-MembershipsOnly email_str s m
    only i (Step.invitation_create s t e role h by expires id now new) =
        Frames.invitation_create-InvitationsOnly email_str stable s t e role h by expires id now
    only i (Step.mark_accepted s id at) =
        Frames.mark_accepted-InvitationsOnly email_str stable s id at i.invitations
    only i (Step.verification_create s u e h expires id now new) =
        Frames.verification_create-VerificationsOnly email_str stable s u e h expires id now
    only i (Step.mark_consumed s id at) =
        Frames.mark_consumed-VerificationsOnly email_str stable s id at i.verifications
    only i (Step.revoke_pending s u at) =
        Frames.revoke_pending-VerificationsOnly email_str stable s u at i.verifications
    only i (Step.token_create s u t f h expires id now new) =
        Frames.token_create-TokensOnly s u t f h expires id now
    only i (Step.mark_rotated s h replacement at) =
        Frames.mark_rotated-TokensOnly s i.tokens at h replacement
    only i (Step.revoke_family s f at) = Frames.revoke_family-TokensOnly s i.tokens at f
    only i (Step.revoke_all_active s u t at) = Frames.revoke_all_active-TokensOnly s i.tokens at u t
