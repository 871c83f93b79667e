-- ===== src/Store.antt =====
-- app/repositories/in_memory/store.py: the collections and indexes that the repositories share.
-- The lock has no field: a method runs from its first to its last write with no other in between.
use flowtona.Common.{Text, List, [], Dict, lookup, or_raise, Result, Comparable}
use flowtona.Exceptions.{Uuid, Error, key_error}
use flowtona.Models.User.{User}
use flowtona.Models.Tenant.{Tenant}
use flowtona.Models.Membership.{TenantMembership}
use flowtona.Models.Invitation.{Invitation}
use flowtona.Models.EmailVerification.{EmailVerification}
use flowtona.Models.RefreshToken.{RefreshTokenRecord}
use flowtona.Common.Action.{Action}

pub record Store : Type 0 where
  pub users_by_id : Dict Uuid User
  pub user_id_by_email : Dict Text Uuid
  pub tenants_by_id : Dict Uuid Tenant
  pub memberships_by_id : Dict Uuid TenantMembership
  pub membership_id_by_user_tenant : Dict (Uuid × Uuid) Uuid
  pub membership_ids_by_user : Dict Uuid (List Uuid)
  pub invitations_by_id : Dict Uuid Invitation
  pub invitation_id_by_token_hash : Dict Text Uuid
  pub email_verifications_by_id : Dict Uuid EmailVerification
  pub email_verification_id_by_token_hash : Dict Text Uuid
  pub refresh_tokens_by_id : Dict Uuid RefreshTokenRecord
  pub refresh_token_id_by_hash : Dict Text Uuid
  pub refresh_token_ids_by_family : Dict Uuid (List Uuid)

-- `InMemoryIdentityStore()`
abbrev pub empty : Store
empty = record {
  users_by_id = [];
  user_id_by_email = [];
  tenants_by_id = [];
  memberships_by_id = [];
  membership_id_by_user_tenant = [];
  membership_ids_by_user = [];
  invitations_by_id = [];
  invitation_id_by_token_hash = [];
  email_verifications_by_id = [];
  email_verification_id_by_token_hash = [];
  refresh_tokens_by_id = [];
  refresh_token_id_by_hash = [];
  refresh_token_ids_by_family = [];
}

-- A method of a repository.
abbrev pub Method : Type 0 → Type 0
Method A = Action Error Store A

-- `d[k]`
abbrev pub index {ℓ} : {K V : Type ℓ} ⦃e : Comparable K⦄ → K → Dict K V → Result Error V
index k d = or_raise (lookup k d) key_error
