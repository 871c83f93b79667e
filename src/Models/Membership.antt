-- ===== src/Models/Membership.antt =====
-- app/models/membership.py, and the roles of app/constants/roles.py
use flowtona.Common.{ℤ, pos, Option, none, DateTime}
use flowtona.Exceptions.{Uuid}

pub data Role : Type 0 where
  owner dispatcher technician : Role

pub data MembershipStatus : Type 0 where
  active suspended revoked : MembershipStatus

pub record TenantMembership : Type 0 where
  pub id : Uuid
  pub user_id : Uuid
  pub tenant_id : Uuid
  pub role : Role
  pub status : MembershipStatus
  pub permissions_version : ℤ
  pub created_at : DateTime
  pub updated_at : Option DateTime

abbrev pub fresh : Uuid → Uuid → Uuid → Role → DateTime → TenantMembership
fresh id user_id tenant_id role created_at = record {
  id = id;
  user_id = user_id;
  tenant_id = tenant_id;
  role = role;
  status = active;
  permissions_version = pos 0;
  created_at = created_at;
  updated_at = none;
}
