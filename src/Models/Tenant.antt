-- ===== src/Models/Tenant.antt =====
-- app/models/tenant.py
use flowtona.Common.{Text, DateTime}
use flowtona.Exceptions.{Uuid}

pub record Tenant : Type 0 where
  pub id : Uuid
  pub tenant_label : Text
  pub created_at : DateTime
