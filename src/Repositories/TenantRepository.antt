-- ===== src/Repositories/TenantRepository.antt =====
-- app/repositories/in_memory/tenant_repository.py: class InMemoryTenantRepository
pub mod Consistency
use flowtona.Common.{Text, Option, DateTime, lookup, insert, nat_eq}
use flowtona.Common.Action.{◌>>◌, pure, modify}
use flowtona.Exceptions.{Uuid}
use flowtona.Models.Tenant.{Tenant}
use flowtona.Store.{Store, Method}

unfoldable pub create : Text → Uuid → DateTime → Method Tenant
create tenant_label id now = do
  let tenant : Tenant = record { id = id; tenant_label = tenant_label; created_at = now }
  modify (λ s. record s { tenants_by_id = insert tenant.id tenant s.tenants_by_id })
  pure tenant

unfoldable pub get_by_id : Uuid → Store → Option Tenant
get_by_id tenant_id s = lookup tenant_id s.tenants_by_id
