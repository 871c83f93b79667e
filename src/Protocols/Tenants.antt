-- ===== src/Protocols/Tenants.antt =====
-- app/repositories/tenant_repository.py: class TenantRepository(Protocol).
pub mod InMemory
use flowtona.Common.{◌≡◌, Text, Option, some, DateTime, ok, ◌==◌, nat_eq, if◌then◌else◌}
use flowtona.Common.Action.{Action}
use flowtona.Exceptions.{Uuid, Error}
use flowtona.Models.Tenant.{Tenant}

-- The methods; `create` is given the UUID and the time that it would draw.
pub record TenantOperations (S : Type 0) : Type 0 where
  pub create : Text → Uuid → DateTime → Action Error S Tenant
  pub get_by_id : Uuid → S → Option Tenant

-- A tenant can always be created, and only its own id finds something else afterwards.
pub record KeepsTenants {S : Type 0} (o : TenantOperations S) : Type 0 where
  pub creates :
      (s : S) (tenant_label : Text) (id : Uuid) (now : DateTime)
      → let t : Tenant = record { id = id; tenant_label = tenant_label; created_at = now } in
        (s' : S) × (o.create tenant_label id now s ≡ (ok t, s'))
        × ((k : Uuid) → o.get_by_id k s' ≡ (if id == k then some t else o.get_by_id k s))
