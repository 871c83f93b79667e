-- ===== src/Protocols/Tenants/InMemory.antt =====
-- InMemoryTenantRepository as an implementation of the protocol.
use flowtona.Common.{refl, lookup-insert, nat_eq}
use flowtona.Store.{Store}
use flowtona.Repositories.TenantRepository
use flowtona.Repositories.TenantRepository.Consistency
use flowtona.Protocols.Tenants.{TenantOperations, KeepsTenants}

abbrev pub in_memory_tenants : TenantOperations Store
in_memory_tenants = record {
  create = TenantRepository.create;
  get_by_id = TenantRepository.get_by_id;
}

-- The in-memory repository keeps the protocol of tenants, on every store: `create` always succeeds, whatever labels other tenants have, the new id finds the tenant, and every other id finds what it found before.
pub in_memory-KeepsTenants : KeepsTenants in_memory_tenants
unfolding TenantRepository.create TenantRepository.get_by_id
in_memory-KeepsTenants = record {
  creates = λ s tenant_label id now. (
    (TenantRepository.create tenant_label id now s).1,
    refl,
    λ k. lookup-insert k id (Consistency.founded tenant_label id now s) s.tenants_by_id,
  );
}
