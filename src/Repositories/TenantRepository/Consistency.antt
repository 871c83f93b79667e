-- ===== src/Repositories/TenantRepository/Consistency.antt =====
-- The tenants: each stands under its own id, and stays as it was created.
use flowtona.Common.{
  ◌≡◌, refl, Text, some, arith, DateTime, lookup, lookup-insert, ok, ◌==◌, nat_eq, if◌then◌else◌,
}
use flowtona.Exceptions.{Uuid}
use flowtona.Models.Tenant.{Tenant}
use flowtona.Store.{Store, empty}
use flowtona.Repositories.TenantRepository.{create, get_by_id}

pub record IsConsistent (s : Store) : Type 0 where
  pub own_id : (k : Uuid) (t : Tenant) → lookup k s.tenants_by_id ≡ some t → t.id ≡ k

pub empty-IsConsistent : IsConsistent empty
unfolding lookup
empty-IsConsistent = record { own_id = λ k t h. absurd (ground arith) }

pub frame-IsConsistent :
    {s s' : Store} → s'.tenants_by_id ≡ s.tenants_by_id → IsConsistent s → IsConsistent s'
frame-IsConsistent p c = record { own_id = rw p c.own_id }

module _ (tenant_label : Text) (id : Uuid) (now : DateTime) (s : Store) where
  abbrev pub founded : Tenant
  founded = record { id = id; tenant_label = tenant_label; created_at = now }

  -- `create` always succeeds, whatever label other tenants have; afterwards the new id finds a tenant with the label and the time, and every other id finds what it found before.
  pub get_by_id-create :
      (t : Tenant) × ((create tenant_label id now s).0 ≡ ok t)
      × (t.tenant_label ≡ tenant_label)
      × (t.created_at ≡ now)
      × ((k : Uuid)
          → get_by_id k (create tenant_label id now s).1
            ≡ (if id == k then some t else get_by_id k s))
  unfolding create get_by_id
  get_by_id-create = (founded, refl, refl, refl, λ k. lookup-insert k id founded s.tenants_by_id)

  -- `create` keeps every tenant under its own id.
  pub create-IsConsistent : IsConsistent s → IsConsistent (create tenant_label id now s).1
  unfolding create
  create-IsConsistent c = record {
    own_id = λ k t h. ground (arith, lookup-insert k id founded s.tenants_by_id, c.own_id k t);
  }
