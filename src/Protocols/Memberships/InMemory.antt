-- ===== src/Protocols/Memberships/InMemory.antt =====
-- InMemoryMembershipRepository as an implementation of the protocol.
use flowtona.Common.{
  ◌≡◌, ◌≢◌, ◌⊎◌, inl, inr, Option, none, some, arith, DateTime, ok, err, ==_iff, nat_eq, pair_eq,
  lookup, insert, lookup-insert, Option-cases, IsIndexed-cases,
}
use flowtona.Common.Action.{at_end}
use flowtona.Exceptions.{
  Uuid, Error, duplicate_entry, record_not_found, by_uuid, not_implemented_error,
}
use flowtona.Models.Membership.{TenantMembership, Role, fresh}
use flowtona.Store.{Store}
use flowtona.Repositories.MembershipRepository
use flowtona.Repositories.MembershipRepository.Consistency
use flowtona.Repositories.MembershipRepository.Listing
use flowtona.Repositories.MembershipRepository.Lookup.{get_by_user_and_tenant_iff}
use flowtona.Protocols.Memberships.{MembershipOperations, KeepsMemberships}

abbrev pub in_memory_memberships : MembershipOperations Store
in_memory_memberships = record {
  create = MembershipRepository.create;
  get_by_user_and_tenant = MembershipRepository.get_by_user_and_tenant;
  get_memberships_for_user = MembershipRepository.get_memberships_for_user;
  update = MembershipRepository.update;
}

abbrev pub membership_of : Uuid → Store → Option TenantMembership
membership_of k s = lookup k s.memberships_by_id

-- What the lookup answers is what the index holds.
indexed :
    (s : Store) (u n : Uuid) (x : Option TenantMembership)
    → Consistency.IsConsistent s
    → MembershipRepository.get_by_user_and_tenant u n s ≡ ok x
    → ((x ≡ none) × (lookup (u, n) s.membership_id_by_user_tenant ≡ none))
      ⊎ ((k : Uuid) × (m : TenantMembership) × (x ≡ some m)
          × (lookup (u, n) s.membership_id_by_user_tenant ≡ some k))
unfolding MembershipRepository.get_by_user_and_tenant
indexed s u n x c found =
    elim (IsIndexed-cases Consistency.id_of Consistency.OwnsPair (u, n) c.indexed) [
      | inl absent ↦ inl (ground arith, absent)
      | inr (k, v, leads, at, owns) ↦ inr (k, v, ground arith, leads)
    ]

module _ (s : Store) (c : Consistency.IsConsistent s) (u n : Uuid) (role : Role) (id : Uuid)
    (now : DateTime) where
  joins :
      MembershipRepository.get_by_user_and_tenant u n s ≡ ok none
      → MembershipRepository.create u n role id now s
        ≡ (ok (fresh id u n role now), Consistency.added u n role id now s)
  joins free = elim (indexed s u n none c free) [
    | inl (_, absent) ↦ ground (arith, Consistency.create_membership_lem u n role id now s)
    | inr (k, m, wrong, _) ↦ absurd (ground arith)
  ]

  joined_before :
      (m : TenantMembership)
      → MembershipRepository.get_by_user_and_tenant u n s ≡ ok (some m)
      → MembershipRepository.create u n role id now s
        ≡ (err (duplicate_entry "membership" "user_tenant"), s)
  joined_before m found = elim (indexed s u n (some m) c found) [
    | inl (wrong, _) ↦ absurd (ground arith)
    | inr (k, v, _, leads) ↦ ground (arith, Consistency.create_membership_lem u n role id now s)
  ]

replaced :
    (s : Store) (m x : TenantMembership)
    → lookup m.id s.memberships_by_id ≡ some x
    → x.user_id ≡ m.user_id
    → x.tenant_id ≡ m.tenant_id
    → MembershipRepository.update m s
      ≡ (ok m, record s { memberships_by_id = insert m.id m s.memberships_by_id })
replaced s m x there user tenant = ground (
  arith,
  Consistency.update_membership_lem m s,
  ==_iff x.user_id m.user_id,
  ==_iff x.tenant_id m.tenant_id,
)

unreplaced :
    (s : Store) (m : TenantMembership)
    → ((x : TenantMembership)
        → lookup m.id s.memberships_by_id ≡ some x
        → (x.user_id ≢ m.user_id) ⊎ (x.tenant_id ≢ m.tenant_id))
    → (e : Error) × (MembershipRepository.update m s ≡ (err e, s))
unreplaced s m other = elim (Option-cases (lookup m.id s.memberships_by_id)) [
  | inl absent ↦ (
    record_not_found "membership" (by_uuid m.id),
    ground (arith, Consistency.update_membership_lem m s),
  )
  | inr (x, there) ↦ (
    not_implemented_error,
    ground (
      arith,
      Consistency.update_membership_lem m s,
      other x there,
      ==_iff x.user_id m.user_id,
      ==_iff x.tenant_id m.tenant_id,
    ),
  )
]

-- The in-memory repository keeps the protocol of memberships, on every consistent store.
pub in_memory-KeepsMemberships :
    KeepsMemberships in_memory_memberships Consistency.IsConsistent membership_of
in_memory-KeepsMemberships = record {
  looks_up = λ s u n c. (get_by_user_and_tenant_iff s u n c).0;
  finds = λ s u n m c. (get_by_user_and_tenant_iff s u n c).1 m;
  lists = λ s u c. Listing.get_memberships_for_user_lem s u c;
  creates = λ s u n role id now c new free. (
    Consistency.added u n role id now s,
    joins s c u n role id now free,
    at_end Consistency.IsConsistent (joins s c u n role id now free)
        (Consistency.create-IsConsistent u n role id now s new c),
    λ k. lookup-insert k id (fresh id u n role now) s.memberships_by_id,
  );
  unique = λ s u n role id now m c found.
      (duplicate_entry "membership" "user_tenant", joined_before s c u n role id now m found);
  updates = λ s m x c there user tenant. (
    record s { memberships_by_id = insert m.id m s.memberships_by_id },
    replaced s m x there user tenant,
    at_end Consistency.IsConsistent (replaced s m x there user tenant)
        (Consistency.update-IsConsistent m s c),
    λ k. lookup-insert k m.id m s.memberships_by_id,
  );
  refuses = λ s m c other. unreplaced s m other;
}
