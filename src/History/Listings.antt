-- ===== src/History/Listings.antt =====
-- The memberships that a user is listed with over a run of the service.
use flowtona.Common.{
  ◌≡◌, sym, ◌∙◌, ap, Text, Option, some, List, [], ◌∷◌, ◌++◌, arith, Dict, lookup, ◌==◌,
  Option-cases, Bool-cases, Result-cases, inl, inr, ok, ==_iff, nat_eq, pair_eq,
}
use mathlib.Core.List.{append-nil, append_assoc}
use flowtona.Email.{IsStable}
use flowtona.Exceptions.{Uuid}
use flowtona.Models.Membership.{TenantMembership}
use flowtona.Store.{Store}
use flowtona.Repositories.MembershipRepository
use flowtona.Repositories.MembershipRepository.{collect, ids_of, get_memberships_for_user}
use flowtona.Repositories.MembershipRepository.Consistency as Memberships
use flowtona.Repositories.MembershipRepository.Listing.{get_memberships_for_user_lem}
use flowtona.History.{Step, Reach, here, next}
use flowtona.History.Invariant.{IsSound, Reach-IsSound}
use flowtona.History.Parts.{only}

abbrev pub ids_in : List TenantMembership → List Uuid
ids_in [] = []
ids_in (m ∷ ms) = m.id ∷ ids_in ms

-- A listing has the ids that the index lists, in their order.
ids_in-collect :
    (d : Dict Uuid TenantMembership)
    → ((k : Uuid) (m : TenantMembership) → lookup k d ≡ some m → m.id ≡ k)
    → (ids : List Uuid) (ms : List TenantMembership) → collect d ids ≡ ok ms
    → ids_in ms ≡ ids
unfolding collect
ids_in-collect d own [] ms run = ground arith
ids_in-collect d own (k ∷ ids) ms run = elim (Result-cases (collect d ids)) [
  | inl (e, failed) ↦ absurd (ground arith)
  | inr (rest, worked) ↦ elim (Option-cases (lookup k d)) [
    | inl absent ↦ absurd (ground arith)
    | inr (m, found) ↦ ground (arith, own k m found, ids_in-collect d own ids rest worked)
  ]
]

-- The listing of the user `u` goes on.
abbrev Extends : Uuid → Store → Store → Type 0
Extends u s s' =
    (ks : List Uuid) × (ids_of u s'.membership_ids_by_user
      ≡ ids_of u s.membership_ids_by_user ++ ks)

abbrev lists_of : Store → Dict Uuid (List Uuid)
lists_of s = s.membership_ids_by_user

Extends-same : (u : Uuid) (s s' : Store) → lists_of s' ≡ lists_of s → Extends u s s'
Extends-same u s s' same =
    ([], ap (ids_of u) same ∙ sym (append-nil (ids_of u s.membership_ids_by_user)))

module _ (email_str : Text → Option Text) (stable : IsStable email_str) (u : Uuid) where
  Step-Extends : {s s' : Store} → IsSound email_str s → Step email_str s s' → Extends u s s'
  Step-Extends i (Step.membership_create s v t role id now new) =
      let lem = Memberships.create_membership_lem v t role id now s in
      elim (Option-cases (lookup (v, t) s.membership_id_by_user_tenant)) [
        | inr (k, taken) ↦
            Extends-same u s (MembershipRepository.create v t role id now s).1 (ground (arith, lem))
        | inl free ↦
            let all = Memberships.ids_of-append_to id v u s.membership_ids_by_user in
            elim (Bool-cases (v == u)) [
              | inl own ↦ (id ∷ [], ground (arith, lem, all, ==_iff v u))
              | inr other ↦
                  ([], ground (arith, lem, all, append-nil (ids_of u s.membership_ids_by_user)))
            ]
      ]
  Step-Extends i (Step.membership_update s m) =
      Extends-same u s (MembershipRepository.update m s).1
        (ground (arith, Memberships.update_membership_lem m s))
  Step-Extends {s} {s'} i st = Extends-same u s s' (ap lists_of (only email_str stable i st))

  Reach-Extends : {s s' : Store} → IsSound email_str s → Reach email_str s s' → Extends u s s'
  Reach-Extends i here = ([], sym (append-nil _))
  Reach-Extends i (next r st) =
      let (ks, before) = Reach-Extends i r in
      let (ls, after) = Step-Extends (Reach-IsSound email_str stable i r) st in
      (ks ++ ls, after ∙ ap (λ x. x ++ ls) before ∙ append_assoc _ ks ls)

  -- With a stable check of addresses, from a sound store, whatever calls follow: where a user's listing was returned before, it is returned after, with the same ids in the same order and possibly more behind them.
  pub listing_goes_on :
      (s s' : Store) (ms : List TenantMembership)
      → IsSound email_str s
      → Reach email_str s s'
      → get_memberships_for_user u s ≡ ok ms
      → (ms' : List TenantMembership) × (ks : List Uuid) × (get_memberships_for_user u s' ≡ ok ms')
        × (ids_in ms' ≡ ids_in ms ++ ks)
  unfolding get_memberships_for_user
  listing_goes_on s s' ms i r before =
      let (ks, extends) = Reach-Extends i r in
      let i' = Reach-IsSound email_str stable i r in
      let (ms', after, _) = get_memberships_for_user_lem s' u i'.memberships in
      let old =
        ids_in-collect s.memberships_by_id i.memberships.indexed.own_id
          (ids_of u s.membership_ids_by_user) ms before in
      let new =
        ids_in-collect s'.memberships_by_id i'.memberships.indexed.own_id
          (ids_of u s'.membership_ids_by_user) ms' after in
      (ms', ks, after, new ∙ extends ∙ ap (λ x. x ++ ks) (sym old))
