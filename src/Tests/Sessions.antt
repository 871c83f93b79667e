-- ===== src/Tests/Sessions.antt =====
-- Sessions that are renewed, and what happens once, at small runs.
use flowtona.Common.{
  true, ◌≡◌, ◌≢◌, refl, Text, some, none, [], ◌∷◌, List, arith, ok, err, aware, lookup,
}
use flowtona.Exceptions.{Uuid}
use flowtona.Models.User
use flowtona.Models.User.{User}
use flowtona.Models.Membership
use flowtona.Models.Membership.{TenantMembership, owner, technician}
use flowtona.Models.RefreshToken.{RefreshTokenRecord, active, value, rotated}
use flowtona.Models.RefreshToken.Validity.{as_rotated}
use flowtona.Store.{Store, empty}
use flowtona.Repositories.UserRepository
use flowtona.Repositories.UserRepository.{get_by_id}
use flowtona.Repositories.MembershipRepository
use flowtona.Repositories.MembershipRepository.{get_by_user_and_tenant}
use flowtona.Repositories.RefreshTokenRepository
use flowtona.Repositories.RefreshTokenRepository.{mark_rotated, revoke_family, get_by_token_hash}
use flowtona.Repositories.RefreshTokenRepository.Issuance.{IsUsable}
use flowtona.Repositories.RefreshTokenRepository.Consistency as Tokens
use flowtona.History.{Step, here, next}
use flowtona.History.Events.{Does, token_rotated, rotate}
use flowtona.History.Once.{once}
use flowtona.History.Listings.{ids_in, listing_goes_on}
use flowtona.History.Gating.{unconfirmed_is_gated}
use flowtona.Permissions.{Permission, schedule_read, has_permission}
use flowtona.History.Privileges.{privileges_stay}
use flowtona.Flows.Sessions.{Renewal, renew, renew_all, Continues, session_goes_on}
use flowtona.Flows.Sessions.Leaves.{Flows, begin, then, login, renewal, one_leaf}
use flowtona.Tests.Stores.{accepts, accepts-IsStable, first_hash, full, full-IsSound}

abbrev first : RefreshTokenRecord
first = Tokens.issued 1 2 3 first_hash (aware 100) 7 (aware 0)

abbrev third : Renewal
third = record { id = 9; token_hash = 106 ∷ []; at = aware 5; expires_at = aware 105 }

abbrev fourth : Renewal
fourth = record { id = 10; token_hash = 107 ∷ []; at = aware 6; expires_at = aware 106 }

known : get_by_token_hash first_hash full ≡ ok (some first)
unfolding get_by_token_hash lookup flowtona.Common.list_beq
known = refl

session_goes_on_example :
    (u : RefreshTokenRecord) × (s' : Store) × (renew_all first (third ∷ fourth ∷ []) full
      ≡ (ok u, s'))
    × IsUsable s' u
    × Continues first u
unfolding lookup flowtona.Common.list_beq flowtona.Common.le_datetime
session_goes_on_example =
    session_goes_on (third ∷ fourth ∷ []) full first full-IsSound.tokens (known, refl)
      (
        (refl, refl, refl),
        (λ e. absurd (ground arith), λ e. absurd (ground arith), tt),
        ((refl, refl, refl), tt, tt),
      )

-- The token was rotated by another request.
abbrev first_rotated : RefreshTokenRecord
first_rotated = as_rotated 8 (aware 5) first

abbrev later : Store
later = (mark_rotated first_hash 8 (aware 5) full).1

rotates : mark_rotated first_hash 8 (aware 5) full ≡ (ok first_rotated, later)
unfolding mark_rotated lookup flowtona.Common.list_beq flowtona.Models.RefreshToken.validate
rotates = refl

abbrev last : Store
last = (revoke_family 3 (aware 6) later).1

once_example : ¬ Does accepts (token_rotated first_hash) last last
once_example =
    once accepts accepts-IsStable (token_rotated first_hash) full later last last full-IsSound
      (rotate full later first_hash 8 (aware 5) first_rotated rotates)
      (next here (Step.revoke_family later 3 (aware 6)))

abbrev ann : User
ann = User.fresh 1 (97 ∷ []) [] [] (aware 0)

abbrev seat : TenantMembership
seat = Membership.fresh 4 1 2 owner (aware 0)

-- A run with an update of another user.
abbrev other : User
other = User.fresh 2 (98 ∷ []) [] [] (aware 0)

privileges_stay_example :
    (get_by_id 1 (UserRepository.update other last).1 ≡ some ann)
    × (get_by_user_and_tenant 1 2 (UserRepository.update other last).1 ≡ ok (some seat))
unfolding lookup get_by_id get_by_user_and_tenant
privileges_stay_example =
    privileges_stay ann seat accepts accepts-IsStable full (UserRepository.update other last).1 2
      full-IsSound
      (next
        (next (next here (Step.mark_rotated full first_hash 8 (aware 5)))
          (Step.revoke_family later 3 (aware 6)))
        (Step.user_update last other))
      (((tt, tt), tt), λ e. absurd (ground arith)) (((tt, tt), tt), tt) refl refl

-- A login and a renewal.
abbrev logged_in : Store
logged_in = (RefreshTokenRepository.create 1 2 3 first_hash (aware 100) 7 (aware 0) empty).1

abbrev renewed : Store
renewed = (renew first third logged_in).1

opened : Flows empty logged_in
unfolding lookup
opened =
    then begin (
      login empty 1 2 3 first_hash (aware 100) 7 (aware 0) refl
        (λ k t found. absurd (ground arith)))

one_leaf_example :
    (◌≡◌ {A = Uuid} 9 9)
    × (◌≡◌ {A = RefreshTokenRecord}
        (Tokens.issued 1 2 3 (106 ∷ []) (aware 105) 9 (aware 5))
        (Tokens.issued 1 2 3 (106 ∷ []) (aware 105) 9 (aware 5)))
unfolding lookup renew get_by_token_hash RefreshTokenRepository.create
    flowtona.Models.RefreshToken.validate flowtona.Common.insert flowtona.Common.list_beq
    mark_rotated
one_leaf_example =
    one_leaf renewed (then opened (renewal logged_in first third (refl, refl) refl)) 9 9
      (Tokens.issued 1 2 3 (106 ∷ []) (aware 105) 9 (aware 5))
      (Tokens.issued 1 2 3 (106 ∷ []) (aware 105) 9 (aware 5)) refl refl refl refl refl

-- Another user signs up, and a request renews a token.
abbrev bob : User
bob = User.fresh 2 (98 ∷ []) [] [] (aware 3)

abbrev with_bob : Store
with_bob = (UserRepository.create accepts (98 ∷ []) [] [] 2 (aware 3) full).1

unconfirmed_is_gated_example :
    (get_by_id 2 (mark_rotated first_hash 8 (aware 5) with_bob).1 ≡ some bob)
    × ((p : Permission)
        → has_permission bob (Membership.fresh 11 2 2 owner (aware 4)) p ≡ ok true
        → p ≡ schedule_read)
unfolding lookup UserRepository.create flowtona.Common.list_beq flowtona.Email.normalise_email
    User.validate
unconfirmed_is_gated_example =
    unconfirmed_is_gated bob (Membership.fresh 11 2 2 owner (aware 4)) accepts accepts-IsStable full
      with_bob (mark_rotated first_hash 8 (aware 5) with_bob).1 (98 ∷ []) [] [] 2 (aware 3)
      full-IsSound refl refl (next here (Step.mark_rotated with_bob first_hash 8 (aware 5)))
      (tt, tt) refl

-- The user joins another tenant.
abbrev in_two : Store
in_two = (MembershipRepository.create 1 3 technician 9 (aware 4) full).1

listing_goes_on_example :
    (ms : List TenantMembership) × (ks : List Uuid) × (MembershipRepository.get_memberships_for_user
        1 in_two
      ≡ ok ms)
    × (ids_in ms ≡ 4 ∷ ks)
unfolding lookup MembershipRepository.get_memberships_for_user
listing_goes_on_example =
    listing_goes_on accepts accepts-IsStable 1 full in_two (seat ∷ []) full-IsSound
      (next here (Step.membership_create full 1 3 technician 9 (aware 4) refl)) refl
