-- ===== src/Tests/Tokens.antt =====
-- Refresh tokens: each theorem at the two tokens of family 3.
use flowtona.Common.{
  ℕ, List, [], ◌∷◌, arith, is_listed, ◌≡◌, ◌≢◌, ◌↔◌, refl, Text, Option, some, ok, err, aware,
  lookup, Dict, Result, ◌==◌, list_eq, nat_eq, if◌then◌else◌, rewrite_entry,
}
use flowtona.Exceptions.{Uuid, concurrent_update, by_uuid}
use flowtona.Models.RefreshToken.{RefreshTokenRecord, Status, active, value, validate}
use flowtona.Models.RefreshToken.Validity.{as_rotated, as_revoked}
use flowtona.Store.{Store}
use flowtona.Repositories.RefreshTokenRepository
use flowtona.Repositories.RefreshTokenRepository.{
  get_by_token_hash, mark_rotated, revoke_family, revoke_all_active,
}
use flowtona.Repositories.RefreshTokenRepository.Consistency as Tokens
use flowtona.Repositories.RefreshTokenRepository.Revocation.{unrevoked_of}
use flowtona.Repositories.RefreshTokenRepository.Revocation
use flowtona.Repositories.RefreshTokenRepository.Rotation
use flowtona.Repositories.RefreshTokenRepository.Families
use flowtona.History.{Step, Reach, here, next}
use flowtona.History.Kept.{Evolves}
use flowtona.History.Tokens.{Reach-Kept, rotated_once}
use flowtona.Repositories.RefreshTokenRepository.View.{view, logouts_commute}
use flowtona.Repositories.RefreshTokenRepository.Order.{
  Groups, HaveSameMembers, regrouped, revoke_family_unordered,
}
use flowtona.History.Logout.{logout_is_final}
use flowtona.Tests.Stores.{accepts, accepts-IsStable, first_hash, full, full-IsSound}

abbrev first : RefreshTokenRecord
first = Tokens.issued 1 2 3 first_hash (aware 100) 7 (aware 0)

abbrev first_rotated : RefreshTokenRecord
first_rotated = as_rotated 8 (aware 5) first

-- after the rotation of the first token
abbrev later : Store
later = (mark_rotated first_hash 8 (aware 5) full).1

-- and after the revocation of the family
abbrev last : Store
last = (revoke_family 3 (aware 6) later).1

found_first : get_by_token_hash first_hash full ≡ ok (some first)
unfolding get_by_token_hash lookup flowtona.Common.list_beq
found_first = refl

rotates : mark_rotated first_hash 8 (aware 5) full ≡ (ok first_rotated, later)
unfolding mark_rotated lookup flowtona.Common.list_beq validate
rotates = refl

later-Reach : Reach accepts full later
later-Reach = next here (Step.mark_rotated full first_hash 8 (aware 5))

rotated_once_example :
    (found : Status) × (found ≢ active)
    × (mark_rotated first_hash 9 (aware 7) last ≡ (
      err (concurrent_update "refresh_token" (by_uuid 7) (some "active") (some (value found))),
      last,
    ))
rotated_once_example =
    rotated_once accepts accepts-IsStable 8 9 (aware 5) (aware 7) first_hash full later last
      first_rotated full-IsSound rotates (next here (Step.revoke_family later 3 (aware 6)))

Reach-Kept_example :
    (u : RefreshTokenRecord) × (lookup 7 later.refresh_tokens_by_id ≡ some u) × Evolves first u
unfolding lookup
Reach-Kept_example = Reach-Kept accepts accepts-IsStable full-IsSound later-Reach 7 first refl

revoke_family_lem_example :
    (d : Dict Uuid RefreshTokenRecord) × (revoke_family 3 (aware 6) full
      ≡ (ok 2, Revocation.with_tokens full d))
    × ((k : Uuid)
        → lookup k d
          ≡ rewrite_entry
              (Families.unrevoked_in 3)
              (as_revoked (aware 6))
              (lookup k full.refresh_tokens_by_id))
unfolding flowtona.Common.count_where
revoke_family_lem_example = Families.revoke_family_lem (aware 6) full full-IsSound.tokens 3

revoke_all_active_lem_example :
    (d : Dict Uuid RefreshTokenRecord) × (revoke_all_active 1 2 (aware 6) full
      ≡ (ok 2, Revocation.with_tokens full d))
    × ((k : Uuid)
        → lookup k d
          ≡ rewrite_entry
              (unrevoked_of 1 2)
              (as_revoked (aware 6))
              (lookup k full.refresh_tokens_by_id))
unfolding flowtona.Common.count_where
revoke_all_active_lem_example =
    Families.revoke_all_active_lem (aware 6) full full-IsSound.tokens 1 2

mark_rotated_lem_example : mark_rotated first_hash 8 (aware 5) full ≡ (ok first_rotated, later)
unfolding mark_rotated lookup flowtona.Common.list_beq validate
mark_rotated_lem_example =
    Rotation.mark_rotated_lem 8 (aware 5) full first_hash (some first) full-IsSound.tokens
      found_first

-- after a logout of the device that has the tokens
abbrev logged_out : Store
logged_out = (revoke_family 3 (aware 6) full).1

logout_is_final_example :
    let last = (revoke_all_active 1 2 (aware 8) logged_out).1 in
    mark_rotated first_hash 9 (aware 9) last
    ≡ (err (concurrent_update "refresh_token" (by_uuid 7) (some "active") (some "revoked")), last)
unfolding lookup revoke_family flowtona.Common.Action.for_each RefreshTokenRepository.revoke_member
    RefreshTokenRepository.revoke validate flowtona.Common.insert
logout_is_final_example =
    logout_is_final accepts accepts-IsStable full logged_out _ 3 (aware 6) (aware 9) 2 first 9
      full-IsSound refl refl refl (next here (Step.revoke_all_active logged_out 1 2 (aware 8)))

-- a token of another family beside the two
abbrev two_families : Store
two_families = (RefreshTokenRepository.create 1 2 4 (106 ∷ []) (aware 100) 9 (aware 0) full).1

two_families-IsConsistent : Tokens.IsConsistent two_families
unfolding lookup
two_families-IsConsistent =
    Tokens.create-IsConsistent 1 2 4 (106 ∷ []) (aware 100) 9 (aware 0) full refl
      full-IsSound.tokens

logouts_commute_example :
    view (revoke_family 4 (aware 7) (revoke_family 3 (aware 6) two_families).1).1
    ≡ view (revoke_family 3 (aware 6) (revoke_family 4 (aware 7) two_families).1).1
logouts_commute_example =
    logouts_commute two_families 3 4 (aware 6) (aware 7) two_families-IsConsistent
      (λ same. absurd (ground arith))

-- The ids of family 3 in another order, one of them twice.
abbrev shuffled : Groups
shuffled = (3, 8 ∷ 7 ∷ 8 ∷ []) ∷ []

shuffled_same : HaveSameMembers shuffled full.refresh_token_ids_by_family
unfolding lookup is_listed
shuffled_same f k = ground arith

revoke_family_unordered_example :
    (n : ℕ) × (a : Dict Uuid RefreshTokenRecord) × (b : Dict Uuid RefreshTokenRecord)
    × (revoke_family 3 (aware 6) full ≡ (ok n, Revocation.with_tokens full a))
    × (revoke_family 3 (aware 6) (regrouped shuffled full)
        ≡ (ok n, Revocation.with_tokens (regrouped shuffled full) b))
    × ((k : Uuid) → lookup k b ≡ lookup k a)
revoke_family_unordered_example =
    revoke_family_unordered full shuffled full-IsSound.tokens shuffled_same 3 (aware 6)
