-- ===== src/Flows/Sessions/Race/Fairness.antt =====
-- The invariant of a race: at most one request has won, and what the others have is kept.

use flowtona.Common.{ℕ, ◌≡◌, ◌≢◌, ◌⊎◌, inl, inr, Bool-cases, some, arith, ok, ◌==◌, ==_iff, nat_eq}
use flowtona.Models.RefreshToken.{RefreshTokenRecord, status_eq}
use flowtona.Models.RefreshToken.Validity.{as_rotated}
use flowtona.Repositories.RefreshTokenRepository.{get_by_token_hash}
use flowtona.Repositories.RefreshTokenRepository.Consistency.{IsConsistent}
use flowtona.Repositories.RefreshTokenRepository.Issuance.{IsUsable}
use flowtona.Flows.Sessions.{Renewal, IsNew, successor}
use flowtona.Flows.Sessions.Race.{Progress, ready, issued, won, lost, Race, moved}

pub Progress-cases : (p : Progress) → (p ≡ ready) ⊎ ((p ≡ issued) ⊎ ((p ≡ won) ⊎ (p ≡ lost)))
Progress-cases p = ground arith

-- Where another request is has not changed.
pub unmoved :
    (at : ℕ → Progress) (i j : ℕ) (p q : Progress)
    → p ≢ q
    → moved at i p j ≡ q
    → (i ≢ j) × (at j ≡ q)
unmoved at i j p q differs found = elim (Bool-cases (i == j)) [
  | inl same ↦ absurd (ground arith)
  | inr other ↦ (ground (arith, ==_iff i j), ground arith)
]

pub under_way :
    (at : ℕ → Progress) (i j : ℕ) (p : Progress)
    → at i ≡ issued
    → moved at i p j ≢ ready
    → at j ≢ ready
under_way at i j p now begun = elim (Bool-cases (i == j)) [
  | inl same ↦ ground (arith, ==_iff i j)
  | inr other ↦ ground arith
]

module _ (t : RefreshTokenRecord) (request : ℕ → Renewal) where
  abbrev pub heir : ℕ → RefreshTokenRecord
  heir i = successor t (request i)

  abbrev pub handed : ℕ → RefreshTokenRecord
  handed w = as_rotated (request w).id (request w).at t

  -- The token is untouched and nobody is done, or it was handed over to the one winner.
  abbrev pub Decided : Race → Type 0
  Decided race =
      ((get_by_token_hash t.token_hash race.store ≡ ok (some t))
        × ((i : ℕ) → (race.at i ≢ won) × (race.at i ≢ lost)))
      ⊎ ((w : ℕ) × (race.at w ≡ won)
          × (get_by_token_hash t.token_hash race.store ≡ ok (some (handed w)))
          × ((i : ℕ) → race.at i ≡ won → i ≡ w))

  pub record IsFair (race : Race) : Type 0 where
    pub consistent : IsConsistent race.store
    pub fresh : (i : ℕ) → race.at i ≡ ready → IsNew race.store (request i)
    pub usable : (i : ℕ) → race.at i ≢ ready → IsUsable race.store (heir i)
    pub decided : Decided race
