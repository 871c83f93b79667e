-- ===== src/Tests/Races.antt =====
-- Two requests that renew one token.

use flowtona.Common.{ℕ, ◌+◌, ◌≡◌, ◌≢◌, refl, List, [], ◌∷◌, some, arith, ok, aware, lookup}
use flowtona.Models.RefreshToken.{RefreshTokenRecord}
use flowtona.Models.RefreshToken.Validity.{as_rotated}
use flowtona.Repositories.RefreshTokenRepository.{get_by_token_hash}
use flowtona.Repositories.RefreshTokenRepository.Consistency as Tokens
use flowtona.Repositories.RefreshTokenRepository.Issuance.{IsUsable}
use flowtona.Flows.Sessions.{Renewal, IsNew, successor}
use flowtona.Flows.Sessions.Race.{Race, won, lost, ready, run, start}
use flowtona.Flows.Sessions.Race.Winner.{race_has_one_winner}
use flowtona.Tests.Stores.{first_hash, full, full-IsSound}

abbrev first : RefreshTokenRecord
first = Tokens.issued 1 2 3 first_hash (aware 100) 7 (aware 0)

abbrev request : ℕ → Renewal
request i = record {
  id = 20 + i;
  token_hash = (200 + i) ∷ [];
  at = aware 5;
  expires_at = aware 105;
}

request-IsNew : (i : ℕ) → IsNew full (request i)
unfolding lookup flowtona.Common.list_beq flowtona.Common.le_datetime
request-IsNew i = (ground arith, ground arith, refl)

known : IsUsable full first
unfolding get_by_token_hash lookup flowtona.Common.list_beq
known = (refl, refl)

-- Request 1 overtakes request 0.
abbrev overtaken : Race
overtaken = run first request (0 ∷ 1 ∷ 1 ∷ 0 ∷ []) (start full)

race_has_one_winner_example :
    ((i j : ℕ) → overtaken.at i ≡ won → overtaken.at j ≡ won → i ≡ j)
    × ((i : ℕ) → overtaken.at i ≡ lost → (w : ℕ) × (overtaken.at w ≡ won))
    × ((w : ℕ)
        → overtaken.at w ≡ won
        → get_by_token_hash first_hash overtaken.store
          ≡ ok (some (as_rotated (request w).id (aware 5) first)))
    × ((i : ℕ) → overtaken.at i ≢ ready → IsUsable overtaken.store (successor first (request i)))
race_has_one_winner_example =
    race_has_one_winner full first request (0 ∷ 1 ∷ 1 ∷ 0 ∷ []) full-IsSound.tokens known
      request-IsNew (λ i j e. ground arith) (λ i j e. ground arith)

-- Request 1 has won, and request 0 has lost.
overtaken_0 : overtaken.at 0 ≡ lost
unfolding run flowtona.Repositories.RefreshTokenRepository.create lookup flowtona.Common.list_beq
    flowtona.Models.RefreshToken.validate flowtona.Common.insert
    flowtona.Repositories.RefreshTokenRepository.mark_rotated
overtaken_0 = refl

overtaken_1 : overtaken.at 1 ≡ won
unfolding run flowtona.Repositories.RefreshTokenRepository.create lookup flowtona.Common.list_beq
    flowtona.Models.RefreshToken.validate flowtona.Common.insert
    flowtona.Repositories.RefreshTokenRepository.mark_rotated
overtaken_1 = refl
