-- ===== src/Flows/Sessions/Race/Winner.antt =====
-- Who wins a race, and who gets that far.

use flowtona.Common.{ℕ, ◌≡◌, ◌≢◌, refl, sym, ◌∙◌, inl, inr, List, some, arith, ok, nat_eq}
use flowtona.Models.RefreshToken.{RefreshTokenRecord, status_eq}
use flowtona.Models.RefreshToken.Validity.{as_rotated}
use flowtona.Store.{Store}
use flowtona.Repositories.RefreshTokenRepository.{get_by_token_hash}
use flowtona.Repositories.RefreshTokenRepository.Consistency.{IsConsistent}
use flowtona.Repositories.RefreshTokenRepository.Issuance
use flowtona.Repositories.RefreshTokenRepository.Issuance.{IsUsable}
use flowtona.Flows.Sessions.{Renewal, IsNew, successor}
use flowtona.Flows.Sessions.Race.{ready, won, lost, Race, run, start}
use flowtona.Flows.Sessions.Race.Fairness.{IsFair}
use flowtona.Flows.Sessions.Race.Preservation.{run-IsFair}

module _ (s : Store) (t : RefreshTokenRecord) (request : ℕ → Renewal) (schedule : List ℕ) where
  abbrev pub outcome : Race
  outcome = run t request schedule (start s)

  -- However the calls of any number of requests are ordered that renew the same active token of a consistent store, with UUIDs and hashes that are new and differ from request to request, and expiries in the future: at most one request wins; where one has lost, one has won; the token is then recorded as replaced by the successor of the winner; and the successor of every request that has called `create` is stored and active, a loser's too.
  pub race_has_one_winner :
      IsConsistent s
      → IsUsable s t
      → ((i : ℕ) → IsNew s (request i))
      → ((i j : ℕ) → (request i).id ≡ (request j).id → i ≡ j)
      → ((i j : ℕ) → (request i).token_hash ≡ (request j).token_hash → i ≡ j)
      → ((i j : ℕ) → outcome.at i ≡ won → outcome.at j ≡ won → i ≡ j)
        × ((i : ℕ) → outcome.at i ≡ lost → (w : ℕ) × (outcome.at w ≡ won))
        × ((w : ℕ)
            → outcome.at w ≡ won
            → get_by_token_hash t.token_hash outcome.store
              ≡ ok (some (as_rotated (request w).id (request w).at t)))
        × ((i : ℕ) → outcome.at i ≢ ready → IsUsable outcome.store (successor t (request i)))
  race_has_one_winner c usable new ids hashes = (
    λ i j at_i at_j. elim fair.decided [
      | inl (known, undone) ↦ absurd ((undone i).0 at_i)
      | inr (w, at_w, got, only) ↦ only i at_i ∙ sym (only j at_j)
    ],
    λ i at_i. elim fair.decided [
      | inl (known, undone) ↦ absurd ((undone i).1 at_i)
      | inr (w, at_w, got, only) ↦ (w, at_w)
    ],
    λ w at_w. elim fair.decided [
      | inl (known, undone) ↦ absurd ((undone w).0 at_w)
      | inr (v, at_v, got, only) ↦ rw (only w at_w) got
    ],
    fair.usable,
  )
    where
      others : (i : ℕ) → (request i).id ≢ t.id
      others i = ground (arith, Issuance.stored s c t usable.0, (new i).0)

      fair : IsFair t request outcome
      fair = run-IsFair t usable.1 request others ids hashes schedule (start s) (record {
        consistent = c;
        fresh = λ i at_i. new i;
        usable = λ i at_i. absurd (at_i refl);
        decided = inl (usable.0, λ i. (λ e. absurd (ground arith), λ e. absurd (ground arith)));
      })
