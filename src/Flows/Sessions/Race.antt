-- ===== src/Flows/Sessions/Race.antt =====
-- Requests that renew the same token at the same time: their calls in any order.
pub mod Fairness
mod Preservation
pub mod Winner
use Prim.Native.Nat.{◌≤◌}
use flowtona.Common.{
  ℕ, ◌+◌, ◌≡◌, ◌≢◌, ◌⊎◌, refl, sym, inl, inr, List, [], ◌∷◌, Bool-cases, some, arith, ok, err,
  Result, ◌==◌, ==_iff, ==_refl, insert, nat_eq, if◌then◌else◌,
}
use flowtona.Exceptions.{Error}
use flowtona.Models.RefreshToken.{RefreshTokenRecord, active, status_eq, status_beq_iff}
use flowtona.Models.RefreshToken.Validity.{as_rotated}
use flowtona.Store.{Store}
use flowtona.Repositories.RefreshTokenRepository.{create, mark_rotated, get_by_token_hash}
use flowtona.Repositories.RefreshTokenRepository.Consistency
use flowtona.Repositories.RefreshTokenRepository.Consistency.{IsConsistent}
use flowtona.Repositories.RefreshTokenRepository.Revocation.{with_tokens}
use flowtona.Repositories.RefreshTokenRepository.Rotation
use flowtona.Repositories.RefreshTokenRepository.Issuance
use flowtona.Repositories.RefreshTokenRepository.Issuance.{IsUsable}
use flowtona.Repositories.RefreshTokenRepository.Handover
use flowtona.Flows.Sessions.{Renewal, IsNew, successor}

-- Where a request is: before `create`, between `create` and `mark_rotated`, or done.
pub data Progress : Type 0 where
  ready issued won lost : Progress

pub record Race : Type 0 where
  pub store : Store
  pub at : ℕ → Progress

abbrev pub moved : (ℕ → Progress) → ℕ → Progress → ℕ → Progress
moved at i p j = if i == j then p else at j

abbrev pub on_result : Progress → Result Error RefreshTokenRecord → Progress
on_result p (ok _) = p
on_result p (err _) = lost

module _ (t : RefreshTokenRecord) (request : ℕ → Renewal) where
  -- The next call of the request `i`, by where it is.
  abbrev pub advance : Progress → ℕ → Race → Race
  advance ready i race =
      let r = request i in
      let call =
        create t.user_id t.tenant_id t.family_id r.token_hash r.expires_at r.id r.at race.store in
      record { store = call.1; at = moved race.at i (on_result issued call.0) }
  advance issued i race =
      let call = mark_rotated t.token_hash (request i).id (request i).at race.store in
      record { store = call.1; at = moved race.at i (on_result won call.0) }
  advance won i race = race
  advance lost i race = race

  abbrev pub act : ℕ → Race → Race
  act i race = advance (race.at i) i race

  -- A schedule says whose turn it is.
  unfoldable pub run : List ℕ → Race → Race
  run [] race = race
  run (i ∷ is) race = run is (act i race)

abbrev pub start : Store → Race
start s = record { store = s; at = λ _. ready }
