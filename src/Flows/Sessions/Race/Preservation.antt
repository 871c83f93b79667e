-- ===== src/Flows/Sessions/Race/Preservation.antt =====
-- Every turn of a race keeps the invariant.
use flowtona.Common.{
  ℕ, ◌≡◌, ◌≢◌, refl, sym, inl, inr, List, [], ◌∷◌, Bool-cases, some, arith, ok, ◌==◌, ==_iff,
  ==_refl, insert, nat_eq,
}
use flowtona.Models.RefreshToken.{RefreshTokenRecord, active, status_eq}
use flowtona.Repositories.RefreshTokenRepository.{get_by_token_hash}
use flowtona.Repositories.RefreshTokenRepository.Consistency
use flowtona.Repositories.RefreshTokenRepository.Consistency.{IsConsistent}
use flowtona.Repositories.RefreshTokenRepository.Revocation.{with_tokens}
use flowtona.Repositories.RefreshTokenRepository.Rotation
use flowtona.Repositories.RefreshTokenRepository.Issuance
use flowtona.Repositories.RefreshTokenRepository.Issuance.{IsUsable}
use flowtona.Repositories.RefreshTokenRepository.Handover
use flowtona.Flows.Sessions.{Renewal}
use flowtona.Flows.Sessions.Race.{ready, issued, won, lost, Race, moved, act, run}
use flowtona.Flows.Sessions.Race.Fairness.{
  Progress-cases, unmoved, under_way, heir, handed, Decided, IsFair,
}

module _ (t : RefreshTokenRecord) (live : t.status ≡ active) (request : ℕ → Renewal)
    (others : (i : ℕ) → (request i).id ≢ t.id)
    (ids : (i j : ℕ) → (request i).id ≡ (request j).id → i ≡ j)
    (hashes : (i j : ℕ) → (request i).token_hash ≡ (request j).token_hash → i ≡ j) where
  module _ (race : Race) (fair : IsFair t request race) (i : ℕ) where
    abbrev mine : Renewal
    mine = request i

    -- The request `i` calls `create`.
    module _ (now : race.at i ≡ ready) where
      abbrev after_issue : Race
      after_issue = record {
        store = Consistency.added (heir t request i) race.store;
        at = moved race.at i issued;
      }

      issues : act t request i race ≡ after_issue
      issues =
          let done =
            Issuance.creates race.store fair.consistent t.user_id t.tenant_id t.family_id
              mine.token_hash mine.expires_at mine.id mine.at (fair.fresh i now) in
          rw (now, done) refl

      keeps :
          (u : RefreshTokenRecord)
          → get_by_token_hash u.token_hash race.store ≡ ok (some u)
          → get_by_token_hash u.token_hash after_issue.store ≡ ok (some u)
      keeps =
          Issuance.keeps_found race.store fair.consistent t.user_id t.tenant_id t.family_id
            mine.token_hash mine.expires_at mine.id mine.at (fair.fresh i now)

      after_issue-Decided : Decided t request after_issue
      after_issue-Decided = elim fair.decided [
        | inl (known, undone) ↦ inl (
          keeps t known,
          λ j. (λ e. absurd (ground (arith, undone j)), λ e. absurd (ground (arith, undone j))),
        )
        | inr (w, at_w, got, only) ↦ inr (
          w,
          ground (arith, ==_iff i w),
          keeps (handed t request w) got,
          λ j at_j. only j (unmoved race.at i j issued won (λ e. absurd (ground arith)) at_j).1,
        )
      ]

      after_issue-IsFair : IsFair t request after_issue
      after_issue-IsFair = record {
        consistent =
            Issuance.issued_store-IsConsistent race.store fair.consistent t.user_id t.tenant_id
              t.family_id mine.token_hash mine.expires_at mine.id mine.at (fair.fresh i now);
        fresh = λ j at_j.
            let (differs, before) =
              unmoved race.at i j issued ready (λ e. absurd (ground arith)) at_j in
            let r = request j in
            Issuance.keeps_IsFresh race.store fair.consistent t.user_id t.tenant_id t.family_id
              mine.token_hash mine.expires_at mine.id mine.at (fair.fresh i now) r.id r.token_hash
              r.at r.expires_at (λ e. differs (sym (ids j i e))) (λ e. differs (sym (hashes j i e)))
              (fair.fresh j before);
        usable = λ j at_j. elim (Bool-cases (i == j)) [
          | inl same ↦
              let here : i ≡ j = (==_iff i j).0 same in
              rw (sym here) (
                Issuance.issue-IsUsable race.store fair.consistent t.user_id t.tenant_id t.family_id
                  mine.token_hash mine.expires_at mine.id mine.at (fair.fresh i now))
          | inr other ↦ (keeps (heir t request j) (fair.usable j (ground arith)).0, refl)
        ];
        decided = after_issue-Decided;
      }

    -- The request `i` calls `mark_rotated` and is the first to do so.
    module _ (now : race.at i ≡ issued)
        (known : get_by_token_hash t.token_hash race.store ≡ ok (some t))
        (undone : (j : ℕ) → (race.at j ≢ won) × (race.at j ≢ lost)) where
      abbrev after_win : Race
      after_win = record {
        store =
            with_tokens race.store
              (insert t.id (handed t request i) race.store.refresh_tokens_by_id);
        at = moved race.at i won;
      }

      wins : act t request i race ≡ after_win
      wins =
          rw (now, Handover.rotates race.store fair.consistent t (known, live) mine.id mine.at) refl

      after_win-IsFair : IsFair t request after_win
      after_win-IsFair = record {
        consistent =
            Handover.handed_over-IsConsistent race.store fair.consistent t (known, live) mine.id
              mine.at;
        fresh = λ j at_j.
            let (differs, before) =
              unmoved race.at i j won ready (λ e. absurd (ground arith)) at_j in
            let r = request j in
            Handover.still-IsFresh race.store fair.consistent t (known, live) mine.id mine.at r.id
              r.token_hash r.at r.expires_at (fair.fresh j before);
        usable = λ j at_j.
            let was : race.at j ≢ ready = under_way race.at i j won now at_j in
            (
              Handover.others_found race.store fair.consistent t (known, live) mine.id mine.at
                  (heir t request j) (others j) (fair.usable j was).0,
              refl,
            );
        decided = inr (
          i,
          ground (arith, ==_refl i),
          Handover.old_found race.store fair.consistent t (known, live) mine.id mine.at,
          λ j at_j. elim (Bool-cases (i == j)) [
            | inl same ↦ sym ((==_iff i j).0 same)
            | inr other ↦ absurd (ground (arith, undone j))
          ],
        );
      }

    -- The request `i` calls `mark_rotated` after another has won.
    module _ (now : race.at i ≡ issued) (w : ℕ) (at_w : race.at w ≡ won)
        (got : get_by_token_hash t.token_hash race.store ≡ ok (some (handed t request w)))
        (only : (j : ℕ) → race.at j ≡ won → j ≡ w) where
      abbrev after_loss : Race
      after_loss = record { store = race.store; at = moved race.at i lost }

      loses : act t request i race ≡ after_loss
      loses =
          rw
            (
              now,
              Rotation.mark_rotated_lem mine.id mine.at race.store t.token_hash
                  (some (handed t request w)) fair.consistent got,
            )
            refl

      after_loss-IsFair : IsFair t request after_loss
      after_loss-IsFair = record {
        consistent = fair.consistent;
        fresh = λ j at_j.
            fair.fresh j (unmoved race.at i j lost ready (λ e. absurd (ground arith)) at_j).1;
        usable = λ j at_j. fair.usable j (under_way race.at i j lost now at_j);
        decided = inr (
          w,
          ground (arith, ==_iff i w),
          got,
          λ j at_j. only j (unmoved race.at i j lost won (λ e. absurd (ground arith)) at_j).1,
        );
      }

  -- A turn of any request keeps the race fair.
  act-IsFair :
      (race : Race) → IsFair t request race → (i : ℕ) → IsFair t request (act t request i race)
  act-IsFair race fair i = elim (Progress-cases (race.at i)) [
    | inl now ↦ rw (issues race fair i now) (after_issue-IsFair race fair i now)
    | inr (inl now) ↦ elim fair.decided [
      | inl (known, undone) ↦
          rw (wins race fair i now known undone) (after_win-IsFair race fair i now known undone)
      | inr (w, at_w, got, only) ↦
          rw (loses race fair i now w at_w got only)
            (after_loss-IsFair race fair i now w at_w got only)
    ]
    | inr (inr (inl now)) ↦ rw now fair
    | inr (inr (inr now)) ↦ rw now fair
  ]

  pub run-IsFair :
      (schedule : List ℕ) (race : Race)
      → IsFair t request race
      → IsFair t request (run t request schedule race)
  unfolding run
  run-IsFair [] race fair = fair
  run-IsFair (i ∷ is) race fair = run-IsFair is (act t request i race) (act-IsFair race fair i)
