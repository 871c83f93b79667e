-- ===== src/Repositories/EmailVerificationRepository/Lookup.antt =====
-- `get_by_token_hash` on a consistent store.
use flowtona.Common.{
  Text, ◌≡◌, ◌↔◌, inl, inr, Option, none, some, arith, lookup, ok, nat_eq, list_eq, pair_eq,
  IsIndexed-cases,
}
use flowtona.Models.EmailVerification.{EmailVerification}
use flowtona.Store.{Store}
use flowtona.Repositories.EmailVerificationRepository.{get_by_token_hash}
use flowtona.Repositories.EmailVerificationRepository.Consistency.{IsConsistent, id_of, OwnsHash}

module _ (email_str : Text → Option Text) (s : Store) (h : Text)
    (c : IsConsistent email_str s) where
  get_verification_total : (o : Option EmailVerification) × (get_by_token_hash h s ≡ ok o)
  unfolding get_by_token_hash
  get_verification_total = elim (IsIndexed-cases id_of OwnsHash h c.indexed) [
    | inl absent ↦ (none, ground arith)
    | inr (k, u, leads, at, owns) ↦ (some u, ground arith)
  ]

  get_verification_found :
      (t : EmailVerification)
      → (get_by_token_hash h s ≡ ok (some t))
        ↔ ((lookup t.id s.email_verifications_by_id ≡ some t) × (t.token_hash ≡ h))
  unfolding get_by_token_hash
  get_verification_found t = elim (IsIndexed-cases id_of OwnsHash h c.indexed) [
    | inl absent ↦ (
      λ found. absurd (ground arith),
      λ p. let (g, owns, leads) = c.indexed.reached t.id t p.0 in absurd (ground arith),
    )
    | inr (k, u, leads, at, owns) ↦ (
      λ found. ground (arith, c.indexed.own_id k u at),
      λ p. let (g, owns', leads') = c.indexed.reached t.id t p.0 in ground arith,
    )
  ]

  -- On a consistent store a lookup of a verification by hash never raises, and it finds a record exactly if that record is stored under its id and has the hash, whatever its status and expiry.
  pub get_verification_iff :
      ((o : Option EmailVerification) × (get_by_token_hash h s ≡ ok o))
      × ((t : EmailVerification)
          → (get_by_token_hash h s ≡ ok (some t))
            ↔ ((lookup t.id s.email_verifications_by_id ≡ some t) × (t.token_hash ≡ h)))
  get_verification_iff = (get_verification_total, get_verification_found)
