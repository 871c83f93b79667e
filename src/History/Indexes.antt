-- ===== src/History/Indexes.antt =====
-- The indexes under a call that creates a record.
use flowtona.Common.{
  ◌≡◌, refl, Text, Option, none, some, arith, DateTime, Dict, lookup, insert, lookup-insert, inl,
  inr, Option-cases, Bool-cases, ◌==◌, ==_iff, Comparable, list_eq, nat_eq, pair_eq,
}
use flowtona.Email.{IsStable, normalise_email}
use flowtona.Exceptions.{Uuid}
use flowtona.Models.Membership.{Role}
use flowtona.Store.{Store}
use flowtona.Repositories.UserRepository
use flowtona.Repositories.UserRepository.Consistency as Users
use flowtona.Repositories.MembershipRepository
use flowtona.Repositories.MembershipRepository.Consistency as Memberships
use flowtona.Repositories.InvitationRepository
use flowtona.Repositories.InvitationRepository.Consistency as Invitations
use flowtona.Repositories.EmailVerificationRepository
use flowtona.Repositories.EmailVerificationRepository.Consistency as Verifications
use flowtona.Repositories.RefreshTokenRepository
use flowtona.Repositories.RefreshTokenRepository.Consistency as Tokens

-- The keys of `d` lead to the same ids in `d'`.
abbrev pub Keeps {ℓ} : {K : Type ℓ} ⦃e : Comparable K⦄ → Dict K Uuid → Dict K Uuid → Type ℓ
Keeps {K} d d' = (key : K) (k : Uuid) → lookup key d ≡ some k → lookup key d' ≡ some k

pub Keeps-same {ℓ} : {K : Type ℓ} ⦃e : Comparable K⦄ {d d' : Dict K Uuid} → d' ≡ d → Keeps d d'
Keeps-same same key k found = rw same found

-- A key that is new displaces none.
Keeps-insert {ℓ} :
    {K : Type ℓ} ⦃e : Comparable K⦄ (d : Dict K Uuid) (i : K) (j : Uuid)
    → lookup i d ≡ none
    → Keeps d (insert i j d)
Keeps-insert d i j free key k found = elim (Bool-cases (i == key)) [
  | inl same ↦ absurd (ground (arith, ==_iff i key))
  | inr other ↦ ground (arith, lookup-insert key i j d)
]

abbrev pub addresses_of : Store → Dict Text Uuid
addresses_of s = s.user_id_by_email

abbrev pub pairs_of : Store → Dict (Uuid × Uuid) Uuid
pairs_of s = s.membership_id_by_user_tenant

abbrev pub invitations_of : Store → Dict Text Uuid
invitations_of s = s.invitation_id_by_token_hash

abbrev pub verifications_of : Store → Dict Text Uuid
verifications_of s = s.email_verification_id_by_token_hash

abbrev pub tokens_of : Store → Dict Text Uuid
tokens_of s = s.refresh_token_id_by_hash

pub user_create-Keeps :
    (email_str : Text → Option Text) (s : Store) (e p d : Text) (id : Uuid) (now : DateTime)
    → Keeps (addresses_of s) (addresses_of (UserRepository.create email_str e p d id now s).1)
user_create-Keeps email_str s e p d id now =
    let lem = Users.create_user_lem email_str e p d id now s in
    elim (Option-cases (lookup (normalise_email e) s.user_id_by_email)) [
      | inr (k, taken) ↦ Keeps-same (ground (arith, lem))
      | inl free ↦ elim (Option-cases (email_str (normalise_email e))) [
        | inl refused ↦ Keeps-same (ground (arith, lem))
        | inr (a, address) ↦
            rw (lem, free, address) (Keeps-insert s.user_id_by_email (normalise_email e) id free)
      ]
    ]

pub membership_create-Keeps :
    (s : Store) (u t : Uuid) (role : Role) (id : Uuid) (now : DateTime)
    → Keeps (pairs_of s) (pairs_of (MembershipRepository.create u t role id now s).1)
membership_create-Keeps s u t role id now =
    let lem = Memberships.create_membership_lem u t role id now s in
    elim (Option-cases (lookup (u, t) s.membership_id_by_user_tenant)) [
      | inr (k, taken) ↦ Keeps-same (ground (arith, lem))
      | inl free ↦ rw (lem, free) (Keeps-insert s.membership_id_by_user_tenant (u, t) id free)
    ]

pub token_create-Keeps :
    (s : Store) (u t f : Uuid) (h : Text) (expires : DateTime) (id : Uuid) (now : DateTime)
    → Keeps (tokens_of s) (tokens_of (RefreshTokenRepository.create u t f h expires id now s).1)
token_create-Keeps s u t f h expires id now =
    elim (Tokens.create_outcomes u t f h expires id now s) [
      | inl (raised, run) ↦ rw run (Keeps-same refl)
      | inr (run, free, _) ↦ rw run (Keeps-insert s.refresh_token_id_by_hash h id free)
    ]

module _ (email_str : Text → Option Text) (stable : IsStable email_str) (s : Store) where
  pub invitation_create-Keeps :
      (t : Uuid) (e : Text) (role : Role) (h : Text) (by : Uuid) (expires : DateTime) (id : Uuid)
      (now : DateTime)
      → Keeps
          (invitations_of s)
          (invitations_of (InvitationRepository.create email_str t e role h by expires id now s).1)
  invitation_create-Keeps t e role h by expires id now =
      elim (Invitations.create_outcomes email_str t e role h by expires id now stable s) [
        | inl (raised, run) ↦ rw run (Keeps-same refl)
        | inr (a, _, run, free, _) ↦ rw run (Keeps-insert s.invitation_id_by_token_hash h id free)
      ]

  pub verification_create-Keeps :
      (u : Uuid) (e h : Text) (expires : DateTime) (id : Uuid) (now : DateTime)
      → Keeps
          (verifications_of s)
          (verifications_of (EmailVerificationRepository.create email_str u e h expires id now s).1)
  verification_create-Keeps u e h expires id now =
      elim (Verifications.create_outcomes email_str u e h expires id now stable s) [
        | inl (raised, run) ↦ rw run (Keeps-same refl)
        | inr (a, _, run, free, _) ↦
            rw run (Keeps-insert s.email_verification_id_by_token_hash h id free)
      ]
