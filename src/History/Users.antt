-- ===== src/History/Users.antt =====
-- An address and its user over a run of the service.
use flowtona.Common.{
  ◌≡◌, refl, ◌∙◌, ap, Text, Option, none, some, arith, DateTime, Dict, lookup, ok, Option-cases,
  Bool-cases, inl, inr, ◌==◌, ==_iff, list_eq, nat_eq, Result-cases,
}
use flowtona.Email.{IsStable, normalise_email}
use flowtona.Exceptions.{Uuid}
use flowtona.Models.User.{User}
use flowtona.Store.{Store, empty}
use flowtona.Repositories.UserRepository
use flowtona.Repositories.UserRepository.{get_by_email}
use flowtona.Repositories.UserRepository.Consistency
use flowtona.Repositories.UserRepository.Addresses
use flowtona.Protocols.Users.InMemory.{in_memory-KeepsUsers, taken, replaced, after_update}
use flowtona.History.{Step, Reach, here, next}
use flowtona.History.Parts.{only}
use flowtona.History.Invariant.{IsSound, Reach-IsSound}

abbrev users_of : Store → Dict Uuid User × Dict Text Uuid
users_of s = (s.users_by_id, s.user_id_by_email)

-- Whoever an address finds in the first store, it finds in the second, with the same id and address.
abbrev StillFinds : Store → Store → Type 0
StillFinds s s' =
    (e : Text) (u : User)
    → get_by_email e s ≡ ok (some u)
    → (v : User) × (get_by_email e s' ≡ ok (some v)) × (v.id ≡ u.id) × (v.email ≡ u.email)

StillFinds-same : (s s' : Store) → users_of s' ≡ users_of s → StillFinds s s'
unfolding get_by_email
StillFinds-same s s' same e u found = (
  u,
  ap
        (λ (p : Dict Uuid User × Dict Text Uuid).
          get_by_email e (record empty { users_by_id = p.0; user_id_by_email = p.1 }))
        same
      ∙ found,
  refl,
  refl,
)

module _ (email_str : Text → Option Text) (s : Store)
    (c : Consistency.IsConsistent email_str s) where
  StillFinds-create :
      (email p d : Text) (id : Uuid) (now : DateTime)
      → lookup id s.users_by_id ≡ none
      → StillFinds s (UserRepository.create email_str email p d id now s).1
  StillFinds-create email p d id now new e u found =
      let call = UserRepository.create email_str email p d id now s in
      let lem = Consistency.create_user_lem email_str email p d id now s in
      elim (Result-cases call.0) [
        | inl (raised, failed) ↦ (u, ground (arith, lem), refl, refl)
        | inr (v, done) ↦
            let run : call ≡ (ok v, call.1) = ap (λ r. (r, call.1)) done in
            elim (Bool-cases (normalise_email email == normalise_email e)) [
              | inl same ↦
                  let again =
                    taken email_str s e email p d id now u c found
                      ((==_iff (normalise_email email) (normalise_email e)).0 same) in
                  absurd (ground arith)
              | inr other ↦ (
                u,
                ground (
                  arith,
                  Addresses.get_by_email-create email_str email p d id now s call.1 v run c new e,
                ),
                refl,
                refl,
              )
            ]
      ]

  StillFinds-update : (x : User) → StillFinds s (UserRepository.update x s).1
  unfolding UserRepository.get_by_id
  StillFinds-update x e u found =
      let lem = Consistency.update_user_lem email_str x s in
      let stored = (in_memory-KeepsUsers email_str).finds s e u c found in
      elim (Option-cases (lookup x.id s.users_by_id)) [
        | inl absent ↦ (u, ground arith, refl, refl)
        | inr (y, there) ↦ elim (Bool-cases (y.email == x.email)) [
          | inl same ↦
              let address = (==_iff y.email x.email).0 same in
              let run = replaced email_str s x y there address in
              let after = after_update email_str s x y e c there in
              elim (Bool-cases (x.id == u.id)) [
                | inl mine ↦
                    let id = (==_iff x.id u.id).0 mine in (x, ground arith, id, ground arith)
                | inr other ↦ (u, ground arith, refl, refl)
              ]
          | inr other ↦ (u, ground arith, refl, refl)
        ]
      ]

module _ (email_str : Text → Option Text) (stable : IsStable email_str) where
  Step-StillFinds : {s s' : Store} → IsSound email_str s → Step email_str s s' → StillFinds s s'
  Step-StillFinds i (Step.user_create s e p d id now new) =
      StillFinds-create email_str s i.users e p d id now new
  Step-StillFinds i (Step.user_update s u) = StillFinds-update email_str s i.users u
  Step-StillFinds i st = StillFinds-same _ _ (ap users_of (only email_str stable i st))

  -- With a stable check of addresses, from a sound store, whatever calls follow: a spelling of an address that finds a user goes on to find a user with the same id and the same address.
  pub Reach-StillFinds :
      {s s' : Store}
      → IsSound email_str s
      → Reach email_str s s'
      → (e : Text) (u : User) → get_by_email e s ≡ ok (some u)
      → (v : User) × (get_by_email e s' ≡ ok (some v)) × (v.id ≡ u.id) × (v.email ≡ u.email)
  Reach-StillFinds i here e u found = (u, found, refl, refl)
  Reach-StillFinds i (next r st) e u found =
      let (v, there, id, address) = Reach-StillFinds i r e u found in
      let (w, at_last, id', address') =
        Step-StillFinds (Reach-IsSound email_str stable i r) st e v there in
      (w, at_last, id' ∙ id, address' ∙ address)
