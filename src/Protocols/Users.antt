-- ===== src/Protocols/Users.antt =====
-- app/repositories/user_repository.py: class UserRepository(Protocol).
-- A repository over any state is its operations; what its docstrings and its callers rely on are
-- laws on what the two lookups find.
pub mod InMemory
use flowtona.Common.{
  ◌≡◌, ◌≢◌, ◌⊎◌, refl, ap, ◌∙◌, Text, false, true, Option, none, some, arith, DateTime, Result, ok,
  err, ◌==◌, ==_refl, nat_eq, list_eq, if◌then◌else◌,
}
use flowtona.Common.Action.{Action}
use flowtona.Exceptions.{Uuid, Error}
use flowtona.Email.{normalise_email}
use flowtona.Models.User.{User}

-- The methods; `create` is given the UUID and the time that it would draw.
pub record UserOperations (S : Type 0) : Type 0 where
  pub create : Text → Text → Text → Uuid → DateTime → Action Error S User
  pub get_by_id : Uuid → S → Option User
  pub get_by_email : Text → S → Result Error (Option User)
  pub update : User → Action Error S User

-- What a lookup that found `x` finds after `u` has replaced the user of its id.
abbrev pub refreshed : User → Result Error (Option User) → Result Error (Option User)
refreshed u (ok (some x)) = if u.id == x.id then ok (some u) else ok (some x)
refreshed u (ok none) = ok none
refreshed u (err e) = err e

-- The promises, on the states that satisfy `IsGood`.
pub record KeepsUsers {S : Type 0} (o : UserOperations S) (IsGood : S → Type 0) : Type 0 where
  pub creates :
      (s s' : S) (email password_hash display_name : Text) (id : Uuid) (now : DateTime) (u : User)
      → IsGood s
      → o.get_by_id id s ≡ none
      → o.create email password_hash display_name id now s ≡ (ok u, s')
      → ((u.id ≡ id)
          × (u.password_hash ≡ password_hash)
          × (u.display_name ≡ display_name)
          × (u.email_verified ≡ false)
          × (u.created_at ≡ now))
        × IsGood s'
        × ((k : Uuid) → o.get_by_id k s' ≡ (if id == k then some u else o.get_by_id k s))
        × ((e : Text)
            → o.get_by_email e s' ≡ (
                if normalise_email email == normalise_email e
                then ok (some u)
                else o.get_by_email e s))
  pub looks_up : (s : S) (e : Text) → IsGood s → (x : Option User) × (o.get_by_email e s ≡ ok x)
  pub finds :
      (s : S) (e : Text) (u : User)
      → IsGood s
      → o.get_by_email e s ≡ ok (some u)
      → o.get_by_id u.id s ≡ some u
  pub unique :
      (s : S) (e email password_hash display_name : Text) (id : Uuid) (now : DateTime) (u : User)
      → IsGood s
      → o.get_by_email e s ≡ ok (some u)
      → normalise_email email ≡ normalise_email e
      → (raised : Error) × (o.create email password_hash display_name id now s ≡ (err raised, s))
  pub updates :
      (s : S) (u x : User)
      → IsGood s
      → o.get_by_id u.id s ≡ some x
      → x.email ≡ u.email
      → (s' : S) × (o.update u s ≡ (ok u, s'))
        × IsGood s'
        × ((k : Uuid) → o.get_by_id k s' ≡ (if u.id == k then some u else o.get_by_id k s))
        × ((e : Text) → o.get_by_email e s' ≡ refreshed u (o.get_by_email e s))
  pub refuses :
      (s : S) (u : User)
      → IsGood s
      → ((x : User) → o.get_by_id u.id s ≡ some x → x.email ≢ u.email)
      → (e : Error) × (o.update u s ≡ (err e, s))

module _ {S : Type 0} (o : UserOperations S) (IsGood : S → Type 0)
    (keeps : KeepsUsers o IsGood) where
  -- Whatever repository keeps the protocol: a user that a spelling of the address finds can be marked as verified, and every spelling that found the user then finds the same user with the mark.
  pub update-get_by_email :
      (s : S) (e : Text) (u : User)
      → IsGood s
      → o.get_by_email e s ≡ ok (some u)
      → let confirmed = record u { email_verified = true } in
        (s' : S) × (o.update confirmed s ≡ (ok confirmed, s'))
        × IsGood s'
        × (o.get_by_email e s' ≡ ok (some confirmed))
  update-get_by_email s e u good found =
      let (s', run, good', rows, by_email) =
        keeps.updates s (record u { email_verified = true }) u good (keeps.finds s e u good found)
          refl in
      (
        s',
        run,
        good',
        by_email e
            ∙ ap (refreshed (record u { email_verified = true })) found
            ∙ ground (arith, ==_refl u.id),
      )
