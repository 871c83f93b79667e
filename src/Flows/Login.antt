-- ===== src/Flows/Login.antt =====
-- A sign-up with a hashed password, then a login: UserRepository.create and get_by_email with
-- hash_password and verify_password.
use flowtona.Common.{
  ◌≡◌, Text, Option, none, some, arith, DateTime, lookup, ok, ◌==◌, ==_iff, list_eq, nat_eq,
  if◌then◌else◌,
}
use flowtona.Exceptions.{Uuid}
use flowtona.Email.{normalise_email}
use flowtona.Models.User.{User}
use flowtona.Store.{Store}
use flowtona.Repositories.UserRepository.{create, get_by_email}
use flowtona.Repositories.UserRepository.Consistency.{IsConsistent}
use flowtona.Repositories.UserRepository.Addresses.{get_by_email-create, created}
use flowtona.Security.Hashing.{PasswordHasher, verified, mismatch, hash_password, verify_password}

-- argon2's documentation: `verify` returns for the password that was hashed, and raises
-- VerifyMismatchError for any other.
abbrev pub IsFaithful : PasswordHasher → Type 0
IsFaithful hasher =
    (password salt candidate : Text)
    → hasher.verify (hasher.hash password salt) candidate
      ≡ (if candidate == password then verified else mismatch)

verify-hash :
    (hasher : PasswordHasher) (salt password candidate : Text)
    → IsFaithful hasher
    → verify_password hasher candidate (hash_password hasher salt password)
      ≡ ok (candidate == password)
unfolding verify_password hash_password
verify-hash hasher salt password candidate faithful =
    ground (arith, faithful password salt candidate)

-- With a hasher that verifies exactly the password that was hashed: after a sign-up that succeeds on a consistent store, under a new UUID and with the hash of a password, every spelling of the address with the same normal form finds the new user, and a candidate password verifies against what is stored exactly if it is the password.
pub login_after_signup :
    (email_str : Text → Option Text) (hasher : PasswordHasher)
    (email password salt display_name : Text) (id : Uuid) (now : DateTime) (s s' : Store) (u : User)
    (again candidate : Text)
    → IsFaithful hasher
    → IsConsistent email_str s
    → lookup id s.users_by_id ≡ none
    → create email_str email (hash_password hasher salt password) display_name id now s ≡ (ok u, s')
    → normalise_email again ≡ normalise_email email
    → (get_by_email again s' ≡ ok (some u))
      × (verify_password hasher candidate u.password_hash ≡ ok (candidate == password))
login_after_signup email_str hasher email password salt display_name id now s s' u again candidate
      faithful c new run same =
    let hash = hash_password hasher salt password in
    let (a, free, address, made, after) =
      created email_str email hash display_name id now s s' u run in
    (
      ground (
        arith,
        get_by_email-create email_str email hash display_name id now s s' u run c new again,
        ==_iff (normalise_email email) (normalise_email again),
      ),
      rw made (verify-hash hasher salt password candidate faithful),
    )
