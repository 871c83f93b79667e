-- ===== src/Protocols/Users/InMemory.antt =====
-- InMemoryUserRepository as an implementation of the protocol.
use flowtona.Common.{
  ◌≡◌, ◌≢◌, inl, inr, Text, Option, some, arith, DateTime, ok, err, ==_iff, nat_eq, list_eq, lookup,
  insert, lookup-insert, Option-cases, IsIndexed-cases,
}
use flowtona.Common.Action.{at_end}
use flowtona.Exceptions.{
  Uuid, Error, duplicate_entry, record_not_found, by_uuid, not_implemented_error,
}
use flowtona.Email.{normalise_email}
use flowtona.Models.User.{User}
use flowtona.Store.{Store}
use flowtona.Repositories.UserRepository
use flowtona.Repositories.UserRepository.Addresses
use flowtona.Repositories.UserRepository.Consistency
use flowtona.Protocols.Users.{UserOperations, KeepsUsers, refreshed}

module _ (email_str : Text → Option Text) where
  abbrev pub in_memory_users : UserOperations Store
  in_memory_users = record {
    create = UserRepository.create email_str;
    get_by_id = UserRepository.get_by_id;
    get_by_email = UserRepository.get_by_email;
    update = UserRepository.update;
  }

  -- A user that is found under a spelling stands in the index under its normal form.
  indexed :
      (s : Store) (e : Text) (u : User)
      → Consistency.IsConsistent email_str s
      → UserRepository.get_by_email e s ≡ ok (some u)
      → lookup (normalise_email e) s.user_id_by_email ≡ some u.id
  unfolding UserRepository.get_by_email
  indexed s e u c found =
      elim (IsIndexed-cases Consistency.id_of (Consistency.OwnsAddress email_str)
        (normalise_email e) c) [
          | inl absent ↦ absurd (ground arith)
          | inr (k, v, leads, at, owns) ↦ ground (arith, c.own_id k v at)
        ]

  pub taken :
      (s : Store) (e email p d : Text) (id : Uuid) (now : DateTime) (u : User)
      → Consistency.IsConsistent email_str s
      → UserRepository.get_by_email e s ≡ ok (some u)
      → normalise_email email ≡ normalise_email e
      → UserRepository.create email_str email p d id now s
        ≡ (err (duplicate_entry "user" "email"), s)
  taken s e email p d id now u c found same =
      ground
        (arith, Consistency.create_user_lem email_str email p d id now s, indexed s e u c found)

  pub replaced :
      (s : Store) (u x : User)
      → lookup u.id s.users_by_id ≡ some x
      → x.email ≡ u.email
      → UserRepository.update u s ≡ (ok u, Consistency.with_users s (insert u.id u s.users_by_id))
  replaced s u x there same =
      ground (arith, Consistency.update_user_lem email_str u s, ==_iff x.email u.email)

  pub after_update :
      (s : Store) (u x : User) (e : Text)
      → Consistency.IsConsistent email_str s
      → lookup u.id s.users_by_id ≡ some x
      → UserRepository.get_by_email e (Consistency.with_users s (insert u.id u s.users_by_id))
        ≡ refreshed u (UserRepository.get_by_email e s)
  unfolding UserRepository.get_by_email
  after_update s u x e c there =
      elim (IsIndexed-cases Consistency.id_of (Consistency.OwnsAddress email_str)
        (normalise_email e) c) [
          | inl absent ↦ ground arith
          | inr (k, v, leads, at, owns) ↦
              ground (arith, c.own_id k v at, lookup-insert k u.id u s.users_by_id)
        ]

  unreplaced :
      (s : Store) (u : User)
      → ((x : User) → lookup u.id s.users_by_id ≡ some x → x.email ≢ u.email)
      → (e : Error) × (UserRepository.update u s ≡ (err e, s))
  unreplaced s u other = elim (Option-cases (lookup u.id s.users_by_id)) [
    | inl absent ↦ (
      record_not_found "user" (by_uuid u.id),
      ground (arith, Consistency.update_user_lem email_str u s),
    )
    | inr (x, there) ↦ (
      not_implemented_error,
      ground
          (arith, Consistency.update_user_lem email_str u s, other x there, ==_iff x.email u.email),
    )
  ]

  -- The in-memory repository keeps the protocol of users, on every consistent store, whatever the check of addresses is.
  pub in_memory-KeepsUsers : KeepsUsers in_memory_users (Consistency.IsConsistent email_str)
  unfolding UserRepository.get_by_id
  in_memory-KeepsUsers = record {
    creates = λ s s' email p d id now u c new run.
        let (a, free, address, made, after) =
          Addresses.created email_str email p d id now s s' u run in
        (
          ground arith,
          at_end (Consistency.IsConsistent email_str) run
              (Consistency.create-IsConsistent email_str email p d id now s new c),
          λ k. ground (arith, made, after, lookup-insert k id u s.users_by_id),
          Addresses.get_by_email-create email_str email p d id now s s' u run c new,
        );
    looks_up =
        λ s e c. let (x, found, _) = Addresses.get_by_email_total email_str s e c in (x, found);
    finds = λ s e u c found.
        let (x, run, means) = Addresses.get_by_email_total email_str s e c in
        (means u (ground arith)).0;
    unique = λ s e email p d id now u c found same.
        (duplicate_entry "user" "email", taken s e email p d id now u c found same);
    updates = λ s u x c there same. (
      Consistency.with_users s (insert u.id u s.users_by_id),
      replaced s u x there same,
      at_end (Consistency.IsConsistent email_str) (replaced s u x there same)
          (Consistency.update-IsConsistent email_str u s c),
      λ k. lookup-insert k u.id u s.users_by_id,
      λ e. after_update s u x e c there,
    );
    refuses = λ s u c other. unreplaced s u other;
  }
