-- ===== src/Repositories/UserRepository/Consistency.antt =====
-- The users and the index of their addresses, kept together through `create` and `update`.
use flowtona.Common.{
  Text, [], ◌∷◌, ◌≡◌, refl, sym, inl, inr, Option, none, some, arith, DateTime, Dict, lookup,
  insert, Result, ok, err, Bool-cases, ◌==◌, ==_iff, nat_eq, list_eq, if◌then◌else◌, IsIndexed,
  add-IsIndexed, empty-IsIndexed, refresh-IsIndexed, Refreshes-insert, insert-HasDistinctKeys,
}
use flowtona.Exceptions.{
  Uuid, Error, duplicate_entry, record_not_found, by_uuid, not_implemented_error, validation_error,
}
use flowtona.Email.{normalise_email}
use flowtona.Models.User.{User, validate, fresh}
use flowtona.Store.{Store, empty}
use flowtona.Repositories.UserRepository.{create, update}

abbrev pub id_of : User → Uuid
id_of u = u.id

abbrev pub Users : Type 0
Users = Dict Uuid User

abbrev pub with_users : Store → Users → Store
with_users s d = record s { users_by_id = d }

module _ (email_str : Text → Option Text) where
  -- The index holds a user under a normalised address of which the check makes the user's own.
  abbrev pub OwnsAddress : Text → User → Type 0
  OwnsAddress key u = email_str key ≡ some u.email

  abbrev pub IsConsistent : Store → Type 0
  IsConsistent s = IsIndexed id_of OwnsAddress s.users_by_id s.user_id_by_email

  pub empty-IsConsistent : IsConsistent empty
  empty-IsConsistent = empty-IsIndexed id_of OwnsAddress

  module _ (email password_hash display_name : Text) (id : Uuid) (now : DateTime) where
    abbrev pub signed_up : Text → User
    signed_up address = fresh id address password_hash display_name now

    abbrev pub added : Text → Store → Store
    added address s = record s {
      users_by_id = insert id (signed_up address) s.users_by_id;
      user_id_by_email = insert (normalise_email email) id s.user_id_by_email;
    }

    -- What `create` does, by whether the normalised address is taken and what the check makes of it.
    abbrev pub creation : Option Uuid → Option Text → Store → Result Error User × Store
    creation (some _) _ s = (err (duplicate_entry "user" "email"), s)
    creation none none s = (err (validation_error "email" (normalise_email email ∷ [])), s)
    creation none (some address) s = (ok (signed_up address), added address s)

    -- `create` raises a duplicate if the normalised address is taken, and else a validation error if it is no address, in both cases changing nothing; otherwise it stores an unverified user with the checked address and indexes it under the normalised one.
    pub create_user_lem :
        (s : Store)
        → create email_str email password_hash display_name id now s
          ≡ creation
              (lookup (normalise_email email) s.user_id_by_email)
              (email_str (normalise_email email))
              s
    unfolding create validate
    create_user_lem s = ground arith

    creation-IsConsistent :
        (s : Store) (taken : Option Uuid) (checked : Option Text)
        → lookup (normalise_email email) s.user_id_by_email ≡ taken
        → email_str (normalise_email email) ≡ checked
        → lookup id s.users_by_id ≡ none
        → IsConsistent s
        → IsConsistent (creation taken checked s).1
    creation-IsConsistent s (some k) checked free address new_id c = c
    creation-IsConsistent s none none free address new_id c = c
    creation-IsConsistent s none (some a) free address new_id c =
        add-IsIndexed id_of OwnsAddress (normalise_email email) (signed_up a) s.users_by_id
          s.user_id_by_email new_id free address c

    -- `create`, whether it succeeds or raises, keeps the store consistent if the UUID that it draws is new.
    pub create-IsConsistent :
        (s : Store)
        → lookup id s.users_by_id ≡ none
        → IsConsistent s
        → IsConsistent (create email_str email password_hash display_name id now s).1
    create-IsConsistent s new_id c = rw (create_user_lem s) (
        creation-IsConsistent s (lookup (normalise_email email) s.user_id_by_email)
          (email_str (normalise_email email)) refl refl new_id c)

  module _ (u : User) where
    -- What `update` answers, by what is stored under the user's id.
    abbrev pub revision : Option User → Result Error User
    revision none = err (record_not_found "user" (by_uuid u.id))
    revision (some existing) = if existing.email == u.email then ok u else err not_implemented_error

    abbrev pub revised : Result Error User → Store → Store
    revised (ok v) s = with_users s (insert v.id v s.users_by_id)
    revised (err _) s = s

    -- `update` raises not-found for an unknown id and refuses another address than the stored one, in both cases changing nothing; otherwise it replaces the whole user.
    pub update_user_lem :
        (s : Store)
        → let answer = revision (lookup u.id s.users_by_id) in
          update u s ≡ (answer, revised answer s)
    unfolding update
    update_user_lem s = ground arith

    revised-IsConsistent :
        (s : Store) (o : Option User)
        → lookup u.id s.users_by_id ≡ o
        → IsConsistent s
        → IsConsistent (revised (revision o) s)
    revised-IsConsistent s none found c = c
    revised-IsConsistent s (some existing) found c = elim (Bool-cases (existing.email == u.email)) [
      | inl same ↦ rw same (
          refresh-IsIndexed id_of OwnsAddress
            (insert-HasDistinctKeys u.id u s.users_by_id c.distinct)
            (Refreshes-insert id_of OwnsAddress u.id existing u s.users_by_id found
              (sym (c.own_id u.id existing found))
              (λ key owns. ground (arith, ==_iff existing.email u.email)))
            c)
      | inr other ↦ rw other c
    ]

    -- `update`, whether it succeeds or raises, keeps the store consistent.
    pub update-IsConsistent : (s : Store) → IsConsistent s → IsConsistent (update u s).1
    update-IsConsistent s c =
        rw (update_user_lem s) (revised-IsConsistent s (lookup u.id s.users_by_id) refl c)

  -- The invariant reads two fields alone.
  pub frame-IsConsistent :
      (s s' : Store)
      → s'.users_by_id ≡ s.users_by_id
      → s'.user_id_by_email ≡ s.user_id_by_email
      → IsConsistent s
      → IsConsistent s'
  frame-IsConsistent s s' p q c = rw (p, q) c
