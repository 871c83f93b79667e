-- ===== src/Repositories/UserRepository/Addresses.antt =====
-- Finding users by address, and how far addresses are unique.
use flowtona.Common.{
  Text, ◌≡◌, ◌≢◌, refl, sym, ◌∙◌, inl, inr, Option, none, some, arith, DateTime, lookup,
  lookup-insert, lookup-insert_self, lookup-insert_ne, Result, ok, err, ◌==◌, ==_iff, nat_eq,
  list_eq, if◌then◌else◌, IsIndexed-cases,
}
use flowtona.Exceptions.{Uuid, Error, duplicate_entry}
use flowtona.Email.{normalise_email}
use flowtona.Models.User.{User}
use flowtona.Store.{Store}
use flowtona.Repositories.UserRepository.{create, get_by_id, get_by_email}
use flowtona.Repositories.UserRepository.Consistency.{
  IsConsistent, OwnsAddress, id_of, creation, signed_up, added, create_user_lem,
}

module _ (email_str : Text → Option Text) where
  -- On a consistent store `get_by_email` never raises, and what it finds is stored under its id with the address that the check makes of the normalised argument.
  pub get_by_email_total :
      (s : Store) (e : Text)
      → IsConsistent email_str s
      → (o : Option User) × (get_by_email e s ≡ ok o)
        × ((u : User)
            → o ≡ some u
            → (get_by_id u.id s ≡ some u) × (email_str (normalise_email e) ≡ some u.email))
  unfolding get_by_email get_by_id
  get_by_email_total s e c =
      elim (IsIndexed-cases id_of (OwnsAddress email_str) (normalise_email e) c) [
        | inl absent ↦ (none, ground arith, λ u h. absurd (ground arith))
        | inr (k, u, leads, at, owns) ↦
            (some u, ground arith, λ v h. (ground (arith, c.own_id k u at), ground arith))
      ]

  module _ (email password_hash display_name : Text) (id : Uuid) (now : DateTime) (s s' : Store)
      (u : User)
      (run : create email_str email password_hash display_name id now s ≡ (ok u, s')) where
    pub created :
        (a : Text) × (lookup (normalise_email email) s.user_id_by_email ≡ none)
        × (email_str (normalise_email email) ≡ some a)
        × (u ≡ signed_up email_str email password_hash display_name id now a)
        × (s' ≡ added email_str email password_hash display_name id now a s)
    created =
        go (lookup (normalise_email email) s.user_id_by_email) (email_str (normalise_email email))
          refl refl
          (sym (create_user_lem email_str email password_hash display_name id now s) ∙ run)
      where
        go :
            (taken : Option Uuid) (checked : Option Text)
            → lookup (normalise_email email) s.user_id_by_email ≡ taken
            → email_str (normalise_email email) ≡ checked
            → creation email_str email password_hash display_name id now taken checked s
              ≡ (ok u, s')
            → (a : Text) × (lookup (normalise_email email) s.user_id_by_email ≡ none)
              × (email_str (normalise_email email) ≡ some a)
              × (u ≡ signed_up email_str email password_hash display_name id now a)
              × (s' ≡ added email_str email password_hash display_name id now a s)
        go (some k) checked free address r = absurd (ground arith)
        go none none free address r = absurd (ground arith)
        go none (some a) free address r = (a, free, address, ground arith, ground arith)

    -- After a successful `create` in a consistent store, under a new UUID, every spelling of the address with the same normal form finds the new user, and every other address finds what it found before.
    pub get_by_email-create :
        IsConsistent email_str s
        → lookup id s.users_by_id ≡ none
        → (e : Text)
        → get_by_email e s'
          ≡ (if normalise_email email == normalise_email e then ok (some u) else get_by_email e s)
    unfolding get_by_email
    get_by_email-create c new_id e =
        let (a, free, address, made, after) = created in
        elim (IsIndexed-cases id_of (OwnsAddress email_str) (normalise_email e) c) [
          | inl absent ↦ ground (
            arith,
            ==_iff (normalise_email email) (normalise_email e),
            lookup-insert (normalise_email e) (normalise_email email) id s.user_id_by_email,
            lookup-insert_self id u s.users_by_id,
          )
          | inr (k, v, leads, at, owns) ↦ ground (
            arith,
            ==_iff (normalise_email email) (normalise_email e),
            lookup-insert (normalise_email e) (normalise_email email) id s.user_id_by_email,
            lookup-insert k id u s.users_by_id,
          )
        ]

    -- After a successful `create`, in any store, no spelling of the address with the same normal form can be used again: `create` raises a duplicate and changes nothing.
    pub create_again :
        (again password_hash' display_name' : Text) (id' : Uuid) (later : DateTime)
        → normalise_email again ≡ normalise_email email
        → create email_str again password_hash' display_name' id' later s'
          ≡ (err (duplicate_entry "user" "email"), s')
    create_again again password_hash' display_name' id' later same =
        let (a, free, address, made, after) = created in
        ground (
          arith,
          create_user_lem email_str again password_hash' display_name' id' later s',
          lookup-insert_self (normalise_email email) id s.user_id_by_email,
        )

  -- The uniqueness is that of the normal forms alone: where the check makes one address of two different normal forms that are both free, sign-ups under both with different UUIDs succeed, and then two different users are stored with that same address, each found by its id and by its own spelling.
  pub create_shares_address :
      (s : Store) (e f p q n m a : Text) (i j : Uuid) (t t' : DateTime)
      → i ≢ j
      → normalise_email e ≢ normalise_email f
      → lookup (normalise_email e) s.user_id_by_email ≡ none
      → lookup (normalise_email f) s.user_id_by_email ≡ none
      → email_str (normalise_email e) ≡ some a
      → email_str (normalise_email f) ≡ some a
      → let (first, s') = create email_str e p n i t s in
        let (second, s'') = create email_str f q m j t' s' in
        (u : User) × (v : User) × (first ≡ ok u)
        × (second ≡ ok v)
        × (u.email ≡ v.email)
        × (u.id ≢ v.id)
        × (get_by_id i s'' ≡ some u)
        × (get_by_id j s'' ≡ some v)
        × (get_by_email e s'' ≡ ok (some u))
        × (get_by_email f s'' ≡ ok (some v))
  unfolding get_by_id get_by_email
  create_shares_address s e f p q n m a i j t t' apart differ free_e free_f made_e made_f =
      let u = signed_up email_str e p n i t a in
      let v = signed_up email_str f q m j t' a in
      let s' = added email_str e p n i t a s in
      let s'' = added email_str f q m j t' a s' in
      let first_run : ◌≡◌ {A = Result Error User × Store} (create email_str e p n i t s)
          (ok u, s') =
        ground (arith, create_user_lem email_str e p n i t s) in
      let second_run : ◌≡◌ {A = Result Error User × Store} (create email_str f q m j t' s')
          (ok v, s'') =
        ground (
          arith,
          create_user_lem email_str f q m j t' s',
          lookup-insert_ne (normalise_email f) (normalise_email e) i s.user_id_by_email differ,
        ) in
      let at_i : lookup i s''.users_by_id ≡ some u =
        lookup-insert_ne i j v s'.users_by_id (λ same. apart (sym same))
        ∙ lookup-insert_self i u s.users_by_id in
      let at_j : lookup j s''.users_by_id ≡ some v = lookup-insert_self j v s'.users_by_id in
      let under_e : lookup (normalise_email e) s''.user_id_by_email ≡ some i =
        lookup-insert_ne (normalise_email e) (normalise_email f) j s'.user_id_by_email
          (λ same. differ (sym same))
        ∙ lookup-insert_self (normalise_email e) i s.user_id_by_email in
      let under_f : lookup (normalise_email f) s''.user_id_by_email ≡ some j =
        lookup-insert_self (normalise_email f) j s'.user_id_by_email in
      rw (first_run, second_run)
        (
          u,
          v,
          refl,
          refl,
          refl,
          apart,
          at_i,
          at_j,
          ground (arith, under_e, at_i),
          ground (arith, under_f, at_j),
        )
