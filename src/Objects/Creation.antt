-- ===== src/Objects/Creation.antt =====
-- `create` on objects does what `create` on values does.
use flowtona.Common.{
  suc, [], ◌∷◌, ◌≡◌, refl, ap, ◌∙◌, arith, Text, Option, none, some, DateTime, lookup, insert,
  Result, ok, err, nat_eq, list_eq,
}
use flowtona.Exceptions.{Uuid, Error, duplicate_entry, validation_error}
use flowtona.Email.{normalise_email}
use flowtona.Models.User.{User, validate}
use flowtona.Store.{Store}
use flowtona.Repositories.UserRepository
use flowtona.Repositories.UserRepository.Consistency as Users
use flowtona.Objects.{Ref, Memory, write, allocate, create}
use flowtona.Objects.Values.{
  store_of, write_self, AreMade, allocate-AreMade, allocate-store_of, keep, keep-store_of,
  keep-AreMade, read,
}

module _ (email_str : Text → Option Text) (email password_hash display_name : Text) (id : Uuid)
    (now : DateTime) where
  -- The memory that `create` leaves, by the values of the objects that it makes: the new user has the value `u`, its copy `x` is filed under the id `k`, and the caller gets `y`.
  abbrev pub filed : User → User → Uuid → User → Memory → Memory
  filed u x k y m =
      let m2 = allocate x (allocate u m) in
      allocate y (record m2 {
        users_by_id = insert k (suc m.next) m.users_by_id;
        user_id_by_email = insert (normalise_email email) k m.user_id_by_email;
      })

  abbrev pub creation : Option Uuid → Option Text → Memory → Result Error Ref × Memory
  creation (some _) _ m = (err (duplicate_entry "user" "email"), m)
  creation none none m = (err (validation_error "email" (normalise_email email ∷ [])), m)
  creation none (some a) m =
      let u = Users.signed_up email_str email password_hash display_name id now a in
      (ok (suc (suc m.next)), filed u u u.id u m)

  pub raw_creation :
      (m : Memory) (taken : Option Uuid) (checked : Option Text)
      → lookup (normalise_email email) m.user_id_by_email ≡ taken
      → email_str (normalise_email email) ≡ checked
      → create email_str email password_hash display_name id now m ≡ creation taken checked m
  unfolding create validate
  raw_creation m (some k) checked taken address = ground arith
  raw_creation m none none taken address = ground arith
  raw_creation m none (some a) taken address =
      let u = Users.signed_up email_str email password_hash display_name id now a in
      let o = write m.next u m.objects in
      let x = o m.next in
      let same : x ≡ u = write_self m.objects m.next u in
      let p = write (suc m.next) x o in
      let result : User → Uuid → User → Result Error Ref × Memory =
        λ x k y. (ok (suc (suc m.next)), filed u x k y m) in
      let raw : create email_str email password_hash display_name id now m
          ≡ result x (p m.next).id (p (suc m.next)) =
        ground arith in
      let beside : p m.next ≡ u = ground (arith, same) in
      raw
      ∙ ap (λ (v : User). result x v.id (p (suc m.next))) beside
      ∙ ap (result x u.id) (write_self o (suc m.next) x ∙ same)
      ∙ ap (λ v. result v u.id u) same

  -- The store of values that `creation` leaves, and what it returns.
  creation_refines :
      (m : Memory) (taken : Option Uuid) (checked : Option Text)
      → AreMade m
      → let (r, m') = creation taken checked m in
        ((read m' r, store_of m')
          ≡ Users.creation email_str email password_hash display_name id now taken checked
              (store_of m))
        × AreMade m'
  creation_refines m (some k) checked made = (refl, made)
  creation_refines m none none made = (refl, made)
  creation_refines m none (some a) made =
      let u = Users.signed_up email_str email password_hash display_name id now a in
      let m1 = allocate u m in
      let made1 = allocate-AreMade u m made in
      let index = insert (normalise_email email) u.id m.user_id_by_email in
      let m2 = record (keep u m1) { user_id_by_email = index } in
      let made2 : AreMade m2 = keep-AreMade u m1 made1 in
      let with_index : Store → Store = λ s. record s { user_id_by_email = index } in
      (
        ap (λ (v : User). (ok v, store_of (allocate u m2))) (write_self m2.objects m2.next u)
            ∙ ap (λ s. (ok u, s))
                (allocate-store_of u m2 made2
                  ∙ ap with_index (keep-store_of u m1 made1)
                  ∙ ap (λ s. with_index (Users.with_users s (insert u.id u s.users_by_id)))
                      (allocate-store_of u m made)),
        allocate-AreMade u m2 made2,
      )

  pub create_refines :
      (m : Memory)
      → AreMade m
      → let (r, m') = create email_str email password_hash display_name id now m in
        ((read m' r, store_of m')
          ≡ UserRepository.create email_str email password_hash display_name id now (store_of m))
        × AreMade m'
  create_refines m made =
      let taken = lookup (normalise_email email) m.user_id_by_email in
      let checked = email_str (normalise_email email) in
      let same = raw_creation m taken checked refl refl in
      let (refined, made') = creation_refines m taken checked made in
      rw
        (same, Users.create_user_lem email_str email password_hash display_name id now (store_of m))
        (refined, made')
