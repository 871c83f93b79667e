-- ===== src/Objects/Refinement.antt =====
-- The methods on objects do what the methods on values do.
use flowtona.Common.{
  suc, ◌<◌, ◌≡◌, refl, ap, ◌∙◌, arith, Text, Option, none, some, DateTime, lookup, Result, ok, err,
  ◌==◌, nat_eq, list_eq, if◌then◌else◌, Option-cases, inl, inr, Bool-cases,
}
use flowtona.Exceptions.{Uuid, Error, record_not_found, by_uuid, not_implemented_error, key_error}
use flowtona.Email.{normalise_email}
use flowtona.Models.User.{User}
use flowtona.Store.{Store}
use flowtona.Repositories.UserRepository
use flowtona.Repositories.UserRepository.Consistency as Users
use flowtona.Objects.{Ref, Memory, write, allocate, create, get_by_id, get_by_email, update}
use flowtona.Objects.Values.{
  store_of, value_of, lookup-values, write_self, AreMade, allocate-AreMade, allocate-store_of, keep,
  keep-store_of, keep-AreMade, read, read_found,
}
use flowtona.Objects.Creation.{create_refines}

-- What a lookup leaves: the values are as they were, and there may be one object more.
module _ (m : Memory) (made : AreMade m) where
  get_by_id_refines :
      (k : Uuid)
      → let (r, m') = get_by_id k m in
        (read_found m' r ≡ ok (UserRepository.get_by_id k (store_of m)))
        × (store_of m' ≡ store_of m)
        × AreMade m'
  unfolding get_by_id UserRepository.get_by_id
  get_by_id_refines k = elim (Option-cases (lookup k m.users_by_id)) [
    | inl absent ↦ rw (lookup-values m.objects k m.users_by_id, absent) (refl, refl, made)
    | inr (q, there) ↦
        rw (lookup-values m.objects k m.users_by_id, there)
          (
            ap (λ (v : User). ok (some v)) (write_self m.objects m.next (m.objects q)),
            allocate-store_of (m.objects q) m made,
            allocate-AreMade (m.objects q) m made,
          )
  ]

  -- A copy of what an address leads to.
  copies :
      (e : Text) (k : Uuid) (o : Option Ref)
      → lookup (normalise_email e) m.user_id_by_email ≡ some k
      → lookup k m.users_by_id ≡ o
      → let (r, m') = get_by_email e m in
        (read_found m' r ≡ UserRepository.get_by_email e (store_of m))
        × (store_of m' ≡ store_of m)
        × AreMade m'
  unfolding get_by_email UserRepository.get_by_email
  copies e k none leads there =
      let raw : get_by_email e m ≡ (err key_error, m) = ground arith in
      let value : UserRepository.get_by_email e (store_of m) ≡ err key_error =
        ground (arith, lookup-values m.objects k m.users_by_id) in
      rw (raw, value) (refl, refl, made)
  copies e k (some q) leads there =
      let raw : get_by_email e m ≡ (ok (some m.next), allocate (m.objects q) m) = ground arith in
      let value : UserRepository.get_by_email e (store_of m) ≡ ok (some (m.objects q)) =
        ground (arith, lookup-values m.objects k m.users_by_id) in
      rw (raw, value)
        (
          ap (λ (v : User). ok (some v)) (write_self m.objects m.next (m.objects q)),
          allocate-store_of (m.objects q) m made,
          allocate-AreMade (m.objects q) m made,
        )

  get_by_email_refines :
      (e : Text)
      → let (r, m') = get_by_email e m in
        (read_found m' r ≡ UserRepository.get_by_email e (store_of m))
        × (store_of m' ≡ store_of m)
        × AreMade m'
  unfolding get_by_email UserRepository.get_by_email
  get_by_email_refines e = elim (Option-cases (lookup (normalise_email e) m.user_id_by_email)) [
    | inl absent ↦ rw absent (refl, refl, made)
    | inr (k, leads) ↦ copies e k (lookup k m.users_by_id) leads refl
  ]

  module _ (email_str : Text → Option Text) (user : Ref) (older : user < m.next) where
    -- What `update` does, by what the dictionary has under the id of the caller's object.
    abbrev pub revision : Option Ref → Result Error Ref × Memory
    revision none = (err (record_not_found "user" (by_uuid (m.objects user).id)), m)
    revision (some existing) =
        if (m.objects existing).email == (m.objects user).email
        then (ok (suc m.next), allocate (m.objects user) (keep (m.objects user) m))
        else (err not_implemented_error, m)

    pub raw_update :
        (o : Option Ref) → lookup (m.objects user).id m.users_by_id ≡ o → update user m ≡ revision o
    unfolding update
    raw_update none there = ground arith
    raw_update (some existing) there =
        elim (Bool-cases ((m.objects existing).email == (m.objects user).email)) [
          | inl same ↦
              let u = m.objects user in
              let o = write m.next u m.objects in
              let raw : update user m ≡ (ok (suc m.next), allocate (o user) (keep u m)) =
                ground arith in
              let beside : o user ≡ u = ground arith in
              rw same (raw ∙ ap (λ v. (ok (suc m.next), allocate v (keep u m))) beside)
          | inr other ↦ ground arith
        ]

    revision_refines :
        (o : Option Ref)
        → lookup (m.objects user).id m.users_by_id ≡ o
        → let (r, m') = revision o in
          let answer = Users.revision email_str (m.objects user) (value_of m.objects o) in
          let expected : Result Error User × Store =
            (answer, Users.revised email_str (m.objects user) answer (store_of m)) in
          ((read m' r, store_of m') ≡ expected) × AreMade m'
    revision_refines none there = (refl, made)
    revision_refines (some existing) there =
        elim (Bool-cases ((m.objects existing).email == (m.objects user).email)) [
          | inl same ↦
              let u = m.objects user in
              let m1 = keep u m in
              let made1 = keep-AreMade u m made in
              rw same (
                ap (λ (v : User). (ok v, store_of (allocate u m1)))
                      (write_self m1.objects m1.next u)
                    ∙ ap (λ s. (ok u, s)) (allocate-store_of u m1 made1 ∙ keep-store_of u m made),
                allocate-AreMade u m1 made1,
              )
          | inr other ↦ rw other (refl, made)
        ]

    update_refines :
        let (r, m') = update user m in
        ((read m' r, store_of m') ≡ UserRepository.update (m.objects user) (store_of m))
        × AreMade m'
    update_refines =
        let u = m.objects user in
        let o = lookup u.id m.users_by_id in
        rw
          (
            raw_update o refl,
            Users.update_user_lem email_str u (store_of m),
            lookup-values m.objects u.id m.users_by_id,
          )
          (revision_refines o refl)

-- On a memory whose dictionary holds made objects alone, each method on objects returns a reference to what the method on values returns or raises what it raises, leaves the store of values as that method does, and leaves such a memory; `update` is called with an object that has been made.
pub methods_refine :
    (email_str : Text → Option Text) (m : Memory)
    → AreMade m
    → ((email password_hash display_name : Text) (id : Uuid) (now : DateTime)
        → let (r, m') = create email_str email password_hash display_name id now m in
          ((read m' r, store_of m')
            ≡ UserRepository.create email_str email password_hash display_name id now (store_of m))
          × AreMade m')
      × ((k : Uuid)
          → let (r, m') = get_by_id k m in
            (read_found m' r ≡ ok (UserRepository.get_by_id k (store_of m)))
            × (store_of m' ≡ store_of m)
            × AreMade m')
      × ((e : Text)
          → let (r, m') = get_by_email e m in
            (read_found m' r ≡ UserRepository.get_by_email e (store_of m))
            × (store_of m' ≡ store_of m)
            × AreMade m')
      × ((user : Ref)
          → user < m.next
          → let (r, m') = update user m in
            ((read m' r, store_of m') ≡ UserRepository.update (m.objects user) (store_of m))
            × AreMade m')
methods_refine email_str m made = (
  λ email password_hash display_name id now.
      create_refines email_str email password_hash display_name id now m made,
  get_by_id_refines m made,
  get_by_email_refines m made,
  update_refines m made email_str,
)
