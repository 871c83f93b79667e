-- ===== src/Objects/Privacy.antt =====
-- Every call keeps the dictionary's objects from the callers.
use flowtona.Common.{
  suc, ◌<◌, ◌≤◌, Dict, ◌≡◌, ◌≢◌, refl, ap, arith, Text, true, false, Option, none, some, List, ◌∷◌,
  DateTime, lookup, insert, ◌⊎◌, Result, ok, ◌==◌, nat_eq, list_eq, is_listed, Option-cases,
  Bool-cases, Result-cases, inl, inr,
}
use flowtona.Exceptions.{Uuid, Error}
use flowtona.Email.{normalise_email}
use flowtona.Models.User.{User}
use flowtona.Store.{empty}
use flowtona.Repositories.UserRepository.Consistency as Users
use flowtona.Objects.{
  Ref, Memory, Assignment, write, allocate, assigned, create, get_by_id, get_by_email, update,
  assign,
}
use flowtona.Objects.Values.{
  store_of, values-write, AreMade, keep, AllValues-insert, AllValues-weaken,
}
use flowtona.Objects.Creation.{creation, raw_creation}
use flowtona.Objects.Refinement.{raw_update, revision}
use flowtona.Objects.Callers.{handed, handed_found, IsPrivate}

module _ {m : Memory} {held : List Ref} (p : IsPrivate m held) where
  pub all_made : AreMade m
  all_made =
      AllValues-weaken (λ r. (r < m.next) × (is_listed r held ≡ false)) (λ r. r < m.next)
        m.users_by_id (λ r both. both.0) p.stored

  unheld : (r : Ref) → m.next ≤ r → is_listed r held ≡ false
  unheld r new = elim (Bool-cases (is_listed r held)) [
    | inl listed ↦ absurd (omega (arith, p.held_made r listed))
    | inr free ↦ free
  ]

  with_index-IsPrivate : (d : Dict Text Uuid) → IsPrivate (record m { user_id_by_email = d }) held
  with_index-IsPrivate d = record { stored = p.stored; held_made = p.held_made }

  module _ (u : User) where
    allocate-IsPrivate : IsPrivate (allocate u m) held
    allocate-IsPrivate = record {
      stored =
          AllValues-weaken (λ r. (r < m.next) × (is_listed r held ≡ false))
            (λ r. (r < suc m.next) × (is_listed r held ≡ false)) m.users_by_id
            (λ r both. (omega (arith, both.0), both.1)) p.stored;
      held_made = λ r listed. omega (arith, p.held_made r listed);
    }

    -- The caller gets the new object.
    pub hand-IsPrivate : IsPrivate (allocate u m) (m.next ∷ held)
    unfolding is_listed
    hand-IsPrivate = record {
      stored =
          AllValues-weaken (λ r. (r < m.next) × (is_listed r held ≡ false))
            (λ r. (r < suc m.next) × (is_listed r (m.next ∷ held) ≡ false)) m.users_by_id
            (λ r both. (omega (arith, both.0), ground (arith, both.0, both.1))) p.stored;
      held_made = λ r listed. ground (arith, p.held_made r);
    }

    keep-IsPrivate : IsPrivate (keep u m) held
    keep-IsPrivate = record {
      stored =
          AllValues-insert (λ r. (r < suc m.next) × (is_listed r held ≡ false)) u.id m.next
            m.users_by_id (omega arith, unheld m.next (omega arith)) allocate-IsPrivate.stored;
      held_made = allocate-IsPrivate.held_made;
    }

  -- What a caller has is not what the dictionary holds, so a change of it changes no value.
  pub write-store_of :
      (r : Ref) (u : User)
      → is_listed r held ≡ true
      → store_of (record m { objects = write r u m.objects }) ≡ store_of m
  write-store_of r u listed =
      ap (λ d. record empty { users_by_id = d; user_id_by_email = m.user_id_by_email })
        (values-write m.objects r u m.users_by_id (
          AllValues-weaken (λ q. (q < m.next) × (is_listed q held ≡ false)) (λ q. r ≢ q)
            m.users_by_id (λ q both same. absurd (ground (arith, both.1))) p.stored))

module _ (email_str : Text → Option Text) {m : Memory} {held : List Ref}
    (p : IsPrivate m held) where
  module _ (email password_hash display_name : Text) (id : Uuid) (now : DateTime) where
    creation-IsPrivate :
        (taken : Option Uuid) (checked : Option Text)
        → let (r, m') =
            creation email_str email password_hash display_name id now taken checked m in
          IsPrivate m' (handed r held)
    creation-IsPrivate (some k) checked = p
    creation-IsPrivate none none = p
    creation-IsPrivate none (some a) =
        let u = Users.signed_up email_str email password_hash display_name id now a in
        let filed = keep-IsPrivate (allocate-IsPrivate p u) u in
        let d = insert (normalise_email email) u.id m.user_id_by_email in
        hand-IsPrivate (with_index-IsPrivate filed d) u

    pub create-IsPrivate :
        let (r, m') = create email_str email password_hash display_name id now m in
        IsPrivate m' (handed r held)
    create-IsPrivate =
        rw (raw_creation email_str email password_hash display_name id now m _ _ refl refl) (
          creation-IsPrivate (lookup (normalise_email email) m.user_id_by_email)
            (email_str (normalise_email email)))

  -- A lookup leaves the memory alone or gives the caller a new copy.
  abbrev GivesCopy : Result Error (Option Ref) × Memory → Type 0
  GivesCopy (r, m') =
      ((m' ≡ m) × (handed_found r held ≡ held))
      ⊎ ((v : User) × (m' ≡ allocate v m) × (r ≡ ok (some m.next)))

  pub GivesCopy-IsPrivate :
      (r : Result Error (Option Ref)) (m' : Memory)
      → GivesCopy (r, m')
      → IsPrivate m' (handed_found r held)
  GivesCopy-IsPrivate r m' (inl (same, nothing)) = rw (same, nothing) p
  GivesCopy-IsPrivate r m' (inr (v, after, given)) = rw (after, given) (hand-IsPrivate p v)

  pub get_by_id-GivesCopy : (k : Uuid) → GivesCopy (get_by_id k m)
  unfolding get_by_id
  get_by_id-GivesCopy k = elim (Option-cases (lookup k m.users_by_id)) [
    | inl absent ↦ inl (ground arith, ground arith)
    | inr (q, there) ↦ inr (m.objects q, ground arith, ground arith)
  ]

  pub get_by_email-GivesCopy : (e : Text) → GivesCopy (get_by_email e m)
  unfolding get_by_email
  get_by_email-GivesCopy e = elim (Option-cases (lookup (normalise_email e) m.user_id_by_email)) [
    | inl absent ↦ inl (ground arith, ground arith)
    | inr (k, leads) ↦ elim (Option-cases (lookup k m.users_by_id)) [
      | inl dangling ↦ inl (ground arith, ground arith)
      | inr (q, there) ↦ inr (m.objects q, ground arith, ground arith)
    ]
  ]

  module _ (user : Ref) (older : user < m.next) where
    revision-IsPrivate :
        (o : Option Ref)
        → let (r, m') = revision m (all_made p) email_str user older o in
          IsPrivate m' (handed r held)
    revision-IsPrivate none = p
    revision-IsPrivate (some existing) =
        elim (Bool-cases ((m.objects existing).email == (m.objects user).email)) [
          | inl same ↦ rw same (hand-IsPrivate (keep-IsPrivate p (m.objects user)) (m.objects user))
          | inr other ↦ rw other p
        ]

    pub update-IsPrivate : let (r, m') = update user m in IsPrivate m' (handed r held)
    update-IsPrivate =
        rw (raw_update m (all_made p) email_str user older _ refl)
          (revision-IsPrivate (lookup (m.objects user).id m.users_by_id))

  pub assign_lem :
      (r : Ref) (a : Assignment)
      → is_listed r held ≡ true
      → let m' = (assign email_str r a m).1 in IsPrivate m' held × (store_of m' ≡ store_of m)
  unfolding assign
  assign_lem r a listed = elim (Result-cases (assigned email_str a (m.objects r))) [
    | inl (e, raised) ↦ rw raised (p, refl)
    | inr (v, done) ↦
        rw done (record { stored = p.stored; held_made = p.held_made }, write-store_of p r v listed)
  ]
