-- ===== src/Objects/Values.antt =====
-- The values that a memory holds, as the store of values has them.
use flowtona.Common.{
  suc, ◌<◌, ◌≡◌, ◌≢◌, refl, Option, none, some, [], ◌∷◌, Dict, lookup, insert, ==_iff, ==_refl,
  nat_eq, AllValues, ap, ◌∙◌, Result, ok, err, arith,
}
use flowtona.Exceptions.{Uuid, Error}
use flowtona.Models.User.{User}
use flowtona.Store.{Store, empty}
use flowtona.Repositories.UserRepository.Consistency as Users
use flowtona.Objects.{Ref, Memory, write, allocate}

abbrev pub values : (Ref → User) → Dict Uuid Ref → Dict Uuid User
values objects [] = []
values objects ((k, r) ∷ d) = (k, objects r) ∷ values objects d

-- The store of a memory: its users by value, and its index as it is.
abbrev pub store_of : Memory → Store
store_of m = record empty {
  users_by_id = values m.objects m.users_by_id;
  user_id_by_email = m.user_id_by_email;
}

abbrev pub value_of : (Ref → User) → Option Ref → Option User
value_of objects none = none
value_of objects (some r) = some (objects r)

module _ (objects : Ref → User) where
  pub lookup-values :
      (k : Uuid) (d : Dict Uuid Ref) → lookup k (values objects d) ≡ value_of objects (lookup k d)
  unfolding lookup
  lookup-values k [] = refl
  lookup-values k ((j, r) ∷ d) = ground (arith, lookup-values k d)

  pub values-insert :
      (k : Uuid) (r : Ref) (d : Dict Uuid Ref)
      → values objects (insert k r d) ≡ insert k (objects r) (values objects d)
  unfolding insert
  values-insert k r [] = refl
  values-insert k r ((j, q) ∷ d) = ground (arith, values-insert k r d)

  -- An object that the dictionary does not hold may change.
  pub values-write :
      (r : Ref) (u : User) (d : Dict Uuid Ref)
      → AllValues (λ q. r ≢ q) d
      → values (write r u objects) d ≡ values objects d
  values-write r u [] other = refl
  values-write r u ((k, q) ∷ d) (differ, other) =
      ground (arith, values-write r u d other, ==_iff r q)

  pub write_self : (r : Ref) (u : User) → write r u objects r ≡ u
  write_self r u = ground (arith, ==_refl r)

pub AllValues-weaken {μ ν} :
    (P : Ref → Type μ) (Q : Ref → Type ν) (d : Dict Uuid Ref)
    → ((r : Ref) → P r → Q r)
    → AllValues P d
    → AllValues Q d
AllValues-weaken P Q [] h all = tt
AllValues-weaken P Q ((k, r) ∷ d) h (p, all) = (h r p, AllValues-weaken P Q d h all)

pub AllValues-insert {μ} :
    (P : Ref → Type μ) (k : Uuid) (r : Ref) (d : Dict Uuid Ref)
    → P r
    → AllValues P d
    → AllValues P (insert k r d)
unfolding insert
AllValues-insert P k r [] p all = (p, tt)
AllValues-insert P k r ((j, q) ∷ d) p all = ground (arith, AllValues-insert P k r d p)

-- Every object that the dictionary holds has been made.
abbrev pub AreMade : Memory → Type 0
AreMade m = AllValues (λ r. r < m.next) m.users_by_id

module _ (u : User) (m : Memory) (made : AreMade m) where
  pub allocate-AreMade : AreMade (allocate u m)
  allocate-AreMade =
      AllValues-weaken (λ r. r < m.next) (λ r. r < suc m.next) m.users_by_id
        (λ r below. omega arith) made

  -- A new object changes no value.
  pub allocate-values : values (allocate u m).objects m.users_by_id ≡ values m.objects m.users_by_id
  allocate-values = values-write m.objects m.next u m.users_by_id (
      AllValues-weaken (λ r. r < m.next) (λ r. m.next ≢ r) m.users_by_id
        (λ r below same. absurd (omega arith)) made)

  pub allocate-store_of : store_of (allocate u m) ≡ store_of m
  allocate-store_of =
      ap (λ d. record empty { users_by_id = d; user_id_by_email = m.user_id_by_email })
        allocate-values

-- The value of what a method returns.
abbrev pub read : Memory → Result Error Ref → Result Error User
read m (ok r) = ok (m.objects r)
read m (err e) = err e

abbrev pub read_found : Memory → Result Error (Option Ref) → Result Error (Option User)
read_found m (ok o) = ok (value_of m.objects o)
read_found m (err e) = err e

-- An object with the value `u` filed under the id of `u`.
abbrev pub keep : User → Memory → Memory
keep u m = let m1 = allocate u m in record m1 { users_by_id = insert u.id m.next m.users_by_id }

pub keep-store_of :
    (u : User) (m : Memory)
    → AreMade m
    → store_of (keep u m) ≡ Users.with_users (store_of m) (insert u.id u (store_of m).users_by_id)
keep-store_of u m made = ap (Users.with_users (store_of m)) (
    values-insert (allocate u m).objects u.id m.next m.users_by_id
    ∙ ap (λ (x : User). insert u.id x (values (allocate u m).objects m.users_by_id))
        (write_self m.objects m.next u)
    ∙ ap (λ d. insert u.id u d) (allocate-values u m made))

pub keep-AreMade : (u : User) (m : Memory) → AreMade m → AreMade (keep u m)
keep-AreMade u m made =
    AllValues-insert (λ r. r < suc m.next) u.id m.next m.users_by_id (omega arith)
      (allocate-AreMade u m made)
