-- ===== src/Tests/Objects.antt =====
-- A caller creates user 1, gets object 2, and marks it as verified.
use flowtona.Common.{
  ◌≡◌, ◌<◌, refl, arith, Text, true, none, some, List, [], ◌∷◌, DateTime, ok, err, aware, is_listed,
}
use flowtona.Exceptions.{Uuid}
use flowtona.Models.User
use flowtona.Repositories.UserRepository
use flowtona.History.{Reach}
use flowtona.Objects.{
  Ref, Memory, create, get_by_id, get_by_email, update, assign, set_email_verified,
}
use flowtona.Objects.Values.{store_of, AreMade, read, read_found}
use flowtona.Objects.Callers.{IsPrivate, creates, assigns, stop, go_on}
use flowtona.Objects.Refinement.{methods_refine}
use flowtona.Objects.Isolation.{isolation}
use flowtona.Tests.Stores.{accepts, plain_a}

abbrev no_users : Memory
no_users = record {
  objects = λ r. User.fresh 0 [] [] [] (aware 0);
  next = 0;
  users_by_id = [];
  user_id_by_email = [];
}

abbrev with_ann : Memory
with_ann = (create accepts plain_a [] [] 1 (aware 0) no_users).1

abbrev changed : Memory
changed = (assign accepts 2 (set_email_verified true) with_ann).1

-- The repository's object is 1, the caller's 2.
changed_apart :
    (changed.users_by_id ≡ (1, 1) ∷ [])
    × ((changed.objects 2).email_verified ≡ true)
    × (store_of changed ≡ store_of with_ann)
unfolding assign create flowtona.Common.lookup User.validate flowtona.Email.normalise_email
    flowtona.Common.insert
changed_apart = (refl, refl, refl)

no_users-IsPrivate : IsPrivate no_users []
unfolding is_listed
no_users-IsPrivate = record { stored = tt; held_made = λ r listed. absurd (ground arith) }

isolation_example :
    IsPrivate changed (2 ∷ []) × Reach accepts (store_of no_users) (store_of changed)
unfolding flowtona.Common.lookup flowtona.Common.is_listed create User.validate
    flowtona.Email.normalise_email
isolation_example = isolation accepts no_users-IsPrivate (
    go_on (go_on stop (creates no_users [] plain_a [] [] 1 (aware 0) refl))
      (assigns with_ann (2 ∷ []) 2 (set_email_verified true) refl))

methods_refine_example :
    ((email password_hash display_name : Text) (id : Uuid) (now : DateTime)
      → let (r, m') = create accepts email password_hash display_name id now with_ann in
        ((read m' r, store_of m')
          ≡ UserRepository.create accepts email password_hash display_name id now
              (store_of with_ann))
        × AreMade m')
    × ((k : Uuid)
        → let (r, m') = get_by_id k with_ann in
          (read_found m' r ≡ ok (UserRepository.get_by_id k (store_of with_ann)))
          × (store_of m' ≡ store_of with_ann)
          × AreMade m')
    × ((e : Text)
        → let (r, m') = get_by_email e with_ann in
          (read_found m' r ≡ UserRepository.get_by_email e (store_of with_ann))
          × (store_of m' ≡ store_of with_ann)
          × AreMade m')
    × ((user : Ref)
        → user < with_ann.next
        → let (r, m') = update user with_ann in
          ((read m' r, store_of m')
            ≡ UserRepository.update (with_ann.objects user) (store_of with_ann))
          × AreMade m')
unfolding create flowtona.Common.lookup User.validate flowtona.Email.normalise_email
    flowtona.Common.insert
methods_refine_example = methods_refine accepts with_ann (omega arith, tt)
