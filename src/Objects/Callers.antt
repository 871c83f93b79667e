-- ===== src/Objects/Callers.antt =====
-- Callers and the objects that they have: calls of the methods, in any order, and what callers do to
-- their own objects meanwhile.
use flowtona.Common.{
  ◌<◌, ◌≡◌, Text, true, false, Option, none, some, List, ◌∷◌, DateTime, lookup, Result, ok, err,
  nat_eq, list_eq, AllValues, is_listed,
}
use flowtona.Exceptions.{Uuid, Error}
use flowtona.Models.User.{User}
use flowtona.Objects.{
  Ref, Memory, Assignment, allocate, create, get_by_id, get_by_email, update, assign,
}

-- The caller gets what is returned.
abbrev pub handed : Result Error Ref → List Ref → List Ref
handed (ok r) held = r ∷ held
handed (err e) held = held

abbrev pub handed_found : Result Error (Option Ref) → List Ref → List Ref
handed_found (ok (some r)) held = r ∷ held
handed_found (ok none) held = held
handed_found (err e) held = held

-- One call or one action of a caller, where `held` are the objects that callers have.
pub data Step (email_str : Text → Option Text)
    : Memory → List Ref → Memory → List Ref → Type 0 where
  creates :
      (m : Memory) (held : List Ref) (email password_hash display_name : Text) (id : Uuid)
      (now : DateTime)
      → lookup id m.users_by_id ≡ none
      → Step email_str m held
          (create email_str email password_hash display_name id now m).1
          (handed (create email_str email password_hash display_name id now m).0 held)
  finds_by_id :
      (m : Memory) (held : List Ref) (k : Uuid)
      → Step email_str m held (get_by_id k m).1 (handed_found (get_by_id k m).0 held)
  finds_by_email :
      (m : Memory) (held : List Ref) (e : Text)
      → Step email_str m held (get_by_email e m).1 (handed_found (get_by_email e m).0 held)
  updates :
      (m : Memory) (held : List Ref) (user : Ref)
      → is_listed user held ≡ true
      → Step email_str m held (update user m).1 (handed (update user m).0 held)
  assigns :
      (m : Memory) (held : List Ref) (r : Ref) (a : Assignment)
      → is_listed r held ≡ true
      → Step email_str m held (assign email_str r a m).1 held
  makes :
      (m : Memory) (held : List Ref) (u : User)
      → Step email_str m held (allocate u m) (m.next ∷ held)

pub data Run (email_str : Text → Option Text) : Memory → List Ref → Memory → List Ref → Type 0 where
  stop : {m : Memory} {held : List Ref} → Run email_str m held m held
  go_on :
      {m m' m'' : Memory} {held held' held'' : List Ref}
      → Run email_str m held m' held'
      → Step email_str m' held' m'' held''
      → Run email_str m held m'' held''

-- The dictionary holds made objects that no caller has; what callers have has been made.
pub record IsPrivate (m : Memory) (held : List Ref) : Type 0 where
  pub stored : AllValues (λ r. (r < m.next) × (is_listed r held ≡ false)) m.users_by_id
  pub held_made : (r : Ref) → is_listed r held ≡ true → r < m.next
