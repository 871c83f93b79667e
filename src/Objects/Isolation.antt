-- ===== src/Objects/Isolation.antt =====
-- Callers that change the users they were given change nothing in the repository.
use flowtona.Common.{◌≡◌, ap, ◌∙◌, Text, Option, List, nat_eq, list_eq}
use flowtona.Store.{Store}
use flowtona.History as History
use flowtona.History.{Reach, here, next}
use flowtona.Objects.{Ref, Memory}
use flowtona.Objects.Values.{store_of, value_of, lookup-values}
use flowtona.Objects.Callers.{
  Step, creates, finds_by_id, finds_by_email, updates, assigns, makes, Run, stop, go_on, IsPrivate,
}
use flowtona.Objects.Privacy.{
  all_made, create-IsPrivate, update-IsPrivate, get_by_id-GivesCopy, get_by_email-GivesCopy,
  GivesCopy-IsPrivate, assign_lem, hand-IsPrivate,
}
use flowtona.Objects.Refinement.{methods_refine}
use flowtona.Objects.Values.{allocate-store_of}

abbrev Outcome : (Text → Option Text) → Memory → Memory → List Ref → Type 0
Outcome email_str m m' held' = IsPrivate m' held' × Reach email_str (store_of m) (store_of m')

module _ (email_str : Text → Option Text) where
  same_values : {s t : Store} → t ≡ s → Reach email_str s t
  same_values same = rw same here

  one_call :
      {s t : Store} {A : Type 0} {r : A} {call : A × Store}
      → (r, t) ≡ call
      → History.Step email_str s call.1
      → Reach email_str s t
  one_call {s} {t} {A} {r} refined step = next here (rw (ap (λ (x : A × Store). x.1) refined) step)

  step_lem :
      {m m' : Memory} {held held' : List Ref}
      → Step email_str m held m' held'
      → IsPrivate m held
      → Outcome email_str m m' held'
  step_lem (creates m held email password_hash display_name id now new) p =
      let (refined, made) =
        (methods_refine email_str m (all_made p)).0 email password_hash display_name id now in
      (
        create-IsPrivate email_str p email password_hash display_name id now,
        one_call refined (
            History.Step.user_create (store_of m) email password_hash display_name id now
              (lookup-values m.objects id m.users_by_id ∙ ap (value_of m.objects) new)),
      )
  step_lem (finds_by_id m held k) p =
      let (found, same, made) = (methods_refine email_str m (all_made p)).1 k in
      (GivesCopy-IsPrivate email_str p _ _ (get_by_id-GivesCopy email_str p k), same_values same)
  step_lem (finds_by_email m held e) p =
      let (found, same, made) = (methods_refine email_str m (all_made p)).2 e in
      (GivesCopy-IsPrivate email_str p _ _ (get_by_email-GivesCopy email_str p e), same_values same)
  step_lem (updates m held user listed) p =
      let older = p.held_made user listed in
      let (refined, made) = (methods_refine email_str m (all_made p)).3 user older in
      (
        update-IsPrivate email_str p user older,
        one_call refined (History.Step.user_update (store_of m) (m.objects user)),
      )
  step_lem (assigns m held r a listed) p =
      let (p', same) = assign_lem email_str p r a listed in (p', same_values same)
  step_lem (makes m held u) p =
      (hand-IsPrivate p u, same_values (allocate-store_of u m (all_made p)))

  join : {s t u : Store} → Reach email_str s t → Reach email_str t u → Reach email_str s u
  join first here = first
  join first (next later step) = next (join first later) step

  -- From a memory whose stored objects no caller has: after any run of calls, of assignments to objects that callers have and of users that callers make, no caller has a stored object, and the values stored are those that a run of whole calls on values reaches.
  pub isolation :
      {m m' : Memory} {held held' : List Ref}
      → IsPrivate m held
      → Run email_str m held m' held'
      → IsPrivate m' held' × Reach email_str (store_of m) (store_of m')
  isolation p stop = (p, here)
  isolation p (go_on run step) =
      let (p', reach) = isolation p run in
      let (p'', reach') = step_lem step p' in (p'', join reach reach')
