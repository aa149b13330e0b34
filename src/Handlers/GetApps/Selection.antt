-- ===== src/Handlers/GetApps/Selection.antt =====
-- Which apps `get_apps` offers.
use jit_streamer_eb.Prelude.{
  Bool, false, ◌&&◌, Option, none, some, String, List, [], ◌∷◌, str_eq, if◌then◌else◌, ◌≡◌, refl,
  ◌∙◌, ap, All, ◌⊎◌, inl, inr, Bool-cases,
}
use jit_streamer_eb.HashMap.{HashMap, get, insert, HasUniqueKeys}
use jit_streamer_eb.HashMap.Laws.{get-insert, insert-HasUniqueKeys}
use jit_streamer_eb.Device.{Plist}
use jit_streamer_eb.Server.{Server}
use jit_streamer_eb.Flow.{next, reply, pure, stop}
use jit_streamer_eb.Handlers.GetApps.{
  has_get_task_allow, app_name, with_notice, failure, collect, other_entry, update_notice,
}

module _ (plist : Plist) where
  open plist use {Value}

  -- The app is one that `get_apps` offers under the name.
  abbrev pub offers : String → String → Value → Bool
  offers name bundle_id app =
      has_get_task_allow plist app && str_eq (app_name plist bundle_id app) name

  -- The bundle id of the last app on the list that is offered under the name.
  abbrev pub last_offered : String → Option String → List (String × Value) → Option String
  last_offered name before [] = before
  last_offered name before ((bundle_id, app) ∷ rest) =
      last_offered name (if offers name bundle_id app then some bundle_id else before) rest

  -- The map after one more app of the list.
  abbrev enter : String → Value → HashMap String → HashMap String
  enter bundle_id app m =
      if has_get_task_allow plist app then insert (app_name plist bundle_id app) bundle_id m else m

  get-enter :
      (name bundle_id : String) (app : Value) (m : HashMap String)
      → get name (enter bundle_id app m)
        ≡ (if offers name bundle_id app then some bundle_id else get name m)
  get-enter name bundle_id app m = elim (Bool-cases (has_get_task_allow plist app)) [
    | inl yes_it ↦ rw yes_it (get-insert (app_name plist bundle_id app) name bundle_id m)
    | inr no_it ↦ rw no_it refl
  ]

  get-collect_from :
      (name : String) (m : HashMap String) (installed : List (String × Value))
      → get name (collect plist m installed) ≡ last_offered name (get name m) installed
  unfolding collect
  get-collect_from name m [] = refl
  get-collect_from name m ((bundle_id, app) ∷ rest) =
      get-collect_from name (enter bundle_id app m) rest
      ∙ ap (λ (o : Option String). last_offered name o rest) (get-enter name bundle_id app m)

  get-collect :
      (name : String) (installed : List (String × Value))
      → get name (collect plist [] installed) ≡ last_offered name none installed
  get-collect name installed = unfold get in get-collect_from name [] installed

  enter-HasUniqueKeys :
      (bundle_id : String) (app : Value) (m : HashMap String)
      → HasUniqueKeys m
      → HasUniqueKeys (enter bundle_id app m)
  enter-HasUniqueKeys bundle_id app m u = elim (Bool-cases (has_get_task_allow plist app)) [
    | inl yes_it ↦ rw yes_it (insert-HasUniqueKeys (app_name plist bundle_id app) bundle_id m u)
    | inr no_it ↦ rw no_it u
  ]

  collect-HasUniqueKeys :
      (m : HashMap String) (installed : List (String × Value))
      → HasUniqueKeys m
      → HasUniqueKeys (collect plist m installed)
  unfolding collect
  collect-HasUniqueKeys m [] u = u
  collect-HasUniqueKeys m ((bundle_id, app) ∷ rest) u =
      collect-HasUniqueKeys (enter bundle_id app m) rest (enter-HasUniqueKeys bundle_id app m u)

  -- No installed app has the entitlement `get-task-allow`.
  abbrev pub NoneAllowed : List (String × Value) → Type 0
  NoneAllowed = All (λ (p : String × Value). has_get_task_allow plist p.1 ≡ false)

  collect-none :
      (m : HashMap String) (installed : List (String × Value))
      → NoneAllowed installed
      → collect plist m installed ≡ m
  unfolding collect
  collect-none m [] h = refl
  collect-none m ((bundle_id, app) ∷ rest) (no_it, h) = rw no_it (collect-none m rest h)

  enter-nil :
      (bundle_id : String) (app : Value) (m : HashMap String) (rest : List (String × Value))
      → enter bundle_id app m ≡ []
      → NoneAllowed rest
      → (m ≡ []) × NoneAllowed ((bundle_id, app) ∷ rest)
  unfolding insert
  enter-nil bundle_id app m rest e none_left = elim (Bool-cases (has_get_task_allow plist app)) [
    | inl yes_it ↦ cc (rw yes_it at e)
    | inr no_it ↦ (rw no_it at e, (no_it, none_left))
  ]

  collect-nil :
      (m : HashMap String) (installed : List (String × Value))
      → collect plist m installed ≡ []
      → (m ≡ []) × NoneAllowed installed
  unfolding collect
  collect-nil m [] h = (h, tt)
  collect-nil m ((bundle_id, app) ∷ rest) h =
      let (e, none_left) = collect-nil (enter bundle_id app m) rest h in
      enter-nil bundle_id app m rest e none_left

  -- What the handler makes of the map that was collected from the installed apps.
  abbrev pub Choice : {W : Type 0} → List (String × Value) → HashMap String → Server W → Type 0
  Choice installed collected s =
      (NoneAllowed installed
        × (with_notice collected s ≡ (reply (failure "No apps with get-task-allow found"), s)))
      ⊎ ((¬ NoneAllowed installed)
          × ((apps : HashMap String) × (with_notice collected s ≡ (next apps, s))
              × HasUniqueKeys apps
              × ((name : String)
                  → get name apps ≡ (
                      if str_eq other_entry name
                      then some update_notice
                      else last_offered name none installed))))

  -- From the list of installed apps the handler makes a failure exactly if none of them has the
  -- entitlement `get-task-allow`. Otherwise it makes a map with one entry for each name, which has
  -- under "Other..." the notice to update, and under any other name the bundle id of the last app
  -- on the list that has the entitlement and that name, if there is one.
  pub with_notice-collect :
      {W : Type 0} (installed : List (String × Value)) (s : Server W)
      → Choice installed (collect plist [] installed) s
  unfolding with_notice pure stop
  with_notice-collect {W} installed s = go (collect plist [] installed) refl
    where
      go : (c : HashMap String) → collect plist [] installed ≡ c → Choice {W = W} installed c s
      go [] e = inl ((collect-nil [] installed e).1, refl)
      go (app ∷ apps) e = inr (
        λ h. cc (collect-none [] installed h, e),
        (
          insert other_entry update_notice (app ∷ apps),
          refl,
          insert-HasUniqueKeys other_entry update_notice (app ∷ apps)
              (rw e at (collect-HasUniqueKeys [] installed tt)),
          λ name.
              get-insert other_entry name update_notice (app ∷ apps)
              ∙ ap
                  (λ (o : Option String). if str_eq other_entry name then some update_notice else o)
                  (rw e at (get-collect name installed)),
        ),
      )
