-- ===== src/Reload/Rules.antt =====
-- wstunnel/src/restrictions/config_reloader.rs: the rules follow their file.
use wstunnel.Prelude.{Bool, Option, none, some, List, [], ◌∷◌, ◌++◌, find, if◌then◌else◌}
use wstunnel.Reload.{FsEvent, is_access, by_kind, Wake, try_rewatch}

-- `Static` has no path. `waiting` are the paths that threads wait for.
pub record RulesReloader (P R : Type 0) : Type 0 where
  pub config_path : Option P
  pub restrictions : R
  pub waiting : List P

-- `watchable` tells whether the watcher is created and set; `none` is an error.
unfoldable pub new_reloader :
    {P R : Type 0} → (P → Bool) → R → Option P → Option (RulesReloader P R)
new_reloader watchable rules none =
    some (record { config_path = none; restrictions = rules; waiting = [] })
new_reloader watchable rules (some path) =
    if watchable path
    then some (record { config_path = some path; restrictions = rules; waiting = [] })
    else none

-- What happens to a reloader: an event or an error of the watcher, or the turn of a thread, each with
-- what `RestrictionsRules::from_config_file` answers at that moment.
pub data Happening (P : Type 0) : Type 0 where
  event : Option (FsEvent P) → Happening P
  wakes : Wake → Happening P

pub record Moment (P R : Type 0) : Type 0 where
  pub from_config_file : P → Option R
  pub happening : Happening P

module _ {P R : Type 0} (ends_with : P → P → Bool) (from_config_file : P → Option R) where
  unfoldable pub reload_restrictions_config : RulesReloader P R → RulesReloader P R
  reload_restrictions_config reloader = elim reloader.config_path [
    | none ↦ reloader
    | some path ↦ elim (from_config_file path) [
      | none ↦ reloader
      | some rules ↦ record reloader { restrictions = rules }
    ]
  ]

  -- An event that names the watched file.
  unfoldable pub on_config_event : FsEvent P → P → RulesReloader P R → RulesReloader P R
  unfolding reload_restrictions_config
  on_config_event e config reloader = elim (find (λ p. ends_with p config) e.paths) [
    | none ↦ reloader
    | some path ↦
        by_kind e.kind (reload_restrictions_config reloader)
          (record reloader { waiting = reloader.waiting ++ (path ∷ []) }) reloader
  ]

  unfoldable pub handle_config_fs_event : Option (FsEvent P) → RulesReloader P R → RulesReloader P R
  unfolding on_config_event
  handle_config_fs_event none reloader = reloader
  handle_config_fs_event (some e) reloader = elim reloader.config_path [
    | none ↦ reloader
    | some config ↦ if is_access e.kind then reloader else on_config_event e config reloader
  ]

  unfoldable pub try_rewatch_config : Wake → RulesReloader P R → RulesReloader P R
  unfolding handle_config_fs_event
  try_rewatch_config =
      try_rewatch (λ (r : RulesReloader P R). r.waiting)
        (λ (ps : List P) (r : RulesReloader P R). record r { waiting = ps })
        (λ (e : FsEvent P). handle_config_fs_event (some e))

  unfoldable pub happen : Happening P → RulesReloader P R → RulesReloader P R
  unfolding try_rewatch_config
  happen (event e) reloader = handle_config_fs_event e reloader
  happen (wakes w) reloader = try_rewatch_config w reloader

-- The moments in order.
unfoldable pub run :
    {P R : Type 0} → (P → P → Bool) → List (Moment P R) → RulesReloader P R → RulesReloader P R
unfolding happen
run ends_with [] reloader = reloader
run ends_with (m ∷ ms) reloader =
    run ends_with ms (happen ends_with m.from_config_file m.happening reloader)
