-- ===== src/Cli/Profile/Invariants.antt =====
-- What every profile command of cli/src/main.rs keeps.
use brewmble.Prelude.{Text, arith, true, ◌≡◌}
use brewmble.Prelude.Dict.{insert, remove, contains_key, get-insert, get-remove}
use brewmble.Cli.Config.{Config, default_profile_name, empty_profile}
use brewmble.Cli.Session.{Session, save_config}
use brewmble.Cli.Profile.{
  ProfileCommand, list, use_profile, create, delete, edit, Environment, list_profiles, run_use,
  run_create, run_delete, launch_editor, run_edit, run_profile,
}

abbrev pub HasActive : Config → Type 0
HasActive c = contains_key c.active_profile c.profiles ≡ true

abbrev pub HasDefault : Config → Type 0
HasDefault c = contains_key default_profile_name c.profiles ≡ true

module _ (env : Environment) (path : Text) where
  save_config_config : (s : Session) → (save_config env.write s).1.config ≡ s.config
  unfolding save_config
  save_config_config s = ground arith

  pub launch_editor_state : (s : Session) → (launch_editor env path s).1 ≡ s
  unfolding launch_editor
  launch_editor_state s = ground arith

  -- Whatever the command and its outcome, the active profile exists afterwards if it did before.
  run_profile-HasActive :
      (c : ProfileCommand) (s : Session)
      → HasActive s.config
      → HasActive (run_profile env path c s).1.config
  unfolding run_profile list_profiles run_use run_create run_delete run_edit
  run_profile-HasActive list s h = h
  run_profile-HasActive (use_profile name) s h = ground (
    arith,
    save_config_config (record s { config = record (s.config) { active_profile = name } }),
  )
  run_profile-HasActive (create name) s h = ground (
    arith,
    save_config_config (record s {
      config = record (s.config) { profiles = insert name empty_profile s.config.profiles };
    }),
    get-insert name s.config.active_profile empty_profile s.config.profiles,
  )
  run_profile-HasActive (delete name) s h = ground (
    arith,
    save_config_config
        (record s { config = record (s.config) { profiles = remove name s.config.profiles } }),
    get-remove name s.config.active_profile s.config.profiles,
  )
  run_profile-HasActive edit s h = ground (
    arith,
    save_config_config s,
    launch_editor_state s,
    launch_editor_state (save_config env.write s).1,
  )

  -- No command removes the default profile.
  pub run_profile-HasDefault :
      (c : ProfileCommand) (s : Session)
      → HasDefault s.config
      → HasDefault (run_profile env path c s).1.config
  unfolding run_profile list_profiles run_use run_create run_delete run_edit
  run_profile-HasDefault list s h = h
  run_profile-HasDefault (use_profile name) s h = ground (
    arith,
    save_config_config (record s { config = record (s.config) { active_profile = name } }),
  )
  run_profile-HasDefault (create name) s h = ground (
    arith,
    save_config_config (record s {
      config = record (s.config) { profiles = insert name empty_profile s.config.profiles };
    }),
    get-insert name default_profile_name empty_profile s.config.profiles,
  )
  run_profile-HasDefault (delete name) s h = ground (
    arith,
    save_config_config
        (record s { config = record (s.config) { profiles = remove name s.config.profiles } }),
    get-remove name default_profile_name s.config.profiles,
  )
  run_profile-HasDefault edit s h = ground (
    arith,
    save_config_config s,
    launch_editor_state s,
    launch_editor_state (save_config env.write s).1,
  )
