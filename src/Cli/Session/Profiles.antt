-- ===== src/Cli/Session/Profiles.antt =====
-- `run_profile` of cli/src/main.rs keeps what a stored configuration is.
use brewmble.Prelude.{Bool-cases, Text, false, inl, inr, true, ◌≡◌, arith, eq_text, not, subst, sym}
use brewmble.Prelude.Dict.{
  insert, remove, contains_key, get-insert, get-remove, Values-insert, Values-remove,
}
use brewmble.Prelude.Exec.{Keeps, >>=-Keeps, if_keeps}
use brewmble.Cli.Config.{Config, default_profile_name, empty_profile}
use brewmble.Cli.Config.Loading.{HasCleanNames}
use brewmble.Cli.Config.Stored.{IsStored}
use brewmble.Cli.Profile.{
  ProfileCommand, list, use_profile, create, delete, edit, Environment, list_profiles, run_use,
  run_create, run_delete, launch_editor, run_edit, run_profile,
}
use brewmble.Cli.Profile.Invariants.{launch_editor_state}
use brewmble.Cli.Session.{save_config}
use brewmble.Cli.Session.Keeping.{IsKept, with_config-IsKept, save_config-Keeps, saved_keeps}

-- Another profile that is there becomes the active one.
use-IsStored :
    (c : Config) (name : Text)
    → IsStored c
    → contains_key name c.profiles ≡ true
    → IsStored (record c { active_profile = name })
use-IsStored c name h e = record { active = e; migrated = h.migrated; clean = h.clean }

create-IsStored :
    (c : Config) (name : Text)
    → IsStored c
    → IsStored (record c { profiles = insert name empty_profile c.profiles })
create-IsStored c name h = record {
  active = ground (arith, h.active, get-insert name c.active_profile empty_profile c.profiles);
  migrated = h.migrated;
  clean = Values-insert HasCleanNames name empty_profile c.profiles tt h.clean;
}

-- A profile that is not the active one goes.
remove-IsStored :
    (c : Config) (name : Text)
    → IsStored c
    → eq_text name c.active_profile ≡ false
    → IsStored (record c { profiles = remove name c.profiles })
remove-IsStored c name h e = record {
  active = ground (arith, h.active, get-remove name c.active_profile c.profiles);
  migrated = h.migrated;
  clean = Values-remove HasCleanNames name c.profiles h.clean;
}

module _ (env : Environment) (path : Text) where
  run_use-Keeps : (name : Text) → Keeps IsKept (run_use env path name)
  unfolding run_use
  run_use-Keeps name s h = elim (Bool-cases (contains_key name s.config.profiles)) [
    | inl e ↦ rw e (
        saved_keeps env.write _ _
          (with_config-IsKept s _ h (use-IsStored s.config name h.config e)))
    | inr e ↦ rw e h
  ]

  run_create-Keeps : (name : Text) → Keeps IsKept (run_create env path name)
  unfolding run_create
  run_create-Keeps name s h = if_keeps IsKept (contains_key name s.config.profiles) _ _ h (
      saved_keeps env.write _ _ (with_config-IsKept s _ h (create-IsStored s.config name h.config)))

  run_delete-Keeps : (name : Text) → Keeps IsKept (run_delete env path name)
  unfolding run_delete
  run_delete-Keeps name s h =
      if_keeps IsKept (eq_text name default_profile_name) _ _ h
        (elim (Bool-cases (eq_text name s.config.active_profile)) [
          | inl e ↦ rw e h
          | inr e ↦ rw e (
              if_keeps IsKept (contains_key name s.config.profiles) _ _
                (saved_keeps env.write _ _
                  (with_config-IsKept s _ h (remove-IsStored s.config name h.config e)))
                h)
        ])

  launch_editor-Keeps : Keeps IsKept (launch_editor env path)
  launch_editor-Keeps s h = subst IsKept (sym (launch_editor_state env path s)) h

  run_edit-Keeps : Keeps IsKept (run_edit env path)
  unfolding run_edit
  run_edit-Keeps s h =
      if_keeps IsKept (not env.exists) _ _
        (>>=-Keeps IsKept (save_config env.write) (λ _. launch_editor env path)
          (save_config-Keeps env.write) (λ _. launch_editor-Keeps) s h)
        (launch_editor-Keeps s h)

  pub run_profile-Keeps : (c : ProfileCommand) → Keeps IsKept (run_profile env path c)
  unfolding run_profile list_profiles
  run_profile-Keeps list s h = h
  run_profile-Keeps (use_profile name) s h = run_use-Keeps name s h
  run_profile-Keeps (create name) s h = run_create-Keeps name s h
  run_profile-Keeps (delete name) s h = run_delete-Keeps name s h
  run_profile-Keeps edit s h = run_edit-Keeps s h
