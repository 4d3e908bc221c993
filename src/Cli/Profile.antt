-- ===== src/Cli/Profile.antt =====
-- `run_profile` of cli/src/main.rs. The result of a command is what it prints. The file, the
-- variable EDITOR and the editor are parameters.
pub mod Invariants
use brewmble.Prelude.{
  Bool, List, Option, Result, Text, [], eq_text, err, false, if◌then◌else◌, lit, none, not, ok,
  some, split_whitespace, true, ◌++◌, ◌∷◌,
}
use brewmble.Prelude.Dict.{Dict, insert, remove, contains_key}
use brewmble.Prelude.Exec.{Exec, ◌>>=◌, ◌>>◌, pure, fail, modify}
use brewmble.Cli.Config.{ProfileConfig, Config, default_profile_name, empty_profile}
use brewmble.Cli.Session.{Session, save_config}

pub data ProfileCommand : Type 0 where
  list : ProfileCommand
  use_profile : Text → ProfileCommand
  create : Text → ProfileCommand
  delete : Text → ProfileCommand
  edit : ProfileCommand

-- Whether the file exists, the outcome of a write, the variable, and the outcome of a program:
-- whether it succeeded, with its status.
pub record Environment : Type 0 where
  pub exists : Bool
  pub write : Config → Result Text (Unit {0})
  pub editor : Option Text
  pub launch : Text → List Text → Result Text (Bool × Text)

-- One line for each profile; the active one is marked.
abbrev pub profile_lines : Text → Dict ProfileConfig → List Text
profile_lines active [] = []
profile_lines active ((name, p) ∷ rest) =
    (if eq_text name active then lit "* " ++ name else lit "  " ++ name) ∷ profile_lines active rest

abbrev pub or_vi : Option Text → Text
or_vi none = lit "vi"
or_vi (some editor) = editor

-- The program and the extra arguments of the editor's command line.
abbrev pub editor_program : List Text → Text
editor_program [] = lit "vi"
editor_program (p ∷ ps) = p

abbrev pub editor_args : List Text → List Text
editor_args [] = []
editor_args (p ∷ ps) = ps

abbrev pub quoted : Text → Text → Text → Text
quoted before name after = before ++ (name ++ after)

module _ (env : Environment) (config_path : Text) where
  unfoldable pub list_profiles : Exec Session (List Text)
  list_profiles s = (ok (profile_lines s.config.active_profile s.config.profiles), s)

  unfoldable pub run_use : Text → Exec Session (List Text)
  run_use name s =
      if contains_key name s.config.profiles
      then (do
        modify (λ (t : Session). record t { config = record (t.config) { active_profile = name } })
        save_config env.write
        pure (quoted (lit "Switched to profile '") name (lit "'") ∷ []))
          s
      else fail (quoted (lit "Profile '") name (lit "' not found")) s

  unfoldable pub run_create : Text → Exec Session (List Text)
  run_create name s =
      if contains_key name s.config.profiles
      then fail (quoted (lit "Profile '") name (lit "' already exists")) s
      else (do
        modify (λ (t : Session). record t {
          config = record (t.config) { profiles = insert name empty_profile t.config.profiles };
        })
        save_config env.write
        pure (quoted (lit "Created profile '") name (lit "'") ∷ []))
          s

  unfoldable pub run_delete : Text → Exec Session (List Text)
  run_delete name s =
      if eq_text name default_profile_name
      then fail (lit "Cannot delete the default profile") s
      else if eq_text name s.config.active_profile
      then fail (lit "Cannot delete the active profile. Switch to another profile first.") s
      else if contains_key name s.config.profiles
      then (do
        modify (λ (t : Session). record t {
          config = record (t.config) { profiles = remove name t.config.profiles };
        })
        save_config env.write
        pure (quoted (lit "Deleted profile '") name (lit "'") ∷ []))
          s
      else fail (quoted (lit "Profile '") name (lit "' not found")) s

  unfoldable pub launch_editor : Exec Session (List Text)
  launch_editor s =
      let parts = split_whitespace (or_vi env.editor) in
      elim (env.launch (editor_program parts) (editor_args parts ++ (config_path ∷ []))) [
        | ok (true, status) ↦ pure [] s
        | ok (false, status) ↦ fail (lit "Editor exited with status: " ++ status) s
        | err e ↦ fail e s
      ]

  unfoldable pub run_edit : Exec Session (List Text)
  run_edit s =
      if not env.exists then (save_config env.write >> launch_editor) s else launch_editor s

  unfoldable pub run_profile : ProfileCommand → Exec Session (List Text)
  run_profile list = list_profiles
  run_profile (use_profile name) = run_use name
  run_profile (create name) = run_create name
  run_profile (delete name) = run_delete name
  run_profile edit = run_edit
