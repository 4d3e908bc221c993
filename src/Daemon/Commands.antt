-- ===== src/Daemon/Commands.antt =====
-- The `config` commands of daemon/src/main.rs, and `load_config` of daemon/src/config.rs. What a
-- command prints is its result. The YAML reader and writer and the editor are parameters; the disk
-- is that of Daemon/Config/Files, and what the checks ask of the machine may depend on it.
use brewmble.Prelude.{
  Bool, List, Option, Result, Text, [], err, false, if◌then◌else◌, lit, none, not, ok, some,
  split_whitespace, ◌++◌, ◌>>=◌, ◌∷◌, map, true,
}
use brewmble.Prelude.Exec.{Exec, ◌>>◌, pure}
use brewmble.Daemon.Config.{
  DaemonConfig, Host, ValidationReport, ConfigError, io, parse, display_error, default_config_path,
  resolve_config_path, validate_config, is_valid,
}
use brewmble.Daemon.Config.Files.{Disk, System, init_config_file}

pub data ConfigCommands : Type 0 where
  init : Bool → ConfigCommands
  show : ConfigCommands
  edit : ConfigCommands
  validate : ConfigCommands

abbrev read_yaml :
    (Text → Result Text DaemonConfig) → Result Text Text → Result ConfigError DaemonConfig
read_yaml from_yaml (err e) = err (io e)
read_yaml from_yaml (ok content) = elim (from_yaml content) [ ok c ↦ ok c | err e ↦ err (parse e) ]

-- `load_config`.
unfoldable pub load_config :
    (Text → Result Text Text)
    → (Text → Result Text DaemonConfig)
    → Text
    → Result ConfigError DaemonConfig
load_config read from_yaml path = read_yaml from_yaml (read path)

-- The machine that the commands run on.
pub record Console : Type 0 where
  pub host : Disk → Host
  pub system : System
  pub with_extension_tmp : Text → Text
  pub parent : Text → Option Text
  pub from_yaml : Text → Result Text DaemonConfig
  pub to_yaml : DaemonConfig → Result Text Text
  pub home : Option Text
  pub editor : Option Text
  pub launch : Text → List Text → Disk → Result Text (Bool × Text) × Disk

module _ (console : Console) where
  abbrev display : {A : Type 0} → Result ConfigError A → Result Text A
  display (ok a) = ok a
  display (err e) = err (display_error e)

  abbrev resolved : Option Text → Disk → Result ConfigError Text
  resolved path d = resolve_config_path (console.host d).exists console.home path

  -- The configuration at the path that is given or found, and that path.
  unfoldable pub loaded : Option Text → Disk → Result Text (Text × DaemonConfig)
  loaded path d = do
    config_path ← display (resolved path d)
    config ← display (load_config (console.host d).read console.from_yaml config_path)
    ok (config_path, config)

  abbrev path_or : Text → Option Text → Text
  path_or default none = default
  path_or default (some path) = path

  unfoldable pub run_config_init : Option Text → Bool → Exec Disk (List Text)
  run_config_init path force =
      let target = path_or (default_config_path console.home) path in
      init_config_file console.system console.with_extension_tmp console.parent target force
      >> pure ((lit "Configuration template written to " ++ target) ∷ [])

  abbrev printed_yaml : Result Text (Text × DaemonConfig) → Result Text (List Text)
  printed_yaml r = do (path, config) ← r; yaml ← console.to_yaml config; ok (yaml ∷ [])

  unfoldable pub run_config_show : Option Text → Exec Disk (List Text)
  run_config_show path d = (printed_yaml (loaded path d), d)

  abbrev edited_path : Option Text → Disk → Text
  edited_path (some path) d = path
  edited_path none d = elim (resolved none d) [
    | ok path ↦ path
    | err e ↦ default_config_path console.home
  ]

  abbrev program_of : List Text → Text × List Text
  program_of [] = (lit "vi", [])
  program_of (program ∷ args) = (program, args)

  abbrev editor_or : Option Text → Text
  editor_or none = lit "vi"
  editor_or (some editor) = editor

  abbrev after_editor : Text → Result Text (Bool × Text) × Disk → Result Text (List Text) × Disk
  after_editor program (err e, d) =
      (err (lit "Failed to launch editor '" ++ (program ++ (lit "': " ++ e))), d)
  after_editor program (ok (true, status), d) = (ok [], d)
  after_editor program (ok (false, status), d) =
      (err (lit "Editor '" ++ (program ++ (lit "' exited with status: " ++ status))), d)

  unfoldable pub run_editor : Text → Exec Disk (List Text)
  run_editor target d =
      let (program, args) = program_of (split_whitespace (editor_or console.editor)) in
      after_editor program (console.launch program (args ++ (target ∷ [])) d)

  -- A file that is not there is made from the template first.
  unfoldable pub run_config_edit : Option Text → Exec Disk (List Text)
  unfolding run_editor
  run_config_edit path d =
      let target = edited_path path d in
      if (console.host d).exists target
      then run_editor target d
      else (init_config_file console.system console.with_extension_tmp console.parent target false
            >> run_editor target)
          d

  abbrev line_of : Text → Text → Text
  line_of kind text = kind ++ (lit ": " ++ text)

  -- The warnings are printed first, and the errors after them.
  abbrev report_lines : ValidationReport → List Text
  report_lines report =
      map (line_of (lit "Warning")) report.warnings ++ map (line_of (lit "Error")) report.errors

  -- What is printed, and how the command ends.
  abbrev validated : Host → Result Text (Text × DaemonConfig) → List Text × Result Text (List Text)
  validated host (err e) = ([], err e)
  validated host (ok (path, config)) =
      let report = validate_config host config in
      (
        report_lines report,
        if not (is_valid report)
            then err (lit "Configuration validation failed")
            else ok ((lit "Configuration at '" ++ (path ++ lit "' is valid.")) ∷ []),
      )

  unfoldable pub run_config_validate : Option Text → Disk → List Text × Result Text (List Text)
  unfolding loaded
  run_config_validate path d = validated (console.host d) (loaded path d)

  unfoldable pub run_config : ConfigCommands → Option Text → Exec Disk (List Text)
  unfolding run_config_init run_config_show run_config_edit run_config_validate
  run_config (init force) path d = run_config_init path force d
  run_config show path d = run_config_show path d
  run_config edit path d = run_config_edit path d
  run_config validate path d = ((run_config_validate path d).1, d)
