-- ===== src/Daemon/Main/Initialised.antt =====
-- A daemon that is started with the configuration that its command `config init` has written, after
-- daemon/src/main.rs and daemon/src/config.rs.
use brewmble.Prelude.{
  Bool, List, Result, Text, arith, err, eq_text, false, ok, refl, some, true, ◌≡◌, ◌↔◌, ◌>>=◌,
}
use brewmble.Prelude.Dict.{get}
use brewmble.Daemon.Config.{DaemonConfig, ConfigError, resolve_config_path, ensure_valid_config}
use brewmble.Daemon.Config.Validity.{IsServable, ensure_valid_config_iff}
use brewmble.Daemon.Config.Files.{Disk, init_config_file-get}
use brewmble.Daemon.Config.Template.{default_config_template, template_config}
use brewmble.Daemon.Commands.{load_config, run_config_init}
use brewmble.Daemon.Main.{Site, checked_config, exit_on}

module _ (site : Site) where
  -- The machine reads the files of the disk.
  abbrev pub ReadsDisk : Disk → Type 0
  ReadsDisk d =
      (path content : Text)
      → get path d ≡ some content
      → ((site.console.host d).exists path ≡ true) × ((site.console.host d).read path ≡ ok content)

  run_config_init-get :
      (path : Text) (force : Bool) (d : Disk) (printed : List Text)
      → eq_text (site.console.with_extension_tmp path) path ≡ false
      → (run_config_init site.console (some path) force d).0 ≡ ok printed
      → get path (run_config_init site.console (some path) force d).1 ≡ some default_config_template
  unfolding run_config_init
  run_config_init-get path force d printed tmp h =
      let w =
        init_config_file-get site.console.system site.console.with_extension_tmp site.console.parent
          path force d tmp in
      ground arith

  load_config-ok :
      (path content : Text) (config : DaemonConfig) (d : Disk)
      → (site.console.host d).read path ≡ ok content
      → site.console.from_yaml content ≡ ok config
      → load_config (site.console.host d).read site.console.from_yaml path ≡ ok config
  unfolding load_config
  load_config-ok path content config d h k = ground arith

  exit_on-ok :
      (config : DaemonConfig) (r : Result ConfigError (Unit {0}))
      → ((do _ ← exit_on site r; ok config) ≡ ok config) ↔ (r ≡ ok tt)
  exit_on-ok config (ok x) = (λ h. refl, λ h. refl)
  exit_on-ok config (err e) = (λ h. absurd (ground arith), λ h. absurd (ground arith))

  checked_config-read :
      (path content : Text) (config : DaemonConfig) (d : Disk)
      → ReadsDisk d
      → site.console.from_yaml content ≡ ok config
      → get path d ≡ some content
      → checked_config site (some path) d ≡ ok config
        ↔ ensure_valid_config (site.console.host d) config ≡ ok tt
  unfolding checked_config resolve_config_path
  checked_config-read path content config d reads yaml h =
      let (exists, readable) = reads path content h in
      rw (exists, load_config-ok path content config d readable yaml)
        (exit_on-ok config (ensure_valid_config (site.console.host d) config))

  -- If YAML reads the template as its values, the machine reads the files of the disk and the path
  -- is not the temporary file, then after a `config init` that succeeds the daemon that is started
  -- with the same path accepts the configuration exactly if the files that the template names can
  -- be served with.
  pub init_accepted :
      (path : Text) (force : Bool) (d : Disk) (printed : List Text)
      → eq_text (site.console.with_extension_tmp path) path ≡ false
      → site.console.from_yaml default_config_template ≡ ok template_config
      → (run_config_init site.console (some path) force d).0 ≡ ok printed
      → let d' = (run_config_init site.console (some path) force d).1 in
        ReadsDisk d'
        → (checked_config site (some path) d' ≡ ok template_config
            ↔ IsServable (site.console.host d') template_config)
  init_accepted path force d printed tmp yaml h reads =
      let d' = (run_config_init site.console (some path) force d).1 in
      let (f, g) =
        checked_config-read path default_config_template template_config d' reads yaml
          (run_config_init-get path force d printed tmp h) in
      let (p, q) = ensure_valid_config_iff (site.console.host d') template_config in
      (λ x. p (f x), λ y. g (q y))
