-- ===== src/Daemon/Main.antt =====
-- `main` of daemon/src/main.rs, from the command line to the server: what it checks, in its order,
-- and what it serves. Log lines are left out; the operations of the system and of the libraries,
-- and the package manager that was chosen, are parameters.
pub mod Ready
pub mod Initialised
use brewmble.Prelude.{
  Bool, List, Option, Result, Text, [], err, if◌then◌else◌, lit, none, ok, some, ℕ, ◌++◌, ◌>>=◌,
  ◌∷◌,
}
use brewmble.Daemon.Config.{
  DaemonConfig, ConfigError, ServerConfig, display_error, ensure_valid_config, resolve_config_path,
}
use brewmble.Daemon.Config.Files.{Disk}
use brewmble.Daemon.Commands.{Console, ConfigCommands, load_config, run_config}
use brewmble.Daemon.Startup.{http_port, chosen_hostname}
use brewmble.Daemon.Tls
use brewmble.Daemon.Tls.{TlsLibrary, load_tls_config}
use brewmble.Daemon.Announce.{Mdns, ServiceInfo, register_mdns}
use brewmble.Daemon.Handlers.{AppState}

-- `server_bind_ip`: an address is its text.
unfoldable pub server_bind_ip : DaemonConfig → Text
server_bind_ip config = elim config.server.bind_address [ none ↦ lit "0.0.0.0" | some ip ↦ ip ]

-- The command line: the configuration's path, whether the version is asked for, and a command.
pub record Arguments : Type 0 where
  pub config : Option Text
  pub version : Bool
  pub command : Option ConfigCommands

-- What `main` asks of the system: whether an address and a port can be bound, its hostname, and the
-- package manager that was chosen.
pub record Site : Type 0 where
  pub console : Console
  pub bind : Text → ℕ → Result Text (Unit {0})
  pub hostname : Text
  pub tls : TlsLibrary
  pub mdns : Mdns
  pub pm_available : Bool
  pub pm_version : Text
  pub daemon_version : Text

-- What the server runs with.
pub record Service : Type 0 where
  pub bind_ip : Text
  pub port : ℕ
  pub tls : Tls.ServerConfig
  pub announced : Option ServiceInfo
  pub app : AppState

-- How the process ends before it serves: it exits with code 1, or `main` returns an error.
pub data Stop : Type 0 where
  exits : Text → Stop
  returns : Text → Stop

module _ (site : Site) where
  abbrev pub exit_on : {A : Type 0} → Result ConfigError A → Result Stop A
  exit_on (ok a) = ok a
  exit_on (err e) = err (exits (display_error e))

  abbrev load_error : Text → ConfigError → Text
  load_error path e =
      lit "failed to load configuration from '" ++ (path ++ (lit "': " ++ display_error e))

  abbrev exit_on_load : Text → Result ConfigError DaemonConfig → Result Stop DaemonConfig
  exit_on_load path (ok c) = ok c
  exit_on_load path (err e) = err (exits (load_error path e))

  -- The configuration: found, read and valid.
  unfoldable pub checked_config : Option Text → Disk → Result Stop DaemonConfig
  checked_config path d = do
    config_path ← exit_on (resolve_config_path (site.console.host d).exists site.console.home path)
    config ←
        exit_on_load config_path
          (load_config (site.console.host d).read site.console.from_yaml config_path)
    _ ← exit_on (ensure_valid_config (site.console.host d) config)
    ok config

  abbrev pub announce : DaemonConfig → ℕ → Text → Option ServiceInfo
  announce config port hostname =
      if config.server.mdns then register_mdns site.mdns port hostname config.server.ip else none

  abbrev app_state : DaemonConfig → AppState
  app_state config = record {
    allow_reboot = config.features.allow_reboot;
    auto_clean = config.features.auto_clean;
    auto_remove = config.features.auto_remove;
    pm_available = site.pm_available;
    pm_version = site.pm_version;
    daemon_version = site.daemon_version;
  }

  abbrev returned : {A : Type 0} → Result Text A → Result Stop A
  returned (ok a) = ok a
  returned (err e) = err (returns e)

  abbrev pub served : DaemonConfig → ℕ → Tls.ServerConfig → Service
  served config port tls = record {
    bind_ip = server_bind_ip config;
    port = port;
    tls = tls;
    announced = announce config port (chosen_hostname config.server.hostname site.hostname);
    app = app_state config;
  }

  -- The steps after the port was found.
  unfoldable pub serve_on : DaemonConfig → Result Text ℕ → Result Stop Service
  serve_on config found = do
    port ← returned found
    tls ← returned (load_tls_config site.tls config.tls.ca_cert config.tls.cert config.tls.key)
    ok (served config port tls)

  abbrev with_port : DaemonConfig → Option (Result Text ℕ) → Option (Result Stop Service)
  with_port config none = none
  with_port config (some found) = some (serve_on config found)

  abbrev with_config : Result Stop DaemonConfig → Option (Result Stop Service)
  with_config (err e) = some (err e)
  with_config (ok config) =
      with_port config (http_port (site.bind (server_bind_ip config)) config.server.port)

  -- `none` only if the search for a port ran out of fuel.
  unfoldable pub start_service : Option Text → Disk → Option (Result Stop Service)
  unfolding serve_on checked_config
  start_service path d = with_config (checked_config path d)

  -- The process: it prints its version, runs a command on the configuration, or starts the service.
  pub data Process : Type 0 where
    printed : List Text → Process
    configured : Result Text (List Text) × Disk → Process
    started : Option (Result Stop Service) → Process

  abbrev run_command : Option ConfigCommands → Option Text → Disk → Process
  run_command (some command) path d = configured (run_config site.console command path d)
  run_command none path d = started (start_service path d)

  unfoldable pub main : Arguments → Disk → Process
  unfolding start_service
  main arguments d =
      if arguments.version
      then printed ((lit "brewmbled " ++ site.daemon_version) ∷ [])
      else run_command arguments.command arguments.config d
