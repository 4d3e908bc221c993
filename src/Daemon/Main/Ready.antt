-- ===== src/Daemon/Main/Ready.antt =====
-- What holds when `main` of daemon/src/main.rs serves, and what `config validate` tells of it.
use brewmble.Prelude.{
  ◌⊎◌, Option-cases, subst, Option, Result, Text, ok, err, some, none, suc, zero, ℕ, ◌-◌,
  ok-injective, Result-cases, inl, inr, is_ok, ◌≡◌, arith,
}
use brewmble.Daemon.Config.{resolve_config_path, DaemonConfig, ensure_valid_config}
use brewmble.Daemon.Config.Files.{Disk}
use brewmble.Daemon.Commands.{load_config, loaded, run_config_validate}
use brewmble.Daemon.Startup.{http_port, search_port, chosen_hostname, default_port, max_port}
use brewmble.Daemon.Tls.{load_tls_config}
use brewmble.Daemon.Announce.{service_info, register_mdns}
use brewmble.Daemon.Main.{
  announce, Site, Service, server_bind_ip, checked_config, serve_on, start_service,
}

module _ (bind : ℕ → Result Text (Unit {0})) where
  search_port-binds :
      (fuel port found : ℕ) → search_port bind fuel port ≡ some (ok found) → bind found ≡ ok tt
  unfolding search_port
  search_port-binds zero port found h = absurd (ground arith)
  search_port-binds (suc fuel) port found h = grind (arith, search_port-binds fuel (suc port) found)

  http_port-binds :
      (configured : Option ℕ) (found : ℕ)
      → http_port bind configured ≡ some (ok found)
      → bind found ≡ ok tt
  unfolding http_port
  http_port-binds (some port) found h = ground arith
  http_port-binds none found h =
      search_port-binds (suc max_port - default_port) default_port found h

-- The service stands on a configuration that was found, read and valid, a port that could be bound,
-- and a TLS configuration that was loaded; what is announced carries that port and the hostname
-- without dots at its end.
pub record IsReady (site : Site) (path : Option Text) (d : Disk) (service : Service) : Type 0 where
  pub config_path : Text
  pub config : DaemonConfig
  pub resolved :
      resolve_config_path (site.console.host d).exists site.console.home path ≡ ok config_path
  pub loaded_from :
      load_config (site.console.host d).read site.console.from_yaml config_path ≡ ok config
  pub valid : ensure_valid_config (site.console.host d) config ≡ ok tt
  pub bound : site.bind service.bind_ip service.port ≡ ok tt
  pub tls :
      load_tls_config site.tls config.tls.ca_cert config.tls.cert config.tls.key ≡ ok service.tls
  pub announced :
      (service.announced ≡ none)
      ⊎ (service.announced
          ≡ some (
              service_info service.port
                (chosen_hostname config.server.hostname site.hostname)
                config.server.ip))

module _ (site : Site) where
  checked_config-ok :
      (path : Option Text) (d : Disk) (config : DaemonConfig)
      → checked_config site path d ≡ ok config
      → (config_path : Text) × (resolve_config_path
            (site.console.host d).exists
            site.console.home
            path
          ≡ ok config_path)
        × (load_config (site.console.host d).read site.console.from_yaml config_path ≡ ok config)
        × (ensure_valid_config (site.console.host d) config ≡ ok tt)
  unfolding checked_config
  checked_config-ok path d config h =
      elim (Result-cases
        (resolve_config_path (site.console.host d).exists site.console.home path)) [
          | inr (x, e) ↦ absurd (ground arith)
          | inl (config_path, e) ↦
              elim (Result-cases
                (load_config (site.console.host d).read site.console.from_yaml config_path)) [
                  | inr (x, f) ↦ absurd (ground arith)
                  | inl (c, f) ↦ (config_path, e, ground arith, ground arith)
                ]
        ]

  announce-info :
      (config : DaemonConfig) (port : ℕ) (hostname : Text)
      → (announce site config port hostname ≡ none)
        ⊎ (announce site config port hostname ≡ some (service_info port hostname config.server.ip))
  unfolding register_mdns
  announce-info config port hostname = ground arith

  serve_on-IsReady :
      (path : Option Text) (d : Disk) (config : DaemonConfig) (found : Result Text ℕ)
      (service : Service)
      → checked_config site path d ≡ ok config
      → http_port (site.bind (server_bind_ip config)) config.server.port ≡ some found
      → serve_on site config found ≡ ok service
      → IsReady site path d service
  unfolding serve_on
  serve_on-IsReady path d config (err e) service c b h = absurd (ground arith)
  serve_on-IsReady path d config (ok port) service c b h =
      let origin = checked_config-ok path d config c in
      elim (Result-cases
        (load_tls_config site.tls config.tls.ca_cert config.tls.cert config.tls.key)) [
          | inr (x, e) ↦ absurd (ground arith)
          | inl (tls, e) ↦ subst (IsReady site path d) (ok-injective (rw e at h)) (record {
            config_path = origin.0;
            config = config;
            resolved = origin.1;
            loaded_from = origin.2;
            valid = origin.3;
            bound = http_port-binds (site.bind (server_bind_ip config)) config.server.port port b;
            tls = e;
            announced =
                announce-info config port (chosen_hostname config.server.hostname site.hostname);
          })
        ]

  -- If the daemon serves, then its configuration was found, read and valid, the port could be bound
  -- at its address, the TLS configuration was loaded from the configured files, and what it
  -- announces, if it announces anything, is its port and its hostname without dots at the end.
  pub start_service-IsReady :
      (path : Option Text) (d : Disk) (service : Service)
      → start_service site path d ≡ some (ok service)
      → IsReady site path d service
  unfolding start_service
  start_service-IsReady path d service h = elim (Result-cases (checked_config site path d)) [
    | inr (x, c) ↦ absurd (ground arith)
    | inl (config, c) ↦
        elim (Option-cases (http_port (site.bind (server_bind_ip config)) config.server.port)) [
          | inl b ↦ absurd (ground arith)
          | inr (found, b) ↦ serve_on-IsReady path d config found service c b (ground arith)
        ]
  ]

  -- `config validate` succeeds exactly if the daemon, started with the same path on the same disk,
  -- accepts its configuration.
  pub validate_as_started :
      (path : Option Text) (d : Disk)
      → is_ok (run_config_validate site.console path d).1 ≡ is_ok (checked_config site path d)
  unfolding run_config_validate loaded checked_config ensure_valid_config
  validate_as_started path d = ground arith
