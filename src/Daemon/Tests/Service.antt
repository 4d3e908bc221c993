-- ===== src/Daemon/Tests/Service.antt =====
-- The start of the daemon, and the end of an upgrade, at concrete inputs.
use brewmble.Prelude.{[], decimal, false, is_ok, lit, none, ok, refl, some, true, ◌∷◌, ◌≡◌}
use brewmble.Daemon.World.{Machine}
use brewmble.Daemon.Manager.{PackageManager}
use brewmble.Daemon.Apt.{manager, new}
use brewmble.Daemon.Handlers.{AppState, claim}
use brewmble.Rest.{UpgradeRequest}
use brewmble.Daemon.Upgrade.{System, initial, Reach, claim_won, here, next}
use brewmble.Daemon.Upgrade.Released.{Ends, IsIdle, upgrade_released}
use brewmble.Daemon.Config.{
  search_paths, DaemonConfig, Leaf, Host, ensure_valid_config, resolve_config_path, check_port,
  certificate_error, key_error, warn_mode, check_tls, check_dates, check_usage, check_leaf,
  validate_config,
}
use brewmble.Daemon.Config.Files
use brewmble.Daemon.Commands.{Console, load_config, run_config_validate}
use brewmble.Daemon.Startup.{http_port}
use brewmble.Daemon.Tls
use brewmble.Daemon.Tls.{
  TlsLibrary, load_tls_config, load_parts, load_root, load_chain, load_key, server_config,
}
use brewmble.Daemon.Announce.{Mdns}
use brewmble.Daemon.Main.{Site, served, checked_config, serve_on, start_service}
use brewmble.Daemon.Main.Ready.{IsReady, start_service-IsReady, validate_as_started}

abbrev well : Machine
well = record {
  answer = λ w c. ok (record { success = true; status = []; stdout = []; stderr = [] });
  duration = λ w c. 5;
}

abbrev apt : PackageManager
apt = manager well

abbrev app : AppState
app = record {
  allow_reboot = true;
  auto_clean = true;
  auto_remove = true;
  pm_available = true;
  pm_version = lit "apt 2.6.1";
  daemon_version = lit "0.1.0";
}

abbrev booted : apt.State
booted = (new true true 360, record { log = []; clock = 0 })

-- A request has won the exchange, and has not yet started its task.
abbrev pending : System apt
pending = record {
  node = (claim apt (initial apt booted).node).1;
  claimed = 1;
  unstored = [];
  rebooted = 0;
}

reached : Reach apt app (initial apt booted) pending
unfolding claim
reached = next here (claim_won refl refl)

abbrev upgrade_now : UpgradeRequest
upgrade_now = record { dry_run = false }

upgrade_released_example : (t : System apt) × Ends apt app pending t × IsIdle apt app pending t
upgrade_released_example = upgrade_released apt app booted pending reached

abbrev leaf : Leaf
leaf = record { not_before = 0; not_after = 31_536_000; server_auth = true }

abbrev host : Host
host = record {
  exists = λ p. true;
  read = λ p. ok p;
  certificates = λ pem. ok 1;
  private_key = λ pem. ok true;
  mode = λ p. some 384;
  load_tls_config = λ tls. ok tt;
  parse_leaf = λ pem. some leaf;
  now = 1000;
  display_time = decimal;
}

abbrev config : DaemonConfig
config = record {
  server = record {
    port = some 4712;
    hostname = some (lit "node1.lan.");
    ip = none;
    bind_address = none;
    mdns = true;
  };
  tls = record { ca_cert = lit "ca.pem"; cert = lit "daemon.pem"; key = lit "key.pem" };
  features = record { allow_reboot = false; auto_clean = false; auto_remove = false };
  package_manager = record { update_interval_mins = 360 };
}

abbrev system : Files.System
system = record {
  create_dir_all = λ p. ok tt;
  open_file = λ p. ok tt;
  partial = λ s. [];
  write_all = λ s. ok tt;
  sync_all = λ s. ok tt;
  rename = λ a b. ok tt;
}

abbrev console : Console
console = record {
  host = λ d. host;
  system = system;
  with_extension_tmp = λ p. p;
  parent = λ p. none;
  from_yaml = λ t. ok config;
  to_yaml = λ c. ok [];
  home = none;
  editor = none;
  launch = λ program args d. (ok (true, []), d);
}

abbrev tls : TlsLibrary
tls = record {
  read = λ p. ok p;
  certificates = λ pem. ok (pem ∷ []);
  private_key = λ pem. ok (some pem);
  add_root = λ c. ok tt;
  build_verifier = λ roots. ok tt;
  with_single_cert = λ chain key. ok tt;
}

abbrev mdns : Mdns
mdns = record { start = ok tt; new_service = λ info. ok tt; register = λ info. ok tt }

abbrev site : Site
site = record {
  console = console;
  bind = λ ip port. ok tt;
  hostname = lit "localhost";
  tls = tls;
  mdns = mdns;
  pm_available = true;
  pm_version = lit "apt 2.6.1";
  daemon_version = lit "0.1.0";
}

abbrev loaded_tls : Tls.ServerConfig
loaded_tls = server_config (lit "ca.pem") (lit "daemon.pem" ∷ []) (lit "key.pem")

serves : start_service site none [] ≡ some (ok (served site config 4712 loaded_tls))
unfolding start_service checked_config serve_on search_paths resolve_config_path load_config
    ensure_valid_config validate_config check_port certificate_error key_error warn_mode check_tls
    check_dates check_usage check_leaf http_port load_tls_config load_parts load_root load_chain
    load_key
serves = refl

start_service-IsReady_example : IsReady site none [] (served site config 4712 loaded_tls)
start_service-IsReady_example =
    start_service-IsReady site none [] (served site config 4712 loaded_tls) serves

validate_as_started_example :
    is_ok (run_config_validate site.console none []).1 ≡ is_ok (checked_config site none [])
validate_as_started_example = validate_as_started site none []
