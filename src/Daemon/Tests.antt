-- ===== src/Daemon/Tests.antt =====
-- The daemon at concrete inputs: a machine on which every command ends well after five
-- nanoseconds, and one on which every command fails.
mod Service
mod Ending
mod Installing
use brewmble.Prelude.{
  Bool, List, [], arith, false, is_whitespace, lit, map, none, ok, refl, some, strip_prefix, true,
  unlines, ◌*◌, ◌+◌, ◌<◌, ◌↔◌, ◌∷◌, ◌≡◌, Result, Text, decimal, err, if◌then◌else◌, ℕ, ◌==◌,
}
use brewmble.Rest.{UpgradeRequest, RebootRequest}
use brewmble.Daemon.World.{Output, World, Machine}
use brewmble.Daemon.Manager.{PackageManager, should_update, ttl_secs}
use brewmble.Daemon.Apt.{Apt, parse_updates, manager, get_updates}
use brewmble.Daemon.Apt.Commands.{update_command, simulate_command}
use brewmble.Daemon.Apt.Caching.{wait, get_updates_twice}
use brewmble.Daemon.Apt.Parsing.{Line, alone, inst, other, render, parse_updates-render}
use brewmble.Daemon.Brew
use brewmble.Daemon.Config.{DaemonConfig, Leaf, Host, ensure_valid_config}
use brewmble.Daemon.Config.Files
use brewmble.Daemon.Config.Validity.{IsServable, ensure_valid_config_iff}
use brewmble.Daemon.Handlers.{AppState, Node, start, claim, spawn_upgrade}
use brewmble.Daemon.Startup.{default_port, http_port}
use brewmble.Daemon.Startup.Port.{IsFound, http_port-IsFound}
use brewmble.Daemon.Upgrade.{Step, System, initial, Reach, claim_won, spawn, here, next}
use brewmble.Daemon.Upgrade.Exclusion.{IsExclusive, Reach-IsExclusive}
use brewmble.Daemon.Upgrade.Races.{reboot_during_upgrade}

abbrev ending : Bool → Output
ending success = record { success = success; status = lit "exit status"; stdout = []; stderr = [] }

abbrev well : Machine
well = record { answer = λ w c. ok (ending true); duration = λ w c. 5 }

abbrev ill : Machine
ill = record { answer = λ w c. ok (ending false); duration = λ w c. 5 }

abbrev booted : World
booted = record { log = []; clock = 100 }

abbrev fresh_apt : Apt
fresh_apt = record {
  auto_clean = true;
  auto_remove = true;
  last_update = none;
  cache_ttl = ttl_secs 360;
}

abbrev fresh_brew : Brew.Brew
fresh_brew = record {
  auto_clean = true;
  auto_remove = true;
  last_update = none;
  cache_ttl = ttl_secs 360;
}

abbrev apt_manager : PackageManager
apt_manager = manager well

abbrev app : AppState
app = record {
  allow_reboot = true;
  auto_clean = true;
  auto_remove = true;
  pm_available = true;
  pm_version = lit "apt 2.6.1";
  daemon_version = lit "0.1.0";
}

abbrev idle : Node apt_manager
idle = start apt_manager (fresh_apt, booted)

abbrev busy : Node apt_manager
busy = record idle { is_upgrading = true; upgrade_handle = some 0; tasks = 0 ∷ []; next_task = 1 }

abbrev upgrade_now : UpgradeRequest
upgrade_now = record { dry_run = false }

abbrev reboot_later : RebootRequest
reboot_later = record { delay_secs = some 5 }

-- A request that has started its task and not stored its handle.
abbrev upgrading : System apt_manager
upgrading = record {
  node = record busy { upgrade_handle = none };
  claimed = 0;
  unstored = 0 ∷ [];
  rebooted = 0;
}

started : Reach apt_manager app (initial apt_manager (fresh_apt, booted)) upgrading
unfolding claim spawn_upgrade
started = next (next here (claim_won refl refl)) (spawn 0 refl)

Reach-IsExclusive_example : IsExclusive upgrading
Reach-IsExclusive_example = Reach-IsExclusive apt_manager app (fresh_apt, booted) started

reboot_during_upgrade_example :
    (s t : System apt_manager) × Reach apt_manager app (initial apt_manager (fresh_apt, booted)) s
    × Step apt_manager app s t
    × (s.node.tasks ≡ 0 ∷ [])
    × (s.node.is_upgrading ≡ true)
    × (s.rebooted ≡ 0)
    × (t.node.tasks ≡ 0 ∷ [])
    × (t.rebooted ≡ 1)
reboot_during_upgrade_example =
    reboot_during_upgrade apt_manager app (fresh_apt, booted) refl refl (some 5)

always_due : should_update none (ttl_secs 360) 100 ≡ true
unfolding should_update
always_due = refl

in_time : 5 + 7 < ttl_secs 360 * 1_000_000_000
unfolding ttl_secs
in_time = omega arith

get_updates_twice_example :
    (get_updates well (wait 7 (get_updates well (fresh_apt, booted)).1)).1.1.log
    ≡ simulate_command ∷ simulate_command ∷ update_command ∷ []
get_updates_twice_example = get_updates_twice well fresh_apt booted 7 always_due refl in_time

not_well : false ≡ true → ⊥
not_well h = ground arith

abbrev simulated : List Line
simulated =
    other (lit "Reading package lists...")
    ∷ inst (lit "curl") (lit "[7.8] (7.9 Debian)")
    ∷ alone (lit "vim")
    ∷ []

parse_updates-render_example :
    parse_updates (unlines (map render simulated)) ≡ lit "curl" ∷ lit "vim" ∷ []
unfolding lit strip_prefix is_whitespace
parse_updates-render_example = parse_updates-render simulated (
  (refl, ground arith),
  ((refl, ground arith, ground arith), ((refl, ground arith, ground arith), tt)),
)

-- Port 4712 is taken, and every other port is free.
abbrev taken : ℕ → Result Text (Unit {0})
taken port = if port == default_port then err (lit "address in use") else ok tt

http_port-IsFound_example :
    (r : Result Text ℕ) × (http_port taken none ≡ some r) × IsFound taken default_port r
http_port-IsFound_example = http_port-IsFound taken

-- All files are there; the certificate is for servers and expires in a year.
abbrev leaf : Leaf
leaf = record { not_before = 0; not_after = 31_536_000; server_auth = true }

abbrev host : Host
host = record {
  exists = λ p. true;
  read = λ p. ok p;
  certificates = λ pem. ok 1;
  private_key = λ pem. ok true;
  mode = λ p. some 384;
  load_tls_config = λ tls. ok tt;
  parse_leaf = λ pem. some leaf;
  now = 1000;
  display_time = decimal;
}

abbrev config : DaemonConfig
config = record {
  server = record {
    port = some 4712;
    hostname = none;
    ip = none;
    bind_address = none;
    mdns = true;
  };
  tls = record {
    ca_cert = lit "/etc/brewmble/tls/ca.pem";
    cert = lit "/etc/brewmble/tls/daemon.pem";
    key = lit "/etc/brewmble/tls/daemon-key.pem";
  };
  features = record { allow_reboot = false; auto_clean = false; auto_remove = false };
  package_manager = record { update_interval_mins = 360 };
}

ensure_valid_config_iff_example : ensure_valid_config host config ≡ ok tt ↔ IsServable host config
ensure_valid_config_iff_example = ensure_valid_config_iff host config
