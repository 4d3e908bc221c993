-- ===== src/Cli/Program.antt =====
-- The program of cli/src as a whole: the commands of the other modules behind `main`. What the
-- system and the libraries do is one record. Nobody else writes the configuration's file while a
-- command runs, so that `run_discover` loads what `main` has loaded. A time is in nanoseconds.
pub mod Reloaded
use brewmble.Prelude.{
  ℕ, suc, List, Option, Result, Text, err, lit, none, ok, some, ◌*◌, Bool, all, lines,
}
use brewmble.Prelude.Exec.{Exec}
use brewmble.Cli.Config.{NodeConfig, Config, default_config, load_config, resolve_config_path}
use brewmble.Cli.Session.{Session}
use brewmble.Cli.Url.{AddressReader, resolve_url}
use brewmble.Cli.Pin.{PinOutcome, check_pin_with_fetcher}
use brewmble.Cli.Pin.Fetching.{PinLibrary, fetch_fingerprint}
use brewmble.Cli.Ca.{CredentialStore, LegacyStore, LeafKind}
use brewmble.Cli.Ca.Credentials.{ClientBuilder, build_client, fingerprint}
use brewmble.Cli.Authority.{run_ca}
use brewmble.Cli.Certificates.{Files, Machine, in_stores, run_cert}
use brewmble.Cli.Discover.{Round, discover_targets_with_timeout, run_discover}
use brewmble.Cli.Node.{Request, Answer, run_node, run_repin}
use brewmble.Cli.Profile
use brewmble.Cli.Profile.{run_profile}
use brewmble.Cli.Status.{Sent, query_status}
use brewmble.Cli.Status.Running.{run_status}
use brewmble.Cli.Timeout.{get_default_timeout}
use brewmble.Cli.Version
use brewmble.Cli.Version.{run_version}
use brewmble.Cli.Main.{Commands, Runs, Ended, main}

-- The configuration that the file holds, if it was written in this run, and the machine.
pub record Home (S : Type 0) : Type 0 where
  pub saved : Option Config
  pub machine : Machine S

pub record Platform (S : Type 0) : Type 0 where
  pub explicit_path : Option Text
  pub home_dir : Option Text
  pub exists : Text → Bool
  pub read : Text → Result Text Text
  pub from_yaml : Text → Result Text Config
  pub write : Config → Result Text (Unit {0})
  pub keychain : CredentialStore S
  pub legacy : LegacyStore S
  pub delete : Text → Exec S (Unit {0})
  pub new_ca : Result Text (Text × Text)
  pub new_leaf : Text → LeafKind → Text → Text → Result Text (Text × Text)
  pub certificates : Text → Result Text (List Text)
  pub sha256 : Text → List ℕ
  pub builder : ClientBuilder Text Text (Unit {0})
  pub files : Files
  pub hostname : Text
  pub pins : PinLibrary
  pub reader : AddressReader
  pub timed_out : Text
  pub get : Text → Sent
  pub post : ℕ → Text → Request → Answer
  pub resolver : Result Text (Unit {0})
  pub receive : ℕ → ℕ → Round
  pub disconnection : Text
  pub now : ℕ
  pub humantime : Text → Option ℕ
  pub timeout_variable : Option Text
  pub editor : Option Text
  pub launch : Text → List Text → Result Text (Bool × Text)
  pub own_version : Text
  pub help : List Text

module _ {S : Type 0} (platform : Platform S) where
  -- The path of the configuration, and whether it was set or found.
  unfoldable pub located : Text × Bool
  located = resolve_config_path platform.exists platform.explicit_path platform.home_dir

  abbrev pub loaded : Result Text Config
  loaded = load_config (platform.exists located.0) (platform.read located.0) platform.from_yaml

  -- `check_pin`, of a node at its own address.
  unfoldable pub check_pin : Machine S → NodeConfig → Result Text PinOutcome
  check_pin m node = check_pin_with_fetcher (resolve_url platform.reader) node node.address λ url.
      fetch_fingerprint platform.pins platform.sha256 platform.timed_out platform.keychain url
        m.stores

  abbrev client : Machine S → Result Text (Unit {0})
  client m = build_client platform.keychain platform.builder m.stores

  -- The configuration in memory is that of one run; what was written stays.
  abbrev pub in_session : {A : Type 0} → Config → Exec Session A → Exec (Home S) A
  in_session config act h =
      let (r, s) = act (record { config = config; saved = h.saved }) in
      (r, record h { saved = s.saved })

  abbrev pub in_machine : {A : Type 0} → Exec (Machine S) A → Exec (Home S) A
  in_machine act h = let (r, m) = act h.machine in (r, record h { machine = m })

  abbrev pub printing : {A : Type 0} → (A → List Text) → Exec (Home S) A → Exec (Home S) (List Text)
  printing lines act h = let (r, h') = act h in (elim r [ ok a ↦ ok (lines a) | err e ↦ err e ], h')

  -- The targets that the discovery of `run_status` sends, if it ends well.
  abbrev sent_targets : Option (Result Text (List (Text × Text)) × ℕ) → Option (List (Text × Text))
  sent_targets none = none
  sent_targets (some (ok targets, now)) = some targets
  sent_targets (some (err e, now)) = none

  abbrev found_targets : Option (List (Text × Text))
  found_targets =
      let timeout = get_default_timeout platform.humantime platform.timeout_variable in
      sent_targets (
        discover_targets_with_timeout platform.resolver platform.receive platform.disconnection
          (suc timeout) platform.now timeout)

  -- One round more than there is time is enough for the loop, if each round takes some time.
  abbrev pub heard :
      Session → Option (Result Text (List Text) × Session) → Result Text (List Text) × Session
  heard s none = (err (lit "out of rounds"), s)
  heard s (some r) = r

  unfoldable pub discover_nodes : ℕ → Bool → Exec Session (List Text)
  discover_nodes seconds update s =
      let timeout = seconds * 1_000_000_000 in
      heard s (
        run_discover platform.write loaded platform.resolver platform.receive (suc timeout)
          platform.now timeout update s)

  abbrev pub profile_platform : Profile.Environment
  profile_platform = record {
    exists = platform.exists located.0;
    write = platform.write;
    editor = platform.editor;
    launch = platform.launch;
  }

  unfoldable pub show_status : Bool → List Text → Config → Exec (Home S) (List Text)
  unfolding check_pin
  show_status all targets config h =
      printing (λ p. p.0)
        (in_session config (
          run_status platform.write (check_pin h.machine) (client h.machine)
            (query_status (resolve_url platform.reader) platform.get) found_targets all targets))
        h

  unfoldable pub send_to_nodes :
      Bool → Bool → Bool → Bool → List Text → Config → Exec (Home S) (List Text)
  unfolding check_pin
  send_to_nodes full_upgrade reboot dry_run listed names config h =
      printing (λ o. o.printed)
        (in_session config (
          run_node platform.write (check_pin h.machine) (client h.machine)
            (resolve_url platform.reader) platform.post full_upgrade reboot dry_run listed names))
        h

  unfoldable pub repin_node : Text → Config → Exec (Home S) (List Text)
  unfolding check_pin
  repin_node name config h =
      in_session config
        (run_repin platform.write (check_pin h.machine) (client h.machine)
          (resolve_url platform.reader) platform.post name)
        h

  unfoldable pub show_versions : Config → Exec (Home S) (List Text)
  unfolding check_pin
  show_versions config h =
      printing (λ r. r.rows)
        (in_session config (
          run_version (check_pin h.machine) (resolve_url platform.reader) platform.get
            platform.write (client h.machine) platform.own_version))
        h

  -- The commands.
  unfoldable pub runs : Runs (Home S)
  unfolding discover_nodes show_status send_to_nodes repin_node show_versions
  runs = record {
    run_discover = λ seconds update. in_session default_config (discover_nodes seconds update);
    run_status = show_status;
    run_node = send_to_nodes;
    run_repin = repin_node;
    run_profile =
        λ command config. in_session config (run_profile profile_platform located.0 command);
    run_ca = λ command. in_machine (
        in_stores (
          run_ca platform.keychain platform.delete platform.new_ca
            (fingerprint platform.certificates platform.sha256) platform.legacy command));
    run_cert = λ command. in_machine (
        run_cert platform.keychain platform.files platform.new_ca platform.new_leaf
          (fingerprint platform.certificates platform.sha256) platform.hostname command);
    run_version = show_versions;
    print_help = λ h. (ok platform.help, h);
  }

  unfoldable pub run_main : Bool → Option Commands → Home S → Ended × Home S
  unfolding runs
  run_main version_flag command =
      main runs version_flag platform.own_version loaded located.1 command
