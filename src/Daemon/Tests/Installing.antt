-- ===== src/Daemon/Tests/Installing.antt =====
-- A configuration that is written on an empty disk.
use brewmble.Prelude.{
  List, Option, Result, Text, [], err, eq_text, false, lit, none, ok, refl, some, ◌++◌, ◌∷◌, ◌≡◌,
  ◌↔◌, decimal, true,
}
use brewmble.Prelude.Dict.{get, contains_key}
use brewmble.Daemon.Config.{Host}
use brewmble.Daemon.Config.Validity.{IsServable}
use brewmble.Daemon.Config.Files.{Disk, init_config_file, write_config_atomically}
use brewmble.Daemon.Config.Template.{template_config}
use brewmble.Daemon.Commands.{Console, run_config_init}
use brewmble.Daemon.Main.{Site, checked_config}
use brewmble.Daemon.Main.Initialised.{ReadsDisk, init_accepted}

abbrev or_gone : Option Text → Result Text Text
or_gone none = err (lit "no such file")
or_gone (some t) = ok t

abbrev host : Disk → Host
host d = record {
  exists = λ p. contains_key p d;
  read = λ p. or_gone (get p d);
  certificates = λ pem. ok 1;
  private_key = λ pem. ok true;
  mode = λ p. some 384;
  load_tls_config = λ tls. ok tt;
  parse_leaf = λ pem. none;
  now = 1000;
  display_time = decimal;
}

abbrev console : Console
console = record {
  host = host;
  system = record {
    create_dir_all = λ p. ok tt;
    open_file = λ p. ok tt;
    partial = λ s. [];
    write_all = λ s. ok tt;
    sync_all = λ s. ok tt;
    rename = λ a b. ok tt;
  };
  with_extension_tmp = λ p. p ++ lit ".tmp";
  parent = λ p. none;
  from_yaml = λ t. ok template_config;
  to_yaml = λ c. ok [];
  home = none;
  editor = none;
  launch = λ program args d. (ok (true, []), d);
}

abbrev site : Site
site = record {
  console = console;
  bind = λ ip port. ok tt;
  hostname = lit "localhost";
  tls = record {
    read = λ p. ok p;
    certificates = λ pem. ok (pem ∷ []);
    private_key = λ pem. ok (some pem);
    add_root = λ c. ok tt;
    build_verifier = λ roots. ok tt;
    with_single_cert = λ chain key. ok tt;
  };
  mdns = record { start = ok tt; new_service = λ info. ok tt; register = λ info. ok tt };
  pm_available = true;
  pm_version = lit "apt 2.6.1";
  daemon_version = lit "0.1.0";
}

reads_disk : (d : Disk) → ReadsDisk site d
reads_disk d path content h = rw h (refl, refl)

abbrev path : Text
path = lit "c.yaml"

tmp_differs : eq_text (console.with_extension_tmp path) path ≡ false
unfolding eq_text lit
tmp_differs = refl

abbrev written : List Text
written = (lit "Configuration template written to " ++ path) ∷ []

initialised : (run_config_init console (some path) false []).0 ≡ ok written
unfolding run_config_init init_config_file write_config_atomically get
initialised = refl

init_accepted_example :
    checked_config site (some path) (run_config_init console (some path) false []).1
      ≡ ok template_config
    ↔ IsServable (host (run_config_init console (some path) false []).1) template_config
init_accepted_example =
    init_accepted site path false [] written tmp_differs refl initialised
      (reads_disk (run_config_init console (some path) false []).1)
