-- ===== src/Cli/Tests/Runs.antt =====
-- A run of the whole program at a concrete input: a profile is created where no file was.
use brewmble.Prelude.{[], err, false, lit, none, ok, refl, some, true, ◌∷◌, ◌≡◌, eq_text}
use brewmble.Prelude.Dict.{get, insert}
use brewmble.Cli.Config.{
  Config, default_config, empty_profile, load_config, resolve_config_path_inner,
}
use brewmble.Cli.Config.Stored.{IsStored}
use brewmble.Cli.Discover.{timed_out}
use brewmble.Cli.Main.{profile, dispatch, main}
use brewmble.Cli.Profile.{create, run_profile, run_create}
use brewmble.Cli.Pin.Fetching.{late}
use brewmble.Cli.Program.{Home, Platform, located, runs, run_main}
use brewmble.Cli.Program.Reloaded.{run_main_reloaded}
use brewmble.Cli.Session.{save_config}
use brewmble.Cli.Status
use brewmble.Cli.Tests.Keys.{
  Keys, keychain, nothing_legacy, deletes, generated, leaf_of, files, machine,
}

-- The default profile and a new one.
abbrev with_lab : Config
with_lab = record default_config {
  profiles = (lit "default", empty_profile) ∷ (lit "lab", empty_profile) ∷ [];
}

abbrev platform : Platform Keys
platform = record {
  explicit_path = none;
  home_dir = some (lit "/home/me");
  exists = λ p. false;
  read = λ p. err (lit "no file");
  from_yaml = λ t. ok with_lab;
  write = λ c. ok tt;
  keychain = keychain;
  legacy = nothing_legacy;
  delete = deletes;
  new_ca = generated;
  new_leaf = leaf_of;
  certificates = λ t. ok (t ∷ []);
  sha256 = λ t. t;
  builder = record {
    identity_from_pem = λ t. ok t;
    certificate_from_pem = λ t. ok t;
    build = λ i c. ok tt;
  };
  files = files;
  hostname = lit "host";
  pins = record {
    server_name = λ t. ok t;
    socket_addrs = λ t p. ok (t ∷ []);
    certificates = λ t. ok (t ∷ []);
    private_key = λ t. ok (some t);
    add_root = λ t. ok tt;
    build_verifier = λ ts. ok tt;
    client_config = λ ts t. ok tt;
    verify = λ ts t u. ok tt;
    connection = λ t. record { connect = err t; shown = none; exchange = late };
  };
  reader = record { socket_addr = λ t. none; ip_addr = λ t. none };
  timed_out = lit "5s";
  get = λ t. Status.failed t;
  post = λ k t r. record { status = t; message = []; updates = none };
  resolver = ok tt;
  receive = λ n m. record { received = timed_out; took = 1 };
  disconnection = lit "closed";
  now = 0;
  humantime = λ t. none;
  timeout_variable = none;
  editor = none;
  launch = λ t ts. ok (true, []);
  own_version = lit "1.0.0";
  help = [];
}

abbrev home : Home Keys
home = record { saved = none; machine = machine }

created :
    (run_main platform false (some (profile (create (lit "lab")))) home).1.saved ≡ some with_lab
unfolding located resolve_config_path_inner run_main main dispatch runs run_profile run_create
    save_config load_config get insert eq_text lit
created = refl

run_main_reloaded_example :
    IsStored with_lab
    × (load_config true (ok (lit "profiles: ...")) platform.from_yaml ≡ ok with_lab)
run_main_reloaded_example =
    run_main_reloaded platform false (some (profile (create (lit "lab")))) home with_lab
      (lit "profiles: ...") refl created refl
