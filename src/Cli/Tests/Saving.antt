-- ===== src/Cli/Tests/Saving.antt =====
-- A configuration is saved on a disk, at a concrete input.
use brewmble.Prelude.{Result, Text, [], eq_text, false, lit, none, ok, refl, some, ◌∷◌, ◌≡◌}
use brewmble.Prelude.Dict.{get}
use brewmble.Daemon.Config.Files.{Disk, System}
use brewmble.Cli.Config.{Config, default_config}
use brewmble.Cli.Session.{Session, save_config}
use brewmble.Cli.Session.Written.{Represents, save_config-Represents, save_file, write_ends}

abbrev system : System
system = record {
  create_dir_all = λ p. ok tt;
  open_file = λ p. ok tt;
  partial = λ s. [];
  write_all = λ s. ok tt;
  sync_all = λ p. ok tt;
  rename = λ from to. ok tt;
}

abbrev tmp : Text → Text
tmp path = lit "c.tmp"

abbrev path : Text
path = lit "c.yaml"

abbrev to_yaml : Config → Result Text Text
to_yaml config = ok (lit "profiles: {}")

abbrev session : Session
session = record { config = default_config; saved = none }

abbrev disk : Disk
disk = (path, lit "old") ∷ []

tmp_differs : eq_text (tmp path) path ≡ false
unfolding eq_text lit
tmp_differs = refl

old : get path disk ≡ some (lit "old")
unfolding get eq_text lit
old = refl

save_config-Represents_example :
    ((save_config (write_ends system tmp to_yaml path disk) session).0
      ≡ (save_file system tmp to_yaml path session.config disk).0)
    × Represents system tmp to_yaml path
        (some (lit "old"))
        (save_config (write_ends system tmp to_yaml path disk) session).1.saved
        (save_file system tmp to_yaml path session.config disk).1
save_config-Represents_example =
    save_config-Represents system tmp to_yaml path (some (lit "old")) session disk tmp_differs old
