-- ===== src/Cli/Main.antt =====
-- `main` of cli/src/main.rs: the configuration is loaded and the command chosen. The commands are
-- the functions of the other modules, which this one takes as a record; the parser of the command
-- line is the library clap's.
use brewmble.Prelude.{
  Bool, List, Option, Result, Text, [], err, if◌then◌else◌, is_empty, is_some, lit, none, not, ok,
  some, ℕ, ◌&&◌, ◌++◌, ◌∷◌, all,
}
use brewmble.Prelude.Exec.{Exec}
use brewmble.Cli.Config.{Config}
use brewmble.Cli.Authority.{CaCommands}
use brewmble.Cli.Certificates.{CertCommands}
use brewmble.Cli.Profile.{ProfileCommand}

-- The subcommands with their arguments.
pub data Commands : Type 0 where
  discover : ℕ → Bool → Commands
  status : Bool → List Text → Commands
  node : Bool → Bool → Bool → Bool → Option Text → List Text → Commands
  profile : ProfileCommand → Commands
  ca : CaCommands → Commands
  cert : CertCommands → Commands
  version : Commands

-- The functions that carry out the subcommands, over a state of the machine and with what they
-- print.
pub record Runs (S : Type 0) : Type 0 where
  pub run_discover : ℕ → Bool → Exec S (List Text)
  pub run_status : Bool → List Text → Config → Exec S (List Text)
  pub run_node : Bool → Bool → Bool → Bool → List Text → Config → Exec S (List Text)
  pub run_repin : Text → Config → Exec S (List Text)
  pub run_profile : ProfileCommand → Config → Exec S (List Text)
  pub run_ca : CaCommands → Exec S (List Text)
  pub run_cert : CertCommands → Exec S (List Text)
  pub run_version : Config → Exec S (List Text)
  pub print_help : Exec S (List Text)

-- How the process ends: it exits with code 1, or `main` returns.
pub data Ended : Type 0 where
  exits : Text → Ended
  returns : Result Text (List Text) → Ended

abbrev no_config : Text
no_config = lit "No config file was found or set."

module _ {S : Type 0} (runs : Runs S) where
  abbrev pub noted : Bool → Exec S (List Text) → Exec S (List Text)
  noted missing run s =
      let (r, s') = run s in
      elim r [
        | ok printed ↦ (ok (if missing then no_config ∷ printed else printed), s')
        | err e ↦ (err e, s')
      ]

  abbrev pub node_or_repin :
      Option Text → (Text → Exec S (List Text)) → Exec S (List Text) → Exec S (List Text)
  node_or_repin none repin run s = run s
  node_or_repin (some name) repin run s = repin name s

  -- The command; whether a configuration file exists decides only what is noted first.
  unfoldable pub dispatch : Option Commands → Config → Bool → Exec S (List Text)
  dispatch none config config_exists s = runs.print_help s
  dispatch (some (discover timeout update_config)) config config_exists s =
      runs.run_discover timeout update_config s
  dispatch (some (status all targets)) config config_exists s =
      noted (is_empty targets && not all && not config_exists) (runs.run_status all targets config)
        s
  dispatch (some (node full_upgrade reboot dry_run listed repin nodes)) config config_exists s =
      noted (is_empty nodes && not config_exists && not (is_some repin))
        (node_or_repin repin (λ name. runs.run_repin name config)
          (runs.run_node full_upgrade reboot dry_run listed nodes config))
        s
  dispatch (some (profile subcommand)) config config_exists s = runs.run_profile subcommand config s
  dispatch (some (ca subcommand)) config config_exists s = runs.run_ca subcommand s
  dispatch (some (cert subcommand)) config config_exists s = runs.run_cert subcommand s
  dispatch (some version) config config_exists s = runs.run_version config s

  abbrev pub ended : Result Text (List Text) × S → Ended × S
  ended (r, s) = (returns r, s)

  -- The version flag, the configuration as it was loaded, and whether its file exists.
  unfoldable pub main : Bool → Text → Result Text Config → Bool → Option Commands → S → Ended × S
  unfolding dispatch
  main version_flag own_version loaded config_exists command s =
      if version_flag
      then (returns (ok ((lit "brewmble " ++ own_version) ∷ [])), s)
      else elim loaded [
        | err e ↦ (exits (lit "error: failed to load config: " ++ e), s)
        | ok config ↦ ended (dispatch command config config_exists s)
      ]
