-- ===== src/Cli/Session.antt =====
-- A run of the CLI over its configuration: `save_config` of cli/src/main.rs and what it writes to.
-- Whether a write succeeds is a parameter; the atomic replacement of the file is that of `rename`.
pub mod Keeping
pub mod Commands
pub mod Profiles
pub mod Discovering
pub mod Pinning
pub mod Merging
pub mod Written
use brewmble.Prelude.{Option, Result, Text, err, ok, some}
use brewmble.Prelude.Exec.{Exec}
use brewmble.Cli.Config.{Config}

-- The configuration in memory, and the one that the file holds, if it was written in this run.
pub record Session : Type 0 where
  pub config : Config
  pub saved : Option Config

module _ (write : Config → Result Text (Unit {0})) where
  unfoldable pub save_config : Exec Session (Unit {0})
  save_config s = elim (write s.config) [
    | ok _ ↦ (ok tt, record s { saved = some s.config })
    | err e ↦ (err e, s)
  ]
