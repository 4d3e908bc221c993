-- ===== src/Cli/Session/Keeping.antt =====
-- The commands of cli/src/main.rs keep what a stored configuration is, in memory and in the file.
use brewmble.Prelude.{
  Bool-cases, List, Option, Result, Text, Result-cases, inl, inr, none, some, lines,
}
use brewmble.Prelude.Exec.{Keeps, ◌>>◌, pure, >>=-Keeps}
use brewmble.Cli.Config.{NodeConfig, Config}
use brewmble.Cli.Config.Stored.{IsStored}
use brewmble.Cli.Pin.{PinOutcome}
use brewmble.Cli.Pins.{validate_and_update_pins}
use brewmble.Cli.Pins.Saving.{check_pins}
use brewmble.Cli.Session.{Session, save_config}
use brewmble.Cli.Session.Pinning.{validate_and_update_pins-IsStored}

abbrev pub IsStoredIf : Option Config → Type 0
IsStoredIf none = Unit
IsStoredIf (some config) = IsStored config

pub record IsKept (s : Session) : Type 0 where
  pub config : IsStored s.config
  pub saved : IsStoredIf s.saved

-- A configuration that may be stored takes the place of the one in memory.
pub with_config-IsKept :
    (s : Session) (config : Config)
    → IsKept s
    → IsStored config
    → IsKept (record s { config = config })
with_config-IsKept s config h k = record { config = k; saved = h.saved }

module _ (write : Config → Result Text (Unit {0})) where
  pub save_config-Keeps : Keeps IsKept (save_config write)
  unfolding save_config
  save_config-Keeps s h = elim (Result-cases (write s.config)) [
    | inl (u, e) ↦ rw (e, save_config) (record { config = h.config; saved = h.config })
    | inr (x, e) ↦ rw (e, save_config) h
  ]

  -- A change is saved, and lines are printed.
  pub saved_keeps :
      (lines : List Text) (t : Session) → IsKept t → IsKept ((save_config write >> pure lines) t).1
  saved_keeps lines t h =
      >>=-Keeps IsKept (save_config write) (λ _. pure lines) save_config-Keeps (λ _ u k. k) t h

  pub check_pins-Keeps :
      (check : NodeConfig → Result Text PinOutcome) (nodes : List NodeConfig)
      → Keeps IsKept (check_pins write check nodes)
  unfolding check_pins
  check_pins-Keeps check nodes s h =
      let stored =
        with_config-IsKept s (validate_and_update_pins check s.config nodes).0 h
          (validate_and_update_pins-IsStored check s.config nodes h.config) in
      elim (Bool-cases (validate_and_update_pins check s.config nodes).1) [
        | inl e ↦ rw e (save_config-Keeps _ stored)
        | inr e ↦ rw e stored
      ]
