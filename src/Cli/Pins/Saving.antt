-- ===== src/Cli/Pins/Saving.antt =====
-- The check of pins before nodes are contacted, in `run_node` and `run_status` of cli/src/main.rs.
use brewmble.Prelude.{List, Result, Text, if◌then◌else◌, ok}
use brewmble.Prelude.Exec.{Exec}
use brewmble.Cli.Config.{NodeConfig, Config}
use brewmble.Cli.Pin.{PinOutcome}
use brewmble.Cli.Pins.{validate_and_update_pins}
use brewmble.Cli.Session.{Session, save_config}

-- Pins are checked, and saved if one was learned; a check that fails is only printed.
unfoldable pub check_pins :
    (Config → Result Text (Unit {0}))
    → (NodeConfig → Result Text PinOutcome)
    → List NodeConfig
    → Exec Session (Unit {0})
check_pins write check nodes s =
    let (config', updated) = validate_and_update_pins check s.config nodes in
    if updated
    then save_config write (record s { config = config' })
    else (ok tt, record s { config = config' })
