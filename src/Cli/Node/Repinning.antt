-- ===== src/Cli/Node/Repinning.antt =====
-- The effect of `run_repin` of cli/src/main.rs on the file.
use brewmble.Prelude.{ℕ, Result, Text, err, ◌≡◌, arith}
use brewmble.Cli.Config.{NodeConfig, Config}
use brewmble.Cli.Pin.{PinOutcome}
use brewmble.Cli.Session.{Session, save_config}
use brewmble.Cli.Node.{Request, Answer, find_address, learn_again, run_repin}

module _ (write : Config → Result Text (Unit {0})) (check : NodeConfig → Result Text PinOutcome)
    (build_client : Result Text (Unit {0})) (resolve_url : Text → Text)
    (send : ℕ → Text → Request → Answer) where
  -- A re-pinning that fails leaves the file as it was: the old pin stays stored.
  pub run_repin_failed :
      (wanted : Text) (s : Session) (e : Text)
      → (run_repin write check build_client resolve_url send wanted s).0 ≡ err e
      → (run_repin write check build_client resolve_url send wanted s).1.saved ≡ s.saved
  unfolding run_repin save_config learn_again find_address
  run_repin_failed wanted s e h = ground arith
