-- ===== src/Cli/Pin/Checks.antt =====
-- The outcome of a pin check, on every branch (cli/src/pin.rs).
use brewmble.Prelude.{Result, Text, eq_ignore_ascii_case, none, ok, some, true, ◌↔◌, ◌≡◌, arith}
use brewmble.Cli.Config.{NodeConfig}
use brewmble.Cli.Pin.{learned, matched, check_pin_with_fetcher}

module _ (resolve_url : Text → Text) (node : NodeConfig) (address : Text)
    (fetch : Text → Result Text Text) where
  -- A check passes exactly if a fingerprint is observed at the node's URL and the stored one equals
  -- it up to case.
  pub check_pin_matched_iff :
      (check_pin_with_fetcher resolve_url node address fetch ≡ ok matched) ↔ (
        (expected : Text) × (observed : Text) × (node.fingerprint ≡ some expected)
        × (fetch (resolve_url address) ≡ ok observed)
        × (eq_ignore_ascii_case expected observed ≡ true))
  unfolding check_pin_with_fetcher
  check_pin_matched_iff = ground arith

  -- A check learns a fingerprint exactly if it is observed and none is stored.
  pub check_pin_learned_iff :
      (fp : Text)
      → (check_pin_with_fetcher resolve_url node address fetch ≡ ok (learned fp))
        ↔ ((node.fingerprint ≡ none) × (fetch (resolve_url address) ≡ ok fp))
  unfolding check_pin_with_fetcher
  check_pin_learned_iff fp = ground arith
