-- ===== src/Cli/Pins/Overwritten.antt =====
-- Two entries with one address in `validate_and_update_pins` of cli/src/main.rs.
use brewmble.Prelude.{List, Result, Text, [], eq_text_refl, err, ok, refl, some, ◌∷◌, ◌≡◌}
use brewmble.Cli.Config.{NodeConfig, Config}
use brewmble.Cli.Pin.{PinOutcome, learned}
use brewmble.Cli.Pins.{pin_first, update_node_fingerprint, validate_and_update_pins}
use brewmble.Cli.Pins.Kept.{active_nodes, active_nodes-update_active}

-- If the first entry of the active profile has a fingerprint and its check fails, and the second
-- one has the same address and learns a fingerprint, then validating the two stores that
-- fingerprint in the first entry: the mismatch is accepted.
pub mismatch_overwritten :
    (check : NodeConfig → Result Text PinOutcome) (config : Config) (a b : NodeConfig)
    (rest : List NodeConfig) (fp e : Text)
    → active_nodes config ≡ a ∷ b ∷ rest
    → b.address ≡ a.address
    → check a ≡ err e
    → check b ≡ ok (learned fp)
    → active_nodes (validate_and_update_pins check config (a ∷ b ∷ [])).0
      ≡ record a { fingerprint = some fp } ∷ b ∷ rest
unfolding validate_and_update_pins update_node_fingerprint
mismatch_overwritten check config a b rest fp e h same fails learns =
    rw (fails, learns)
      (rw
        (active_nodes-update_active (pin_first b.address (some fp)) config
          (unfold pin_first in refl))
        (rw h (rw same (unfold pin_first in rw (eq_text_refl a.address)))))
