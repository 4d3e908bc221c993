-- ===== src/Cli/Pins.antt =====
-- `update_node_fingerprint` and `validate_and_update_pins` of cli/src/main.rs. What they print is
-- left out. The pin check of a node at its own address is a parameter.
pub mod Kept
pub mod Overwritten
pub mod Saving
use brewmble.Prelude.{
  Bool, List, Option, Result, Text, [], err, false, if◌then◌else◌, none, ok, some, true, ◌||◌, ◌∷◌,
}
use brewmble.Prelude.Dict.{get, insert}
use brewmble.Cli.Config.{NodeConfig, ProfileConfig, Config}
use brewmble.Cli.Merge.{has_address}
use brewmble.Cli.Pin.{PinOutcome, learned, matched}

-- The first entry with the address is written.
unfoldable pub pin_first : Text → Option Text → List NodeConfig → List NodeConfig
pin_first address fp [] = []
pin_first address fp (n ∷ ns) =
    if has_address address n
    then record n { fingerprint = fp } ∷ ns
    else n ∷ pin_first address fp ns

-- A change to the nodes of the active profile, if it exists.
abbrev pub with_nodes : Option ProfileConfig → (List NodeConfig → List NodeConfig) → Config → Config
with_nodes none change config = config
with_nodes (some p) change config = record config {
  profiles = insert config.active_profile (record { nodes = change p.nodes }) config.profiles;
}

abbrev pub update_active : (List NodeConfig → List NodeConfig) → Config → Config
update_active change config = with_nodes (get config.active_profile config.profiles) change config

unfoldable pub update_node_fingerprint : Config → Text → Text → Config
unfolding pin_first
update_node_fingerprint config address fingerprint =
    update_active (pin_first address (some fingerprint)) config

module _ (check : NodeConfig → Result Text PinOutcome) where
  -- One round of the loop; an error is printed and the loop goes on.
  abbrev pub record_outcome : Config → NodeConfig → Result Text PinOutcome → Config × Bool
  record_outcome config node (ok (learned fp)) =
      (update_node_fingerprint config node.address fp, true)
  record_outcome config node (ok matched) = (config, false)
  record_outcome config node (err e) = (config, false)

  unfoldable pub validate_and_update_pins : Config → List NodeConfig → Config × Bool
  validate_and_update_pins config [] = (config, false)
  validate_and_update_pins config (node ∷ nodes) =
      let (config', updated) = record_outcome config node (check node) in
      let (config'', more) = validate_and_update_pins config' nodes in (config'', updated || more)
