-- ===== src/Cli/Session/Pinning.antt =====
-- The functions of cli/src/main.rs that write fingerprints keep what a stored configuration is.
use brewmble.Prelude.{
  Bool-cases, List, Option, Result, Text, [], err, inl, inr, none, ok, refl, some, ◌∷◌, ◌≡◌,
}
use brewmble.Prelude.Dict.{get, Values-get}
use brewmble.Cli.Config.{NodeConfig, ProfileConfig, Config}
use brewmble.Cli.Config.Loading.{HasCleanNames}
use brewmble.Cli.Config.Stored.{IsStored, with_active-IsStored}
use brewmble.Cli.Merge.{has_address}
use brewmble.Cli.Pin.{PinOutcome, learned, matched}
use brewmble.Cli.Pins.{
  pin_first, with_nodes, update_active, update_node_fingerprint, record_outcome,
  validate_and_update_pins,
}

pin_first-HasCleanNames :
    (address : Text) (fp : Option Text) (nodes : List NodeConfig)
    → HasCleanNames (record { nodes = nodes })
    → HasCleanNames (record { nodes = pin_first address fp nodes })
unfolding pin_first
pin_first-HasCleanNames address fp [] h = h
pin_first-HasCleanNames address fp (n ∷ ns) h = elim (Bool-cases (has_address address n)) [
  | inl e ↦ rw e h
  | inr e ↦ rw e (h.0, pin_first-HasCleanNames address fp ns h.1)
]

with_nodes-IsStored :
    (address : Text) (fp : Option Text) (config : Config) (o : Option ProfileConfig)
    → get config.active_profile config.profiles ≡ o
    → IsStored config
    → IsStored (with_nodes o (pin_first address fp) config)
with_nodes-IsStored address fp config none e h = h
with_nodes-IsStored address fp config (some p) e h =
    with_active-IsStored config (pin_first address fp p.nodes) h (
      pin_first-HasCleanNames address fp p.nodes
        (Values-get HasCleanNames config.active_profile p config.profiles h.clean e))

-- A fingerprint is written or taken away.
pub update_active-IsStored :
    (address : Text) (fp : Option Text) (config : Config)
    → IsStored config
    → IsStored (update_active (pin_first address fp) config)
update_active-IsStored address fp config h =
    with_nodes-IsStored address fp config (get config.active_profile config.profiles) refl h

pub update_node_fingerprint-IsStored :
    (config : Config) (address fp : Text)
    → IsStored config
    → IsStored (update_node_fingerprint config address fp)
unfolding update_node_fingerprint
update_node_fingerprint-IsStored config address fp h =
    update_active-IsStored address (some fp) config h

module _ (check : NodeConfig → Result Text PinOutcome) where
  record_outcome-IsStored :
      (config : Config) (n : NodeConfig) (r : Result Text PinOutcome)
      → IsStored config
      → IsStored (record_outcome check config n r).0
  record_outcome-IsStored config n (ok (learned fp)) h =
      update_node_fingerprint-IsStored config n.address fp h
  record_outcome-IsStored config n (ok matched) h = h
  record_outcome-IsStored config n (err e) h = h

  pub validate_and_update_pins-IsStored :
      (config : Config) (nodes : List NodeConfig)
      → IsStored config
      → IsStored (validate_and_update_pins check config nodes).0
  unfolding validate_and_update_pins
  validate_and_update_pins-IsStored config [] h = h
  validate_and_update_pins-IsStored config (n ∷ ns) h =
      validate_and_update_pins-IsStored (record_outcome check config n (check n)).0 ns
        (record_outcome-IsStored config n (check n) h)
