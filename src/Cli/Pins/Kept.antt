-- ===== src/Cli/Pins/Kept.antt =====
-- When stored fingerprints survive `validate_and_update_pins` of cli/src/main.rs.
use brewmble.Prelude.{
  All, Bool-cases, List, Option, Result, Text, [], eq_text_iff, err, inl, inr, ok, refl, some, sym,
  ◌∙◌, ◌∷◌, ◌≡◌, ◌≢◌, eq_text_refl, none,
}
use brewmble.Prelude.Dict.{get, get-insert}
use brewmble.Cli.Config.{NodeConfig, ProfileConfig, Config, entry, or_default}
use brewmble.Cli.Merge.{has_address}
use brewmble.Cli.Merge.Fingerprints.{IsPinned}
use brewmble.Cli.Pin.{PinOutcome, learned, matched}
use brewmble.Cli.Pins.{
  pin_first, with_nodes, update_active, update_node_fingerprint, record_outcome,
  validate_and_update_pins,
}

abbrev pub active_nodes : Config → List NodeConfig
active_nodes config = (entry config.active_profile config.profiles).nodes

-- A write at one address leaves the pins of the other addresses.
pin_first-IsPinned :
    (a addr fp : Text) (o : Option Text) (nodes : List NodeConfig)
    → a ≢ addr
    → IsPinned addr fp nodes
    → IsPinned addr fp (pin_first a o nodes)
unfolding pin_first
pin_first-IsPinned a addr fp o [] h k = k
pin_first-IsPinned a addr fp o (n ∷ ns) h k = elim (Bool-cases (has_address a n)) [
  | inl here ↦ rw here (elim k [
    | inl p ↦ absurd (h (sym ((eq_text_iff n.address a).0 here) ∙ p.0))
    | inr later ↦ inr later
  ])
  | inr away ↦
      rw away
        (elim k [ inl p ↦ inl p | inr later ↦ inr (pin_first-IsPinned a addr fp o ns h later) ])
]

active_nodes-with_nodes :
    (change : List NodeConfig → List NodeConfig) (config : Config) (o : Option ProfileConfig)
    → get config.active_profile config.profiles ≡ o
    → change [] ≡ []
    → active_nodes (with_nodes o change config) ≡ change (or_default o).nodes
active_nodes-with_nodes change config none h e = rw (h, active_nodes) (sym e)
active_nodes-with_nodes change config (some p) h e = simp (active_nodes, get-insert, eq_text_refl)

-- The nodes of the active profile after a change to them that leaves an empty list empty.
pub active_nodes-update_active :
    (change : List NodeConfig → List NodeConfig) (config : Config)
    → change [] ≡ []
    → active_nodes (update_active change config) ≡ change (active_nodes config)
active_nodes-update_active change config e =
    active_nodes-with_nodes change config (get config.active_profile config.profiles) refl e

module _ (check : NodeConfig → Result Text PinOutcome) (addr fp : Text) where
  -- No node that is about to be pinned stands at the address.
  abbrev pub Spares : List NodeConfig → Type 0
  Spares nodes =
      All (λ (n : NodeConfig). n.address ≡ addr → ¬ ((o : Text) × (check n ≡ ok (learned o)))) nodes

  record_outcome-IsPinned :
      (config : Config) (n : NodeConfig) (r : Result Text PinOutcome)
      → (n.address ≡ addr → ¬ ((o : Text) × (r ≡ ok (learned o))))
      → IsPinned addr fp (active_nodes config)
      → IsPinned addr fp (active_nodes (record_outcome check config n r).0)
  unfolding update_node_fingerprint
  record_outcome-IsPinned config n (ok (learned o)) h k =
      rw
        (active_nodes-update_active (pin_first n.address (some o)) config
          (unfold pin_first in refl))
        (pin_first-IsPinned n.address addr fp (some o) (active_nodes config) (λ e. h e (o, refl)) k)
  record_outcome-IsPinned config n (ok matched) h k = k
  record_outcome-IsPinned config n (err e) h k = k

  -- A fingerprint that is stored at an address stays stored, if none of the checked nodes at that
  -- address learns a fingerprint: a check that matches or fails never changes a stored pin.
  pub validate_and_update_pins-IsPinned :
      (config : Config) (nodes : List NodeConfig)
      → Spares nodes
      → IsPinned addr fp (active_nodes config)
      → IsPinned addr fp (active_nodes (validate_and_update_pins check config nodes).0)
  unfolding validate_and_update_pins
  validate_and_update_pins-IsPinned config [] h k = k
  validate_and_update_pins-IsPinned config (n ∷ ns) h k =
      validate_and_update_pins-IsPinned (record_outcome check config n (check n)).0 ns h.1
        (record_outcome-IsPinned config n (check n) h.0 k)
