-- ===== src/Cli/Version.antt =====
-- `run_version` of cli/src/main.rs: the versions of the daemons of the active profile. What the
-- HTTP client gives for a request, and the pin check, are parameters. What is printed of the pin
-- checks is left out.
pub mod Checked
use brewmble.Prelude.{
  Bool, List, Option, Result, Text, [], err, false, if◌then◌else◌, lit, none, ok, some, true, ◌++◌,
  ◌∷◌,
}
use brewmble.Prelude.Dict.{get}
use brewmble.Prelude.Exec.{Exec}
use brewmble.Rest.{StatusResponse, path_status}
use brewmble.Cli.Config.{NodeConfig, ProfileConfig, Config}
use brewmble.Cli.Pin.{PinOutcome, learned, matched, node_name}
use brewmble.Cli.Pins.{update_node_fingerprint}
use brewmble.Cli.Session.{Session, save_config}
use brewmble.Cli.Status.{Sent, failed, answered}

abbrev or_unknown : Option Text → Text
or_unknown none = lit "Unknown"
or_unknown (some version) = version

abbrev version_of_response : Option StatusResponse → Text
version_of_response none = lit "Unknown (Parse Error)"
version_of_response (some sr) = or_unknown sr.daemon_version

-- The version that is shown for the outcome of a request.
unfoldable pub shown_version : Sent → Text
shown_version (failed e) = lit "Unreachable"
shown_version (answered r) =
    if r.success
    then version_of_response r.status_response
    else lit "Error (" ++ (r.status ++ lit ")")

-- What the rounds of the loop have done: the configuration, whether a pin was learned, the requests
-- and the rows.
pub record Round : Type 0 where
  pub config : Config
  pub pin_updated : Bool
  pub sent : List Text
  pub rows : List Text

module _ (check : NodeConfig → Result Text PinOutcome) (resolve_url : Text → Text)
    (request : Text → Sent) where
  abbrev pub url_of : NodeConfig → Text
  url_of node = resolve_url node.address ++ path_status

  abbrev ask : NodeConfig → Round → Round
  ask node r = record r {
    sent = r.sent ++ (url_of node ∷ []);
    rows = r.rows ++ ((node_name node ++ (lit "\t" ++ shown_version (request (url_of node)))) ∷ []);
  }

  -- A node whose check fails is passed over.
  abbrev pub checked : NodeConfig → Result Text PinOutcome → Round → Round
  checked node (ok (learned fp)) r =
      ask node
        (record r { config = update_node_fingerprint r.config node.address fp; pin_updated = true })
  checked node (ok matched) r = ask node r
  checked node (err e) r = r

  unfoldable pub version_rounds : List NodeConfig → Round → Round
  version_rounds [] r = r
  version_rounds (n ∷ ns) r = version_rounds ns (checked n (check n) r)

  abbrev pub start_round : Config → Text → Round
  start_round config version = record {
    config = config;
    pin_updated = false;
    sent = [];
    rows = lit "COMPONENT\tVERSION" ∷ (lit "CLI (local)\t" ++ version) ∷ [];
  }

  module _ (write : Config → Result Text (Unit {0})) (build_client : Result Text (Unit {0})) where
    abbrev pub keep : Round → Result Text (Unit {0}) × Session → Result Text Round × Session
    keep r (ok _, s) = (ok r, s)
    keep r (err e, s) = (err e, s)

    abbrev pub finish_version : Round → Exec Session Round
    finish_version r s =
        if r.pin_updated
        then keep r (save_config write (record s { config = r.config }))
        else (ok r, record s { config = r.config })

    abbrev pub profile_version : Text → Option ProfileConfig → Exec Session Round
    profile_version version none s = (ok (start_round s.config version), s)
    profile_version version (some p) s = elim build_client [
      | err e ↦ (err e, s)
      | ok _ ↦ finish_version (version_rounds p.nodes (start_round s.config version)) s
    ]

    -- The CLI's own version is given.
    unfoldable pub run_version : Text → Exec Session Round
    unfolding version_rounds
    run_version version s =
        profile_version version (get s.config.active_profile s.config.profiles) s
