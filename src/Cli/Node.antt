-- ===== src/Cli/Node.antt =====
-- `resolve_profile_nodes`, `run_repin` and `run_node` of cli/src/main.rs. Pin checks, the client
-- and the daemon's answers are parameters.
pub mod Sending
pub mod Requests
pub mod Resolving
pub mod Repinning
use brewmble.Prelude.{
  ℕ, suc, Bool, List, Option, Result, Text, [], decimal, eq_name, eq_text, err, find, if◌then◌else◌,
  is_empty, is_some, join, length, lit, map, none, not, ok, replace_newline, some, ◌&&◌, ◌++◌, ◌||◌,
  ◌∷◌,
}
use brewmble.Prelude.Dict.{get}
use brewmble.Prelude.Exec.{Exec, ◌>>=◌, ◌>>◌, pure, fail, modify}
use brewmble.Rest.{path_reboot, path_upgrade}
use brewmble.Cli.Config.{NodeConfig, ProfileConfig, Config}
use brewmble.Cli.Merge.{has_address}
use brewmble.Cli.Pin.{PinOutcome, learned, matched, node_name}
use brewmble.Cli.Pins.{pin_first, update_active, update_node_fingerprint}
use brewmble.Cli.Pins.Saving.{check_pins}
use brewmble.Cli.Session.{Session, save_config}

-- A node is meant by its name, or by its address if it has no name.
abbrev pub named_exactly : Text → NodeConfig → Bool
named_exactly wanted n =
    eq_name n.name (some wanted) || (not (is_some n.name) && eq_text n.address wanted)

abbrev not_found : Text → Text → Text
not_found wanted profile =
    lit "Node '" ++ (wanted ++ (lit "' not found in profile '" ++ (profile ++ lit "'")))

abbrev prepend : NodeConfig → Result Text (List NodeConfig) → Result Text (List NodeConfig)
prepend n (ok ns) = ok (n ∷ ns)
prepend n (err e) = err e

unfoldable pub match_nodes : Text → List NodeConfig → List Text → Result Text (List NodeConfig)
match_nodes profile candidates [] = ok []
match_nodes profile candidates (wanted ∷ more) =
    let rest = match_nodes profile candidates more in
    elim (find (named_exactly wanted) candidates) [
      | some n ↦ prepend n rest
      | none ↦ err (not_found wanted profile)
    ]

abbrev select : Text → List Text → Option ProfileConfig → Result Text (List NodeConfig)
select profile names none = err (lit "Profile '" ++ (profile ++ lit "' not found"))
select profile names (some p) =
    if is_empty names then ok p.nodes else match_nodes profile p.nodes names

unfoldable pub resolve_profile_nodes : List Text → Config → Result Text (List NodeConfig)
unfolding match_nodes
resolve_profile_nodes names config =
    select config.active_profile names (get config.active_profile config.profiles)

-- A request to a daemon.
pub data Request : Type 0 where
  reboot : Request
  upgrade : Bool → Request

-- What a request showed: the status or the error, the message, and the updates.
pub record Answer : Type 0 where
  pub status : Text
  pub message : Text
  pub updates : Option (List Text)

abbrev pub path_of : Request → Text
path_of reboot = path_reboot
path_of (upgrade dry_run) = path_upgrade

-- The rows of the table for one node: the cells are separated by tabs.
abbrev message_rows : Text → List Text
message_rows [] = []
message_rows (c ∷ s) = (lit "\t" ++ replace_newline (lit "\n\t") (c ∷ s)) ∷ []

abbrev update_rows : Option (List Text) → List Text
update_rows none = []
update_rows (some []) = []
update_rows (some (u ∷ us)) =
    (lit "\tUpdates (" ++ (decimal (length (u ∷ us)) ++ (lit "): " ++ join (lit ", ") (u ∷ us))))
    ∷ []

unfoldable pub answer_rows : NodeConfig → Answer → List Text
answer_rows n a =
    (node_name n ++ (lit "\t" ++ a.status)) ∷ (message_rows a.message ++ update_rows a.updates)

-- The requests that were sent, in their order, and the lines that were printed.
pub record Output : Type 0 where
  pub sent : List (Text × Request)
  pub printed : List Text

abbrev pub said : List Text → Output
said printed = record { sent = []; printed = printed }

abbrev pub chosen : Bool → Bool → Request
chosen reboot_flag dry_run = if reboot_flag then reboot else upgrade dry_run

module _ (resolve_url : Text → Text) where
  -- The requests that are sent, in their order, with the address in front of the path.
  abbrev pub requests : Request → List NodeConfig → List (Text × Request)
  requests r [] = []
  requests r (n ∷ ns) = (resolve_url n.address ++ path_of r, r) ∷ requests r ns

module _ (resolve_url : Text → Text) (send : ℕ → Text → Request → Answer) where
  -- What a request is answered depends on how many the command has sent before it: the daemons change
  -- between two requests.
  unfoldable pub send_all : ℕ → Request → List NodeConfig → List Text
  send_all k r [] = []
  send_all k r (n ∷ ns) =
      answer_rows n (send k (resolve_url n.address ++ path_of r) r) ++ send_all (suc k) r ns

module _ (write : Config → Result Text (Unit {0})) (check : NodeConfig → Result Text PinOutcome)
    (build_client : Result Text (Unit {0})) (resolve_url : Text → Text)
    (send : ℕ → Text → Request → Answer) where
  unfoldable pub contact : Request → List NodeConfig → Exec Session Output
  contact r targets s = elim build_client [
    | err e ↦ (err e, s)
    | ok _ ↦ (
      ok (record {
        sent = requests resolve_url r targets;
        printed = lit "NODE\tSTATUS" ∷ send_all resolve_url send 0 r targets;
      }),
      s,
    )
  ]

  unfoldable pub run_targets : Bool → Bool → Bool → List NodeConfig → Exec Session Output
  run_targets reboot_flag dry_run listed [] = pure (said (lit "No nodes found." ∷ []))
  run_targets reboot_flag dry_run listed (n ∷ ns) =
      if listed
      then pure (said (map node_name (n ∷ ns)))
      else check_pins write check (n ∷ ns) >> contact (chosen reboot_flag dry_run) (n ∷ ns)

  unfoldable pub run_node : Bool → Bool → Bool → Bool → List Text → Exec Session Output
  unfolding run_targets contact check_pins
  run_node full_upgrade reboot_flag dry_run listed names s =
      if not full_upgrade && not reboot_flag && not listed
      then fail (lit "either --full-upgrade (-u), --reboot (-r), or --list (-l) must be specified")
          s
      else if dry_run && not full_upgrade
      then fail (lit "--dry-run can only be used with --full-upgrade") s
      else elim (resolve_profile_nodes names s.config) [
        | err e ↦ fail e s
        | ok targets ↦ run_targets reboot_flag dry_run listed targets s
      ]

  -- `run_repin`: the node, by name or address, forgets its fingerprint and learns it anew.
  abbrev named_or_at : Text → NodeConfig → Bool
  named_or_at wanted n = eq_name n.name (some wanted) || eq_text n.address wanted

  unfoldable pub find_address : Text → Option ProfileConfig → Option Text
  find_address wanted none = none
  find_address wanted (some p) = elim (find (named_or_at wanted) p.nodes) [
    | none ↦ none
    | some n ↦ some n.address
  ]

  unfoldable pub forget : Text → Config → Config
  forget address config =
      update_active (pin_first address none) (update_node_fingerprint config address [])

  unfoldable pub node_at : Text → Option ProfileConfig → Option NodeConfig
  node_at address none = none
  node_at address (some p) = find (has_address address) p.nodes

  -- The node was found above, so that the last case is not reached.
  unfoldable pub learn_again : Option NodeConfig → Exec Session (List Text)
  learn_again none s = fail [] s
  learn_again (some n) s = elim (check n) [
    | ok (learned fp) ↦
        (do
          modify
              (λ (t : Session). record t { config = update_node_fingerprint t.config n.address fp })
          save_config write
          pure ((lit "Re-pinned " ++ (node_name n ++ (lit " " ++ fp))) ∷ []))
          s
    | ok matched ↦
        pure ((lit "Re-pinned " ++ (node_name n ++ lit " (fingerprint unchanged)")) ∷ []) s
    | err e ↦ fail e s
  ]

  unfoldable pub run_repin : Text → Exec Session (List Text)
  unfolding find_address forget node_at learn_again
  run_repin wanted s = elim (find_address wanted (get s.config.active_profile s.config.profiles)) [
    | none ↦ fail (not_found wanted s.config.active_profile) s
    | some address ↦
        let config' = forget address s.config in
        learn_again (node_at address (get config'.active_profile config'.profiles))
          (record s { config = config' })
  ]
