-- ===== src/Cli/Node/Requests.antt =====
-- What `run_node` of cli/src/main.rs sends.
use brewmble.Prelude.{
  ℕ, Bool, List, Result, Text, [], false, ok, true, ◌∷◌, ◌≡◌, arith, err, refl, lit, not, ◌&&◌,
  ◌||◌,
}
use brewmble.Cli.Config.{NodeConfig, Config}
use brewmble.Cli.Pin.{PinOutcome}
use brewmble.Cli.Session.{Session, save_config}
use brewmble.Cli.Pins.{validate_and_update_pins}
use brewmble.Cli.Pins.Saving.{check_pins}
use brewmble.Cli.Node.{
  send_all, Request, Answer, Output, chosen, requests, contact, run_targets, run_node,
  resolve_profile_nodes,
}

-- What is printed where there are no nodes, or with the rows of some.
abbrev pub table : List NodeConfig → List Text → List Text
table [] rows = lit "No nodes found." ∷ []
table (n ∷ ns) rows = lit "NODE\tSTATUS" ∷ rows

module _ (write : Config → Result Text (Unit {0})) (check : NodeConfig → Result Text PinOutcome)
    (build_client : Result Text (Unit {0})) (resolve_url : Text → Text)
    (send : ℕ → Text → Request → Answer) where
  run_targets_sends :
      (reboot_flag dry_run : Bool) (targets : List NodeConfig) (s : Session) (out : Output)
      → (run_targets write check build_client resolve_url send reboot_flag dry_run false targets
          s).0
        ≡ ok out
      → (out.sent ≡ requests resolve_url (chosen reboot_flag dry_run) targets)
        × (out.printed
            ≡ table targets (send_all resolve_url send 0 (chosen reboot_flag dry_run) targets))
  unfolding run_targets check_pins contact save_config send_all
  run_targets_sends reboot_flag dry_run [] s out h = ground arith
  run_targets_sends reboot_flag dry_run (n ∷ ns) s out h = ground arith

  run_targets_succeeds :
      (reboot_flag dry_run : Bool) (targets : List NodeConfig) (s : Session)
      → ((c : Config) → write c ≡ ok tt)
      → build_client ≡ ok tt
      → (out : Output) × ((run_targets write check build_client resolve_url send reboot_flag dry_run
            false targets s).0
          ≡ ok out)
  unfolding run_targets check_pins contact save_config
  run_targets_succeeds reboot_flag dry_run [] s w b = (_, refl)
  run_targets_succeeds reboot_flag dry_run (n ∷ ns) s w b =
      let h = w (validate_and_update_pins check s.config (n ∷ ns)).0 in
      (
        record {
          sent = requests resolve_url (chosen reboot_flag dry_run) (n ∷ ns);
          printed =
              lit "NODE\tSTATUS"
              ∷ send_all resolve_url send 0 (chosen reboot_flag dry_run) (n ∷ ns);
        },
        ground arith,
      )

  -- An upgrade or a reboot (a dry run for upgrades only) whose names stand for nodes succeeds, if
  -- the configuration can be saved and the client can be built. It sends exactly one request to
  -- each of those nodes, in order; a reboot if that is asked for, whether or not an upgrade is
  -- asked for too. It prints the rows for their answers.
  pub run_node_sends :
      (full_upgrade reboot_flag dry_run : Bool) (names : List Text) (s : Session)
      (targets : List NodeConfig)
      → (full_upgrade || reboot_flag) ≡ true
      → (dry_run && not full_upgrade) ≡ false
      → resolve_profile_nodes names s.config ≡ ok targets
      → ((c : Config) → write c ≡ ok tt)
      → build_client ≡ ok tt
      → (out : Output) × ((run_node write check build_client resolve_url send full_upgrade
            reboot_flag dry_run false names s).0
          ≡ ok out)
        × (out.sent ≡ requests resolve_url (chosen reboot_flag dry_run) targets)
        × (out.printed
            ≡ table targets (send_all resolve_url send 0 (chosen reboot_flag dry_run) targets))
  unfolding run_node
  run_node_sends full_upgrade reboot_flag dry_run names s targets asked fits h w b =
      let (out, r) = run_targets_succeeds reboot_flag dry_run targets s w b in
      let (sent, printed) = run_targets_sends reboot_flag dry_run targets s out r in
      (out, ground arith, sent, printed)

  -- A listing sends nothing and changes nothing.
  pub run_node_lists :
      (full_upgrade reboot_flag dry_run : Bool) (names : List Text) (s : Session) (out : Output)
      → (run_node write check build_client resolve_url send full_upgrade reboot_flag dry_run true
          names s).0
        ≡ ok out
      → (out.sent ≡ [])
        × ((run_node write check build_client resolve_url send full_upgrade reboot_flag dry_run true
              names s).1
            ≡ s)
  unfolding run_node run_targets
  run_node_lists full_upgrade reboot_flag dry_run names s out h = ground arith

module _ (write : Config → Result Text (Unit {0}))
    (check check' : NodeConfig → Result Text PinOutcome) (build_client : Result Text (Unit {0}))
    (resolve_url : Text → Text) (send : ℕ → Text → Request → Answer) where
  run_targets_ignores_pins :
      (reboot_flag dry_run listed : Bool) (targets : List NodeConfig) (s : Session)
      → ((c : Config) → write c ≡ ok tt)
      → (run_targets write check build_client resolve_url send reboot_flag dry_run listed targets
          s).0
        ≡ (run_targets write check' build_client resolve_url send reboot_flag dry_run listed targets
            s).0
  unfolding run_targets check_pins contact save_config
  run_targets_ignores_pins reboot_flag dry_run listed [] s w = refl
  run_targets_ignores_pins reboot_flag dry_run listed (n ∷ ns) s w =
      let h = w (validate_and_update_pins check s.config (n ∷ ns)).0 in
      let k = w (validate_and_update_pins check' s.config (n ∷ ns)).0 in ground arith

  -- If the configuration can be saved, what is sent and printed does not depend on the pin checks:
  -- a node whose fingerprint does not match is sent its request all the same.
  pub run_node_ignores_pins :
      (full_upgrade reboot_flag dry_run listed : Bool) (names : List Text) (s : Session)
      → ((c : Config) → write c ≡ ok tt)
      → (run_node write check build_client resolve_url send full_upgrade reboot_flag dry_run listed
          names s).0
        ≡ (run_node write check' build_client resolve_url send full_upgrade reboot_flag dry_run
            listed names s).0
  unfolding run_node
  run_node_ignores_pins full_upgrade reboot_flag dry_run listed names s w =
      go (resolve_profile_nodes names s.config) refl
    where
      go :
          (r : Result Text (List NodeConfig))
          → resolve_profile_nodes names s.config ≡ r
          → (run_node write check build_client resolve_url send full_upgrade reboot_flag dry_run
              listed names s).0
            ≡ (run_node write check' build_client resolve_url send full_upgrade reboot_flag dry_run
                listed names s).0
      go (err e) h = ground arith
      go (ok targets) h =
          let k = run_targets_ignores_pins reboot_flag dry_run listed targets s w in ground arith
