-- ===== src/Cli/Session/Commands.antt =====
-- Each command of cli/src/main.rs keeps what a stored configuration is, in memory and in the file.
use brewmble.Prelude.{
  ℕ, Bool, List, Option, Result, Text, [], err, inl, inr, none, ok, refl, some, ◌≡◌, ◌∷◌,
  Result-cases, Option-cases, not, ◌&&◌, lit, false, true, ◌++◌, ◌⊎◌, subst, sym,
}
use brewmble.Prelude.Exec.{Keeps, >>=-Keeps, if_keeps}
use brewmble.Prelude.Dict.{get}
use brewmble.Cli.Config.{NodeConfig, ProfileConfig, Config}
use brewmble.Cli.Config.Stored.{IsStored}
use brewmble.Cli.Pin.{PinOutcome, learned, matched, node_name}
use brewmble.Cli.Pins.{update_node_fingerprint}
use brewmble.Cli.Pins.Saving.{check_pins}
use brewmble.Cli.Node.{
  Request, Answer, resolve_profile_nodes, contact, run_targets, run_node, find_address, forget,
  learn_again, run_repin, chosen,
}
use brewmble.Cli.Status.{Sent, StatusReport}
use brewmble.Cli.Status.Targets.{profile_nodes, initial_targets, nodes_to_validate, queue}
use brewmble.Cli.Status.Workers.{Pool, start_pool}
use brewmble.Cli.Status.Running.{end_status, run_status, run_pool, found}
use brewmble.Cli.Version.{
  Round, checked, version_rounds, start_round, finish_version, profile_version, run_version, keep,
}
use brewmble.Cli.Session.{Session, save_config}
use brewmble.Cli.Session.Pinning.{update_node_fingerprint-IsStored, update_active-IsStored}
use brewmble.Cli.Session.Keeping.{
  IsKept, with_config-IsKept, save_config-Keeps, saved_keeps, check_pins-Keeps,
}

outcome_cases :
    (r : Result Text PinOutcome)
    → ((fp : Text) × (r ≡ ok (learned fp))) ⊎ (r ≡ ok matched) ⊎ ((e : Text) × (r ≡ err e))
outcome_cases (ok (learned fp)) = inl (fp, refl)
outcome_cases (ok matched) = inr (inl refl)
outcome_cases (err e) = inr (inr (e, refl))

module _ (write : Config → Result Text (Unit {0})) (check : NodeConfig → Result Text PinOutcome)
    (build_client : Result Text (Unit {0})) where
  module _ (query : Text → StatusReport) (discovered : Option (List (Text × Text))) where
    end_status-Keeps :
        (r : Result Text (Unit {0})) (p : Pool)
        → Keeps IsKept (end_status write check build_client query discovered r p)
    end_status-Keeps (err e) p s h = h
    end_status-Keeps (ok u) p s h = h

    pub run_status-Keeps :
        (discover_all : Bool) (targets : List Text)
        → Keeps IsKept (run_status write check build_client query discovered discover_all targets)
    unfolding run_status
    run_status-Keeps discover_all targets s h =
        let nodes = profile_nodes s.config in
        let initial = initial_targets discover_all targets nodes in
        let queued = queue nodes initial ++ found discover_all discovered in
        let chosen_nodes = nodes_to_validate discover_all initial nodes in
        let pool = run_pool query queued (start_pool queued) in
        >>=-Keeps IsKept (check_pins write check chosen_nodes)
          (λ _. end_status write check build_client query discovered build_client pool)
          (check_pins-Keeps write check chosen_nodes) (λ _. end_status-Keeps build_client pool) s h

  module _ (resolve_url : Text → Text) (send : ℕ → Text → Request → Answer) where
    contact-Keeps :
        (r : Request) (nodes : List NodeConfig)
        → Keeps IsKept (contact write check build_client resolve_url send r nodes)
    unfolding contact
    contact-Keeps r nodes s h = elim (Result-cases build_client) [
      | inl (u, e) ↦ rw (e, contact) h
      | inr (x, e) ↦ rw (e, contact) h
    ]

    run_targets-Keeps :
        (reboot_flag dry_run listed : Bool) (nodes : List NodeConfig)
        → Keeps IsKept
            (run_targets write check build_client resolve_url send reboot_flag dry_run listed nodes)
    unfolding run_targets
    run_targets-Keeps reboot_flag dry_run listed [] s h = h
    run_targets-Keeps reboot_flag dry_run true (n ∷ ns) s h = h
    run_targets-Keeps reboot_flag dry_run false (n ∷ ns) s h =
        >>=-Keeps IsKept (check_pins write check (n ∷ ns))
          (λ _.
            contact write check build_client resolve_url send (chosen reboot_flag dry_run) (n ∷ ns))
          (check_pins-Keeps write check (n ∷ ns))
          (λ _. contact-Keeps (chosen reboot_flag dry_run) (n ∷ ns)) s h

    pub run_node-Keeps :
        (full_upgrade reboot_flag dry_run listed : Bool) (names : List Text)
        → Keeps IsKept (
            run_node write check build_client resolve_url send full_upgrade reboot_flag dry_run
              listed names)
    unfolding run_node
    run_node-Keeps full_upgrade reboot_flag dry_run listed names s h =
        if_keeps IsKept (not full_upgrade && not reboot_flag && not listed) _ _ h (
          if_keeps IsKept (dry_run && not full_upgrade) _ _ h
            (elim (Result-cases (resolve_profile_nodes names s.config)) [
              | inl (targets, e) ↦ rw e (run_targets-Keeps reboot_flag dry_run listed targets s h)
              | inr (x, e) ↦ rw e h
            ]))

    learn_again-Keeps :
        (o : Option NodeConfig)
        → Keeps IsKept (learn_again write check build_client resolve_url send o)
    unfolding learn_again
    learn_again-Keeps none s h = h
    learn_again-Keeps (some n) s h = elim (outcome_cases (check n)) [
      | inl (fp, e) ↦
          rw (e, learn_again)
            (saved_keeps write ((lit "Re-pinned " ++ (node_name n ++ (lit " " ++ fp))) ∷ []) _ (
              with_config-IsKept s (update_node_fingerprint s.config n.address fp) h
                (update_node_fingerprint-IsStored s.config n.address fp h.config)))
      | inr (inl e) ↦ rw (e, learn_again) h
      | inr (inr (x, e)) ↦ rw (e, learn_again) h
    ]

    pub run_repin-Keeps :
        (wanted : Text) → Keeps IsKept (run_repin write check build_client resolve_url send wanted)
    unfolding run_repin forget
    run_repin-Keeps wanted s h =
        elim (Option-cases (
          find_address write check build_client resolve_url send wanted
            (get s.config.active_profile s.config.profiles))) [
              | inl e ↦ rw (e, run_repin) h
              | inr (address, e) ↦
                  rw (e, run_repin)
                    (learn_again-Keeps _ _ (
                      with_config-IsKept s _ h (
                        update_active-IsStored address none _
                          (update_node_fingerprint-IsStored s.config address [] h.config))))
            ]

  module _ (resolve_url : Text → Text) (request : Text → Sent) where
    checked-IsStored :
        (n : NodeConfig) (r : Result Text PinOutcome) (round : Round)
        → IsStored round.config
        → IsStored (checked check resolve_url request n r round).config
    checked-IsStored n (ok (learned fp)) round h =
        update_node_fingerprint-IsStored round.config n.address fp h
    checked-IsStored n (ok matched) round h = h
    checked-IsStored n (err e) round h = h

    version_rounds-IsStored :
        (nodes : List NodeConfig) (round : Round)
        → IsStored round.config
        → IsStored (version_rounds check resolve_url request nodes round).config
    unfolding version_rounds
    version_rounds-IsStored [] round h = h
    version_rounds-IsStored (n ∷ ns) round h =
        version_rounds-IsStored ns (checked check resolve_url request n (check n) round)
          (checked-IsStored n (check n) round h)

    keep-state :
        (round : Round) (x : Result Text (Unit {0}) × Session)
        → (keep check resolve_url request write build_client round x).1 ≡ x.1
    keep-state round (ok u, s) = refl
    keep-state round (err e, s) = refl

    finish_version-IsKept :
        (round : Round) (s : Session)
        → IsKept s
        → IsStored round.config
        → IsKept (finish_version check resolve_url request write build_client round s).1
    finish_version-IsKept round s h k =
        let stored = with_config-IsKept s round.config h k in
        if_keeps IsKept round.pin_updated _ _
          (subst IsKept
            (sym (keep-state round (save_config write (record s { config = round.config }))))
            (save_config-Keeps write _ stored))
          stored

    profile_version-Keeps :
        (version : Text) (o : Option ProfileConfig)
        → Keeps IsKept (profile_version check resolve_url request write build_client version o)
    profile_version-Keeps version none s h = h
    profile_version-Keeps version (some p) s h = elim (Result-cases build_client) [
      | inl (u, e) ↦ rw e (
          finish_version-IsKept _ s h (
            version_rounds-IsStored p.nodes (start_round check resolve_url request s.config version)
              h.config))
      | inr (x, e) ↦ rw e h
    ]

    pub run_version-Keeps :
        (version : Text)
        → Keeps IsKept (run_version check resolve_url request write build_client version)
    unfolding run_version
    run_version-Keeps version s h =
        profile_version-Keeps version (get s.config.active_profile s.config.profiles) s h
