-- ===== src/Cli/Program/Reloaded.antt =====
-- What every run of the program of cli/src leaves in the configuration's file, and how the next run
-- loads it.
use brewmble.Prelude.{
  Bool, List, Option, Result, Result-cases, Text, inl, inr, none, ok, some, true, ◌≡◌, ℕ, lines,
  all, false, subst, sym,
}
use brewmble.Prelude.Exec.{Exec, Keeps}
use brewmble.Cli.Config.{Config, default_config, load_config}
use brewmble.Cli.Config.Stored.{
  IsStored, IsStored-default, load_config-IsStored, load_config-stored,
}
use brewmble.Cli.Profile.{run_profile}
use brewmble.Cli.Session.{Session}
use brewmble.Cli.Session.Keeping.{IsKept, IsStoredIf}
use brewmble.Cli.Session.Commands.{
  run_status-Keeps, run_node-Keeps, run_repin-Keeps, run_version-Keeps,
}
use brewmble.Cli.Session.Profiles.{run_profile-Keeps}
use brewmble.Cli.Session.Discovering.{IsLeftKept, run_discover-IsKept}
use brewmble.Cli.Main.{
  Commands, discover, status, node, profile, ca, cert, version, dispatch, noted, node_or_repin,
  main,
}
use brewmble.Cli.Program.{
  Home, Platform, located, loaded, in_session, printing, heard, profile_platform, discover_nodes,
  show_status, send_to_nodes, repin_node, show_versions, runs, run_main,
}

module _ {S : Type 0} (platform : Platform S) where
  -- What the file holds, if it was written.
  abbrev pub IsHeld : Home S → Type 0
  IsHeld h = IsStoredIf h.saved

  in_session-Keeps :
      {A : Type 0} (config : Config) (act : Exec Session A)
      → IsStored config
      → Keeps IsKept act
      → Keeps IsHeld (in_session platform config act)
  in_session-Keeps config act c k h p =
      (k (record { config = config; saved = h.saved }) (record { config = c; saved = p })).saved

  printing-Keeps :
      {A : Type 0} (lines : A → List Text) (act : Exec (Home S) A)
      → Keeps IsHeld act
      → Keeps IsHeld (printing platform lines act)
  printing-Keeps lines act k h p = k h p

  heard-IsKept :
      (s : Session) (o : Option (Result Text (List Text) × Session))
      → IsKept s
      → IsLeftKept o
      → IsKept (heard platform s o).1
  heard-IsKept s none h k = h
  heard-IsKept s (some (r, t)) h k = k

  discover_nodes-Keeps :
      (seconds : ℕ) (update : Bool) → Keeps IsKept (discover_nodes platform seconds update)
  unfolding discover_nodes
  discover_nodes-Keeps seconds update s h = heard-IsKept s _ h (
      run_discover-IsKept platform.write (loaded platform)
        (load_config-IsStored (platform.exists (located platform).0)
          (platform.read (located platform).0) platform.from_yaml)
        platform.resolver platform.receive _ platform.now _ update s h)

  noted-Keeps :
      (missing : Bool) (run : Exec (Home S) (List Text))
      → Keeps IsHeld run
      → Keeps IsHeld (noted (runs platform) missing run)
  noted-Keeps missing run k h p = elim (Result-cases (run h).0) [
    | inl (printed, e) ↦ rw (e, noted) (k h p)
    | inr (x, e) ↦ rw (e, noted) (k h p)
  ]

  node_or_repin-Keeps :
      (o : Option Text) (repin : Text → Exec (Home S) (List Text)) (run : Exec (Home S) (List Text))
      → ((name : Text) → Keeps IsHeld (repin name))
      → Keeps IsHeld run
      → Keeps IsHeld (node_or_repin (runs platform) o repin run)
  node_or_repin-Keeps none repin run k l h p = l h p
  node_or_repin-Keeps (some name) repin run k l h p = k name h p

  show_status-Keeps :
      (all : Bool) (targets : List Text) (config : Config)
      → IsStored config
      → Keeps IsHeld (show_status platform all targets config)
  unfolding show_status
  show_status-Keeps all targets config c h p =
      (run_status-Keeps _ _ _ _ _ all targets _ (record { config = c; saved = p })).saved

  send_to_nodes-Keeps :
      (full_upgrade reboot dry_run listed : Bool) (names : List Text) (config : Config)
      → IsStored config
      → Keeps IsHeld (send_to_nodes platform full_upgrade reboot dry_run listed names config)
  unfolding send_to_nodes
  send_to_nodes-Keeps full_upgrade reboot dry_run listed names config c h p =
      (run_node-Keeps _ _ _ _ _ full_upgrade reboot dry_run listed names _
        (record { config = c; saved = p })).saved

  repin_node-Keeps :
      (name : Text) (config : Config)
      → IsStored config
      → Keeps IsHeld (repin_node platform name config)
  unfolding repin_node
  repin_node-Keeps name config c h p =
      (run_repin-Keeps _ _ _ _ _ name _ (record { config = c; saved = p })).saved

  show_versions-Keeps :
      (config : Config) → IsStored config → Keeps IsHeld (show_versions platform config)
  unfolding show_versions
  show_versions-Keeps config c h p =
      (run_version-Keeps _ _ _ _ _ _ _ (record { config = c; saved = p })).saved

  dispatch-Keeps :
      (command : Option Commands) (config : Config) (exists : Bool)
      → IsStored config
      → Keeps IsHeld (dispatch (runs platform) command config exists)
  unfolding dispatch runs
  dispatch-Keeps none config exists c h p = p
  dispatch-Keeps (some (discover seconds update)) config exists c h p =
      in_session-Keeps default_config (discover_nodes platform seconds update) IsStored-default
        (discover_nodes-Keeps seconds update) h p
  dispatch-Keeps (some (status all targets)) config exists c h p =
      noted-Keeps _ (show_status platform all targets config)
        (show_status-Keeps all targets config c) h p
  dispatch-Keeps (some (node full_upgrade reboot dry_run listed repin nodes)) config exists c h p =
      noted-Keeps _
        (node_or_repin (runs platform) repin (λ name. repin_node platform name config)
          (send_to_nodes platform full_upgrade reboot dry_run listed nodes config))
        (node_or_repin-Keeps repin (λ name. repin_node platform name config)
          (send_to_nodes platform full_upgrade reboot dry_run listed nodes config)
          (λ name. repin_node-Keeps name config c)
          (send_to_nodes-Keeps full_upgrade reboot dry_run listed nodes config c))
        h p
  dispatch-Keeps (some (profile subcommand)) config exists c h p =
      in_session-Keeps config
        (run_profile (profile_platform platform) (located platform).0 subcommand) c
        (run_profile-Keeps (profile_platform platform) (located platform).0 subcommand) h p
  dispatch-Keeps (some (ca subcommand)) config exists c h p = p
  dispatch-Keeps (some (cert subcommand)) config exists c h p = p
  dispatch-Keeps (some version) config exists c h p = show_versions-Keeps config c h p

  -- Whatever the command line and however the run ends, what it leaves in the file may be stored.
  run_main-IsHeld :
      (version_flag : Bool) (command : Option Commands) (h : Home S)
      → IsHeld h
      → IsHeld (run_main platform version_flag command h).1
  unfolding run_main main
  run_main-IsHeld true command h p = p
  run_main-IsHeld false command h p = elim (Result-cases (loaded platform)) [
    | inl (config, e) ↦ rw e (
        dispatch-Keeps command config (located platform).1
          (load_config-IsStored _ _ platform.from_yaml config e) h p)
    | inr (x, e) ↦ rw e p
  ]

  -- Whatever the command line, what the network answers and how the run ends: a configuration that
  -- a run writes has its active profile, no node outside a profile and no control character in the
  -- name of a node, and a run that reads it back from the file's text loads it unchanged.
  pub run_main_reloaded :
      (version_flag : Bool) (command : Option Commands) (h : Home S) (config : Config) (text : Text)
      → h.saved ≡ none
      → (run_main platform version_flag command h).1.saved ≡ some config
      → platform.from_yaml text ≡ ok config
      → IsStored config × (load_config true (ok text) platform.from_yaml ≡ ok config)
  run_main_reloaded version_flag command h config text fresh written reads =
      let stored : IsStored config =
        subst IsStoredIf written
          (run_main-IsHeld version_flag command h (subst IsStoredIf (sym fresh) tt)) in
      (stored, load_config-stored platform.from_yaml text config stored reads)
