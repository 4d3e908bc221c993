-- ===== src/Daemon/Apt/Upgrading.antt =====
-- The commands and the result of `full_upgrade` of apt.rs.
use brewmble.Prelude.{Bool, List, arith, false, if◌then◌else◌, is_ok, true, ◌∷◌, ◌≡◌}
use brewmble.Daemon.World.{Command, World, Machine, run, run_with_env}
use brewmble.Daemon.Apt.{
  Apt, full_upgrade, run_cleanup, auto_clean, auto_remove, cleanup_step, run_async,
  run_async_with_env,
}
use brewmble.Daemon.Apt.Commands.{upgrade_command, clean_command, remove_command}
use brewmble.Daemon.Apt.Caching.{Succeeds, after}

-- The log after a command that runs only if a flag is set.
abbrev pub when : Bool → Command → List Command → List Command
when flag c log = if flag then c ∷ log else log

module _ (machine : Machine) where
  auto_clean_state :
      (apt : Apt) (w : World)
      → (auto_clean machine (apt, w)).1 ≡ (apt, after machine w clean_command)
  unfolding auto_clean cleanup_step run_async run
  auto_clean_state apt w = ground arith

  auto_remove_state :
      (apt : Apt) (w : World)
      → (auto_remove machine (apt, w)).1 ≡ (apt, after machine w remove_command)
  unfolding auto_remove cleanup_step run_async run
  auto_remove_state apt w = ground arith

  run_cleanup_log :
      (apt : Apt) (w : World)
      → (run_cleanup machine (apt, w)).1.log
        ≡ when apt.auto_remove remove_command (when apt.auto_clean clean_command w.log)
  unfolding run_cleanup
  run_cleanup_log apt w = ground (
    arith,
    auto_clean_state apt w,
    auto_remove_state apt w,
    auto_remove_state apt (after machine w clean_command),
  )

  -- After an upgrade command that succeeds, `full_upgrade` succeeds whatever the cleanup does, and
  -- has run exactly the configured cleanup commands, autoclean before autoremove.
  pub full_upgrade-Succeeds :
      (apt : Apt) (w : World)
      → Succeeds (machine.answer w upgrade_command)
      → (is_ok (full_upgrade machine (apt, w)).0 ≡ true)
        × ((full_upgrade machine (apt, w)).1.1.log
            ≡ when apt.auto_remove remove_command
                (when apt.auto_clean clean_command (upgrade_command ∷ w.log)))
  unfolding full_upgrade run_async_with_env run_with_env
  full_upgrade-Succeeds apt w h =
      ground (arith, run_cleanup_log apt (after machine w upgrade_command))

  -- After an upgrade command that fails, `full_upgrade` fails and runs no cleanup.
  pub full_upgrade_fails :
      (apt : Apt) (w : World)
      → ¬ Succeeds (machine.answer w upgrade_command)
      → (is_ok (full_upgrade machine (apt, w)).0 ≡ false)
        × ((full_upgrade machine (apt, w)).1 ≡ (apt, after machine w upgrade_command))
  unfolding full_upgrade run_async_with_env run_with_env
  full_upgrade_fails apt w h = ground arith
