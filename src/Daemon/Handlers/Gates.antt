-- ===== src/Daemon/Handlers/Gates.antt =====
-- When the handlers of daemon/src/main.rs start an upgrade or schedule a reboot, and what they
-- leave alone otherwise.
use brewmble.Prelude.{suc, ◌∷◌, some, true, false, ◌≡◌, refl, ◌⊎◌, arith}
use brewmble.Rest.{UpgradeRequest, RebootRequest, StatusCode}
use brewmble.Daemon.Manager.{PackageManager}
use brewmble.Daemon.Handlers.{AppState, Node, status_handler, full_upgrade_handler, reboot_handler}

-- What a request that starts nothing leaves alone: all but the package manager's state.
pub record SameTasks {P : PackageManager} (n n' : Node P) : Type 0 where
  pub flag : n'.is_upgrading ≡ n.is_upgrading
  pub handle : n'.upgrade_handle ≡ n.upgrade_handle
  pub tasks : n'.tasks ≡ n.tasks
  pub next_task : n'.next_task ≡ n.next_task
  pub reboots : n'.reboots ≡ n.reboots

module _ (P : PackageManager) where
  pub SameTasks-refl : (n : Node P) → SameTasks n n
  SameTasks-refl n = record {
    flag = refl;
    handle = refl;
    tasks = refl;
    next_task = refl;
    reboots = refl;
  }

  -- When the flag is free, an upgrade request that is no dry run answers OK, takes the flag and
  -- starts exactly one new task, whose handle it stores; it touches neither the package manager nor
  -- the scheduled reboots.
  pub full_upgrade_handler_starts :
      (app : AppState) (payload : UpgradeRequest) (n : Node P)
      → app.pm_available ≡ true
      → payload.dry_run ≡ false
      → n.is_upgrading ≡ false
      → ((full_upgrade_handler P app payload n).0.0 ≡ StatusCode.ok)
        × ((full_upgrade_handler P app payload n).1 ≡ record n {
          is_upgrading = true;
          upgrade_handle = some n.next_task;
          tasks = n.next_task ∷ n.tasks;
          next_task = suc n.next_task;
        })
  unfolding full_upgrade_handler
  full_upgrade_handler_starts app payload n h k l = ground arith

  -- In every other case (no package manager, a dry run, or an upgrade that runs) the request leaves
  -- the flag, the handle, the tasks and the reboots as they are.
  pub full_upgrade_handler_refuses :
      (app : AppState) (payload : UpgradeRequest) (n : Node P)
      → (app.pm_available ≡ false) ⊎ (payload.dry_run ≡ true) ⊎ (n.is_upgrading ≡ true)
      → SameTasks n (full_upgrade_handler P app payload n).1
  unfolding full_upgrade_handler
  full_upgrade_handler_refuses app payload n h = ground arith

  -- A reboot request answers OK and schedules one reboot with the requested delay, if a package
  -- manager is available, no upgrade runs at that time, and reboots are allowed; if one of these
  -- does not hold then it answers otherwise and nothing changes.
  pub reboot_handler_cases :
      (app : AppState) (payload : RebootRequest) (n : Node P)
      → ((app.pm_available ≡ true)
          × (n.is_upgrading ≡ false)
          × (app.allow_reboot ≡ true)
          × ((reboot_handler P app payload n).0.0 ≡ StatusCode.ok)
          × ((reboot_handler P app payload n).1
              ≡ record n { reboots = payload.delay_secs ∷ n.reboots }))
        ⊎ (((app.pm_available ≡ false) ⊎ (n.is_upgrading ≡ true) ⊎ (app.allow_reboot ≡ false))
            × ¬ ((reboot_handler P app payload n).0.0 ≡ StatusCode.ok)
            × ((reboot_handler P app payload n).1 ≡ n))
  unfolding reboot_handler
  reboot_handler_cases app payload n = ground arith

  -- A status request leaves the flag, the handle, the tasks and the reboots as they are.
  pub status_handler_keeps : (app : AppState) (n : Node P) → SameTasks n (status_handler P app n).1
  unfolding status_handler
  status_handler_keeps app n = ground arith
