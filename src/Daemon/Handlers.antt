-- ===== src/Daemon/Handlers.antt =====
-- The state and the request handlers of daemon/src/main.rs. Log lines are left out. The daemon's
-- version (`CARGO_PKG_VERSION`) is part of the application's state here. No code panics while it
-- holds the lock on `upgrade_handle`, so the lock is never poisoned.
pub mod Gates
use brewmble.Prelude.{
  ℕ, suc, ◌==◌, List, [], ◌∷◌, ◌++◌, length, filter, Text, lit, decimal, Option, none, some, Bool,
  true, false, not, ok, err, if◌then◌else◌,
}
use brewmble.Rest.{
  StatusResponse, RebootRequest, RebootResponse, HealthResponse, UpgradeRequest, UpgradeResponse,
  StatusCode,
}
use brewmble.Daemon.Manager.{PackageManager}

-- The fields of `AppState` that never change.
pub record AppState : Type 0 where
  pub allow_reboot : Bool
  pub auto_clean : Bool
  pub auto_remove : Bool
  pub pm_available : Bool
  pub pm_version : Text
  pub daemon_version : Text

-- The fields that the handlers and the spawned tasks share: the flag, the handle of the upgrade
-- task that was stored last, the upgrade tasks that have not ended, the number of the next task,
-- the delays of the reboot tasks that wait, and the package manager.
pub record Node (P : PackageManager) : Type 0 where
  pub is_upgrading : Bool
  pub upgrade_handle : Option ℕ
  pub tasks : List ℕ
  pub next_task : ℕ
  pub reboots : List (Option ℕ)
  pub manager : P.State

module _ (P : PackageManager) where
  abbrev pub start : P.State → Node P
  start m = record {
    is_upgrading = false;
    upgrade_handle = none;
    tasks = [];
    next_task = 0;
    reboots = [];
    manager = m;
  }

  -- `compare_exchange(false, true)`: whether it succeeded, and the state after it.
  unfoldable pub claim : Node P → Bool × Node P
  claim n = if n.is_upgrading then (false, n) else (true, record n { is_upgrading = true })

  -- `tokio::spawn` of the upgrade task, and its handle.
  unfoldable pub spawn_upgrade : Node P → ℕ × Node P
  spawn_upgrade n =
      (n.next_task, record n { tasks = n.next_task ∷ n.tasks; next_task = suc n.next_task })

  -- `*guard = Some(handle)`.
  unfoldable pub store_handle : ℕ → Node P → Node P
  store_handle task n = record n { upgrade_handle = some task }

  -- The upgrade task from its start to its end: the upgrade, whose error is only logged, and the
  -- drop of `UpgradingGuard`.
  unfoldable pub finish_upgrade : ℕ → Node P → Node P
  finish_upgrade task n = record n {
    is_upgrading = false;
    tasks = filter (λ t. not (t == task)) n.tasks;
    manager = (P.full_upgrade n.manager).1;
  }

  unfoldable pub health_handler : AppState → Node P → HealthResponse
  health_handler app n = record {
    status = lit "ok";
    package_manager = P.name;
    package_manager_version = app.pm_version;
    is_upgrading = n.is_upgrading;
  }

  abbrev pub not_a_system : Text
  not_a_system = lit "the system is not a " ++ (P.name ++ lit " system")

  abbrev pub status_message : List Text → Text
  status_message [] = lit "System is up to date"
  status_message (u ∷ us) =
      lit "System has " ++ (decimal (length (u ∷ us)) ++ lit " outdated packages")

  abbrev pub status_response : AppState → Node P → Text → List Text → StatusResponse
  status_response app n message updates = record {
    message = message;
    updates = updates;
    is_upgrading = n.is_upgrading;
    daemon_version = some app.daemon_version;
    allow_reboot = app.allow_reboot;
    auto_clean = app.auto_clean;
    auto_remove = app.auto_remove;
  }

  unfoldable pub status_handler : AppState → Node P → (StatusCode × StatusResponse) × Node P
  status_handler app n =
      if not app.pm_available
      then ((StatusCode.precondition_failed, status_response app n not_a_system []), n)
      else let (r, m) = P.get_updates n.manager in
        elim r [
          | ok updates ↦ (
            (StatusCode.ok, status_response app n (status_message updates) updates),
            record n { manager = m },
          )
          | err e ↦ (
            (
              StatusCode.internal_server_error,
              status_response app n (lit "Failed to check for updates: " ++ e) [],
            ),
            record n { manager = m },
          )
        ]

  abbrev pub upgrade_response : Text → Option (List Text) → UpgradeResponse
  upgrade_response message updates = record { message = message; updates = updates }

  unfoldable pub dry_run : Node P → (StatusCode × UpgradeResponse) × Node P
  dry_run n =
      let (r, m) = P.dry_run_upgrade n.manager in
      elim r [
        | ok updates ↦ (
          (StatusCode.ok, upgrade_response (lit "dry-run completed") (some updates)),
          record n { manager = m },
        )
        | err e ↦ (
          (StatusCode.internal_server_error, upgrade_response (lit "dry-run failed: " ++ e) none),
          record n { manager = m },
        )
      ]

  -- The accesses to the shared state from the exchange on, one after the other.
  unfoldable pub trigger : Node P → (StatusCode × UpgradeResponse) × Node P
  unfolding claim spawn_upgrade store_handle
  trigger n =
      let (claimed, n') = claim n in
      if not claimed
      then (
        (
          StatusCode.precondition_failed,
          upgrade_response (lit "a full upgrade is currently running") none,
        ),
        n',
      )
      else let (task, n'') = spawn_upgrade n' in
        (
          (StatusCode.ok, upgrade_response (lit "full upgrade triggered") none),
          store_handle task n'',
        )

  unfoldable pub full_upgrade_handler :
      AppState → UpgradeRequest → Node P → (StatusCode × UpgradeResponse) × Node P
  unfolding dry_run trigger
  full_upgrade_handler app payload n =
      if not app.pm_available
      then ((StatusCode.precondition_failed, upgrade_response not_a_system none), n)
      else if payload.dry_run
      then dry_run n
      else trigger n

  unfoldable pub reboot_handler :
      AppState → RebootRequest → Node P → (StatusCode × RebootResponse) × Node P
  reboot_handler app payload n =
      if not app.pm_available
      then ((StatusCode.precondition_failed, record { message = not_a_system }), n)
      else if n.is_upgrading
      then ((StatusCode.locked, record { message = lit "a full upgrade is currently running" }), n)
      else if not app.allow_reboot
      then (
        (StatusCode.forbidden, record { message = lit "reboot is not enabled on this daemon" }),
        n,
      )
      else (
        (StatusCode.ok, record { message = lit "reboot triggered" }),
        record n { reboots = payload.delay_secs ∷ n.reboots },
      )
