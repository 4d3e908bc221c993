-- ===== src/Daemon/Shutdown.antt =====
-- The end of `main` of daemon/src/main.rs: what ends the server, the wait for the upgrade task
-- whose handle is stored, and the withdrawal of the announcement. When signals come, how the server
-- ends and how the task ends within the thirty seconds are parameters. Nothing else is modelled to
-- happen during the wait.
pub mod Ended
pub mod Left
use brewmble.Prelude.{
  Bool, List, Option, Result, Text, [], any, err, filter, if◌then◌else◌, leb, lit, ltb, none, not,
  ok, some, ℕ, ◌++◌, ◌==◌, ◌∷◌, false,
}
use brewmble.Daemon.Announce.{ServiceInfo}
use brewmble.Daemon.Manager.{PackageManager}
use brewmble.Daemon.Handlers.{Node, finish_upgrade}

-- The handler of a signal cannot be installed, or waits for the time at which the signal comes, if
-- it does. In both cases but the last its future completes.
abbrev pub completes : Result Text (Option ℕ) → Option ℕ
completes (err e) = some 0
completes (ok time) = time

abbrev pub earlier : Option ℕ → Option ℕ → Option ℕ
earlier none b = b
earlier (some a) none = some a
earlier (some a) (some b) = if leb a b then some a else some b

-- When `shutdown_signal` completes, for Ctrl-C and for SIGTERM.
unfoldable pub shutdown_signal : Result Text (Option ℕ) → Result Text (Option ℕ) → Option ℕ
shutdown_signal ctrl_c terminate = earlier (completes ctrl_c) (completes terminate)

-- The `select!` of the server, which ends at a time with a result, and of the shutdown. If both are
-- ready at once, either may be taken.
unfoldable pub server_result :
    Bool → Option (ℕ × Result Text (Unit {0})) → Option ℕ → Option (Result Text (Unit {0}))
server_result server_first none none = none
server_result server_first none (some u) = some (ok tt)
server_result server_first (some (t, result)) none = some result
server_result server_first (some (t, result)) (some u) =
    if ltb t u
    then some result
    else if ltb u t
    then some (ok tt)
    else if server_first
    then some result
    else some (ok tt)

pub data Joined : Type 0 where
  finished : Joined
  failed : Text → Joined
  elapsed : Joined

-- The tasks that were aborted, and what was logged.
pub record Stopped (P : PackageManager) : Type 0 where
  pub node : Node P
  pub aborted : List ℕ
  pub logged : List Text

pub record Finished (P : PackageManager) : Type 0 where
  pub stopped : Stopped P
  pub withdrawn : Option ServiceInfo
  pub logged : List Text

module _ (P : PackageManager) where
  -- A task that panics drops its guard too. The handle may be that of a task that has ended.
  abbrev pub drop_guard : ℕ → Node P → Node P
  drop_guard task n = record n {
    is_upgrading = false;
    tasks = filter (λ t. not (t == task)) n.tasks;
  }

  abbrev pub is_running : ℕ → Node P → Bool
  is_running task n = any (λ t. t == task) n.tasks

  abbrev pub after_join : ℕ → Joined → Node P → Stopped P
  after_join task finished n = record {
    node = if is_running task n then finish_upgrade P task n else n;
    aborted = [];
    logged = lit "upgrade task finished cleanly" ∷ [];
  }
  after_join task (failed e) n = record {
    node = if is_running task n then drop_guard task n else n;
    aborted = [];
    logged = (lit "upgrade task panicked or was cancelled: " ++ e) ∷ [];
  }
  after_join task elapsed n = record {
    node = n;
    aborted = task ∷ [];
    logged = lit "upgrade task did not finish in time; aborted" ∷ [];
  }

  -- The upgrade tasks that have neither ended nor been aborted.
  unfoldable pub left_running : Stopped P → List ℕ
  left_running s = filter (λ t. not (any (λ a. a == t) s.aborted)) s.node.tasks

module _ (P : PackageManager) (await : ℕ → Joined) where
  abbrev pub wait_for : Option ℕ → Node P → Stopped P
  wait_for none n = record { node = n; aborted = []; logged = [] }
  wait_for (some task) n = after_join P task (await task) (record n { upgrade_handle = none })

  unfoldable pub wait_for_upgrade : Node P → Stopped P
  wait_for_upgrade n = wait_for n.upgrade_handle n

  module _ (mdns_shutdown : Result Text (Unit {0})) (announced : Option ServiceInfo) where
    abbrev error_line : Text → Result Text (Unit {0}) → List Text
    error_line message (ok _) = []
    error_line message (err e) = (message ++ e) ∷ []

    abbrev mdns_lines : Option ServiceInfo → List Text
    mdns_lines none = []
    mdns_lines (some info) = error_line (lit "mDNS shutdown error: ") mdns_shutdown

    -- What is withdrawn from the network, if the library succeeds.
    abbrev withdrawn_by : Result Text (Unit {0}) → Option ServiceInfo
    withdrawn_by (ok _) = announced
    withdrawn_by (err e) = none

    abbrev pub finish_service : Node P → Result Text (Unit {0}) → Finished P
    finish_service n result =
        let stopped = wait_for_upgrade n in
        record {
          stopped = stopped;
          withdrawn = withdrawn_by mdns_shutdown;
          logged =
              error_line (lit "https server error: ") result
              ++ (stopped.logged ++ mdns_lines announced);
        }

    abbrev pub finish_on : Node P → Option (Result Text (Unit {0})) → Option (Finished P)
    finish_on n none = none
    finish_on n (some result) = some (finish_service n result)

    -- The service from its start to its end, with the state that the requests have left: `none` if
    -- it goes on for ever.
    unfoldable pub lifetime :
        Bool
        → Option (ℕ × Result Text (Unit {0}))
        → Result Text (Option ℕ)
        → Result Text (Option ℕ)
        → Node P
        → Option (Finished P)
    unfolding shutdown_signal server_result
    lifetime server_first server ctrl_c terminate n =
        finish_on n (server_result server_first server (shutdown_signal ctrl_c terminate))
