-- ===== src/Daemon/Tests/Ending.antt =====
-- The end of the service at concrete inputs: a signal comes while an upgrade runs.
use brewmble.Prelude.{
  Option, Result, Text, [], err, lit, none, ok, refl, some, true, false, ◌∷◌, ◌≡◌, ◌↔◌, ℕ, inr,
}
use brewmble.Daemon.Manager.{PackageManager}
use brewmble.Daemon.Handlers.{AppState, Node, start}
use brewmble.Daemon.Upgrade.{System, initial, Reach}
use brewmble.Daemon.Shutdown.{
  Finished, Joined, elapsed, left_running, lifetime, server_result, shutdown_signal,
  wait_for_upgrade,
}
use brewmble.Daemon.Shutdown.Ended.{lifetime_forever, lifetime_settles}
use brewmble.Daemon.Shutdown.Left.{upgrade_left_running}

abbrev apt : PackageManager
apt = record {
  State = Unit {0};
  name = lit "apt";
  version = λ s. (lit "2.6.1", s);
  is_available = λ s. (true, s);
  get_updates = λ s. (ok [], s);
  dry_run_upgrade = λ s. (ok [], s);
  full_upgrade = λ s. (ok tt, s);
  auto_clean = λ s. (ok tt, s);
  auto_remove = λ s. (ok tt, s);
}

abbrev app : AppState
app = record {
  allow_reboot = true;
  auto_clean = true;
  auto_remove = true;
  pm_available = true;
  pm_version = lit "2.6.1";
  daemon_version = lit "0.1.0";
}

abbrev upgrading : Node apt
upgrading = record (start apt tt) {
  is_upgrading = true;
  upgrade_handle = some 0;
  tasks = 0 ∷ [];
  next_task = 1;
}

-- The upgrade takes longer than the daemon waits.
abbrev slow : ℕ → Joined
slow task = elapsed

abbrev stopped : Finished apt
stopped = record {
  stopped = record {
    node = record upgrading { upgrade_handle = none };
    aborted = 0 ∷ [];
    logged = lit "upgrade task did not finish in time; aborted" ∷ [];
  };
  withdrawn = none;
  logged = lit "upgrade task did not finish in time; aborted" ∷ [];
}

ends_at_7 :
    lifetime apt slow (ok tt) none false none (ok none) (ok (some 7)) upgrading ≡ some stopped
unfolding lifetime server_result shutdown_signal wait_for_upgrade
ends_at_7 = refl

lifetime_settles_example :
    (left_running apt stopped.stopped ≡ []) × (stopped.stopped.node.upgrade_handle ≡ none)
lifetime_settles_example =
    lifetime_settles apt slow (ok tt) none false none (ok none) (ok (some 7)) upgrading stopped
      (inr (0, refl, refl)) ends_at_7

abbrev no_server : Option (ℕ × Result Text (Unit {0}))
no_server = none

abbrev refused : Result Text (Option ℕ)
refused = err (lit "no handler")

abbrev waiting : Result Text (Option ℕ)
waiting = ok none

lifetime_forever_example :
    lifetime apt slow (ok tt) none false none refused waiting upgrading ≡ none
    ↔ (no_server ≡ none) × (refused ≡ ok none) × (waiting ≡ ok none)
lifetime_forever_example =
    lifetime_forever apt slow (ok tt) none false none refused waiting upgrading

upgrade_left_running_example :
    (s : System apt) × Reach apt app (initial apt tt) s
    × (s.claimed ≡ 0)
    × (s.unstored ≡ [])
    × (s.node.tasks ≡ 1 ∷ [])
    × (s.node.upgrade_handle ≡ some 0)
    × ((await : ℕ → Joined) → left_running apt (wait_for_upgrade apt await s.node) ≡ 1 ∷ [])
upgrade_left_running_example = upgrade_left_running apt app tt refl
