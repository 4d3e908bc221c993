-- ===== src/Daemon/Shutdown/Left.antt =====
-- What the end of the service of daemon/src/main.rs may leave behind: the race of `stale_handle`.
use brewmble.Prelude.{ℕ, [], ◌∷◌, true, ◌≡◌, arith, none, some}
use brewmble.Daemon.Manager.{PackageManager}
use brewmble.Daemon.Handlers.{AppState, Node, finish_upgrade}
use brewmble.Daemon.Upgrade.{System, initial, Reach}
use brewmble.Daemon.Upgrade.Races.{stale_handle}
use brewmble.Daemon.Shutdown.{
  Joined, finished, failed, elapsed, after_join, left_running, wait_for_upgrade,
}

module _ (P : PackageManager) where
  after_join-left :
      (joined : Joined) (n : Node P)
      → n.tasks ≡ 1 ∷ []
      → left_running P (after_join P 0 joined n) ≡ 1 ∷ []
  unfolding left_running finish_upgrade
  after_join-left finished n h = ground arith
  after_join-left (failed e) n h = ground arith
  after_join-left elapsed n h = ground arith

  -- Where a package manager is available, requests and tasks reach a state in which no request is
  -- under way and every handle is stored, only the upgrade task 1 runs, and the handle that is stored
  -- last is that of task 0, which does not run any more; and then the wait at the end of the service
  -- leaves task 1 running, whatever the wait for task 0 gives.
  pub upgrade_left_running :
      (app : AppState) (m : P.State)
      → app.pm_available ≡ true
      → (s : System P) × Reach P app (initial P m) s
        × (s.claimed ≡ 0)
        × (s.unstored ≡ [])
        × (s.node.tasks ≡ 1 ∷ [])
        × (s.node.upgrade_handle ≡ some 0)
        × ((await : ℕ → Joined) → left_running P (wait_for_upgrade P await s.node) ≡ 1 ∷ [])
  unfolding wait_for_upgrade
  upgrade_left_running app m h =
      let (s, reached, tasks, handle, claimed, unstored) = stale_handle P app m h in
      (
        s,
        reached,
        claimed,
        unstored,
        tasks,
        handle,
        λ await.
            rw handle (after_join-left (await 0) (record (s.node) { upgrade_handle = none }) tasks),
      )
