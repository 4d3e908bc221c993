-- ===== src/Daemon/Upgrade/Races.antt =====
-- Particular interleavings of the requests and tasks of daemon/src/main.rs.
use brewmble.Prelude.{ℕ, [], ◌∷◌, Option, true, ◌≡◌, refl, arith, some}
use brewmble.Daemon.Manager.{PackageManager}
use brewmble.Daemon.Handlers.{
  store_handle, finish_upgrade, AppState, claim, spawn_upgrade, reboot_handler,
}
use brewmble.Daemon.Upgrade.{
  System, Step, initial, Reach, claim_won, spawn, store, finish, reboot, issue, here, next,
}

module _ (P : PackageManager) (app : AppState) (m : P.State) where
  -- Where a package manager is available and reboots are allowed, requests and tasks reach a state in
  -- which an upgrade task runs, the flag is set and no reboot command has been issued, and from which
  -- the next step issues one while the task goes on: the handler looks at the flag when it schedules
  -- the reboot, and the task that issues it does not look again.
  pub reboot_during_upgrade :
      app.pm_available ≡ true
      → app.allow_reboot ≡ true
      → (delay : Option ℕ)
      → (s t : System P) × Reach P app (initial P m) s
        × Step P app s t
        × (s.node.tasks ≡ 0 ∷ [])
        × (s.node.is_upgrading ≡ true)
        × (s.rebooted ≡ 0)
        × (t.node.tasks ≡ 0 ∷ [])
        × (t.rebooted ≡ 1)
  unfolding claim spawn_upgrade reboot_handler
  reboot_during_upgrade h k delay =
      let scheduled : Reach P app (initial P m) _ =
        next here (reboot (record { delay_secs = delay })) in
      let running = next (next scheduled (claim_won h (ground arith))) (spawn 0 (ground arith)) in
      (
        _,
        _,
        running,
        issue delay [] (ground arith),
        ground arith,
        ground arith,
        refl,
        ground arith,
        refl,
      )

  -- Where a package manager is available, the handle that shutdown waits for may be that of a task
  -- that has ended, while another task runs: a request stores its handle after its task may have
  -- ended and another request has run.
  pub stale_handle :
      app.pm_available ≡ true
      → (s : System P) × Reach P app (initial P m) s
        × (s.node.tasks ≡ 1 ∷ [])
        × (s.node.upgrade_handle ≡ some 0)
        × (s.claimed ≡ 0)
        × (s.unstored ≡ [])
  unfolding claim spawn_upgrade finish_upgrade store_handle
  stale_handle h =
      let first : Reach P app (initial P m) _ =
        next (next here (claim_won h refl)) (spawn 0 refl) in
      let ended = next first (finish 0 [] [] refl) in
      let second = next (next ended (claim_won h refl)) (spawn 0 refl) in
      (
        _,
        next (next second (store 1 [] (0 ∷ []) refl)) (store 0 [] [] refl),
        refl,
        refl,
        refl,
        refl,
      )
