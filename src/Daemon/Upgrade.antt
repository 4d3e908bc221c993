-- ===== src/Daemon/Upgrade.antt =====
-- The interleavings of requests and upgrade tasks of daemon/src/main.rs. Each step is one access to
-- the shared state: requests run on many threads, and another step may come between any two.
pub mod Exclusion
pub mod Races
pub mod Released
pub mod Handled
use brewmble.Prelude.{ℕ, suc, List, [], ◌∷◌, ◌++◌, Option, true, false, ◌≡◌}
use brewmble.Rest.{RebootRequest, UpgradeRequest}
use brewmble.Daemon.Manager.{PackageManager}
use brewmble.Daemon.Handlers.{
  AppState, Node, start, claim, spawn_upgrade, store_handle, finish_upgrade, reboot_handler,
  status_handler, full_upgrade_handler,
}

-- The shared state, the requests that have won the exchange and not yet spawned their task, the
-- handles that requests have not yet stored, and the reboot commands that were issued.
pub record System (P : PackageManager) : Type 0 where
  pub node : Node P
  pub claimed : ℕ
  pub unstored : List ℕ
  pub rebooted : ℕ

abbrev pub initial : (P : PackageManager) → P.State → System P
initial P m = record { node = start P m; claimed = 0; unstored = []; rebooted = 0 }

module _ (P : PackageManager) (app : AppState) where
  pub data Step (s : System P) : System P → Type 0 where
    -- A request whose exchange succeeds, and one whose exchange fails.
    claim_won :
        app.pm_available ≡ true
        → (claim P s.node).0 ≡ true
        → Step s (record s { node = (claim P s.node).1; claimed = suc s.claimed })
    claim_lost : (claim P s.node).0 ≡ false → Step s (record s { node = (claim P s.node).1 })
    -- The request that has won spawns its task, and stores the handle later.
    spawn :
        (k : ℕ)
        → s.claimed ≡ suc k
        → Step s (record s {
          node = (spawn_upgrade P s.node).1;
          claimed = k;
          unstored = (spawn_upgrade P s.node).0 ∷ s.unstored;
        })
    store :
        (task : ℕ) (before after : List ℕ)
        → s.unstored ≡ before ++ (task ∷ after)
        → Step s (record s { node = store_handle P task s.node; unstored = before ++ after })
    -- A task runs the upgrade and ends.
    finish :
        (task : ℕ) (before after : List ℕ)
        → s.node.tasks ≡ before ++ (task ∷ after)
        → Step s (record s { node = finish_upgrade P task s.node })
    -- The other requests.
    status : Step s (record s { node = (status_handler P app s.node).1 })
    dry_run :
        (payload : UpgradeRequest)
        → payload.dry_run ≡ true
        → Step s (record s { node = (full_upgrade_handler P app payload s.node).1 })
    reboot :
        (payload : RebootRequest)
        → Step s (record s { node = (reboot_handler P app payload s.node).1 })
    -- The delay of a reboot task is over: it issues its command.
    issue :
        (delay : Option ℕ) (rest : List (Option ℕ))
        → s.node.reboots ≡ delay ∷ rest
        → Step s (record s { node = record (s.node) { reboots = rest }; rebooted = suc s.rebooted })

  pub data Reach (s : System P) : System P → Type 0 where
    here : Reach s s
    next : {t u : System P} → Reach s t → Step t u → Reach s u
