-- ===== src/Daemon/Selection.antt =====
-- `get_package_manager` of daemon/src/package_manager/mod.rs, for the targets other than macOS:
-- brew if it answers, else apt. On macOS it is brew in any case.
use brewmble.Prelude.{Bool, ℕ, false, true}
use brewmble.Daemon.World.{Machine, World}
use brewmble.Daemon.Manager.{PackageManager}
use brewmble.Daemon.Brew
use brewmble.Daemon.Apt

module _ (machine : Machine) where
  -- The manager, its state, and what its constructor has left of the machine.
  abbrev pub Chosen : Type 1
  Chosen = (P : PackageManager) × P.State

  abbrev choose : Brew.Brew → Apt.Apt → Bool × Brew.State → Chosen
  choose brew apt (true, (b, w)) = (Brew.manager machine, (b, w))
  choose brew apt (false, (b, w)) = (Apt.manager machine, (apt, w))

  unfoldable pub get_package_manager : Bool → Bool → ℕ → World → Chosen
  get_package_manager auto_clean auto_remove update_interval_mins w =
      let brew = Brew.new auto_clean auto_remove update_interval_mins in
      choose brew (Apt.new auto_clean auto_remove update_interval_mins)
        (Brew.is_available machine (brew, w))
