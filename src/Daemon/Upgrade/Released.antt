-- ===== src/Daemon/Upgrade/Released.antt =====
-- The flag `is_upgrading` of daemon/src/main.rs: it can always be released.
use brewmble.Prelude.{length, ◌+◌, ℕ, List, [], ◌∷◌, Bool, true, false, ◌≡◌, refl, arith}
use brewmble.Daemon.Manager.{PackageManager}
use brewmble.Daemon.Handlers.{AppState, claim, spawn_upgrade, finish_upgrade, store_handle}
use brewmble.Daemon.Upgrade.{
  System, initial, Step, Reach, claim_won, claim_lost, spawn, store, finish, status, dry_run,
  reboot, issue,
}
use brewmble.Daemon.Upgrade.Exclusion.{Reach-IsExclusive, flag_count}

module _ (P : PackageManager) (app : AppState) where
  -- A step of a request or an upgrade task that is under way: a task is spawned, its handle is
  -- stored, or it ends.
  abbrev pub IsOwn : {s t : System P} → Step P app s t → Type 0
  IsOwn (claim_won _ _) = ⊥
  IsOwn (claim_lost _) = ⊥
  IsOwn (spawn _ _) = Unit
  IsOwn (store _ _ _ _) = Unit
  IsOwn (finish _ _ _ _) = Unit
  IsOwn status = ⊥
  IsOwn (dry_run _ _) = ⊥
  IsOwn (reboot _) = ⊥
  IsOwn (issue _ _ _) = ⊥

  -- Only such steps.
  pub data Ends (s : System P) : System P → Type 0 where
    done : Ends s s
    continued : {t u : System P} → Ends s t → (step : Step P app t u) → IsOwn step → Ends s u

  -- No request and no task is under way, a new exchange succeeds, and the reboots are those of
  -- before.
  pub record IsIdle (s t : System P) : Type 0 where
    pub claimed : t.claimed ≡ 0
    pub tasks : t.node.tasks ≡ []
    pub unstored : t.unstored ≡ []
    pub free : (claim P t.node).0 ≡ true
    pub scheduled : t.node.reboots ≡ s.node.reboots
    pub rebooted : t.rebooted ≡ s.rebooted

  store_all :
      (s : System P) (handles : List ℕ) (t : System P)
      → Ends s t
      → t.unstored ≡ handles
      → t.claimed ≡ 0
      → t.node.tasks ≡ []
      → t.node.is_upgrading ≡ false
      → t.node.reboots ≡ s.node.reboots
      → t.rebooted ≡ s.rebooted
      → (u : System P) × Ends s u × IsIdle s u
  unfolding claim store_handle
  store_all s [] t r e c k l q b = (
    t,
    r,
    record { claimed = c; tasks = k; unstored = e; free = rw l refl; scheduled = q; rebooted = b },
  )
  store_all s (task ∷ handles) t r e c k l q b =
      store_all s handles _ (continued r (store task [] handles e) tt) refl c k l q b

  finish_all :
      (s t : System P) (task : ℕ) (tasks : List ℕ)
      → Ends s t
      → t.node.tasks ≡ task ∷ tasks
      → t.claimed ≡ 0
      → (finish_upgrade P task t.node).tasks ≡ []
      → t.node.reboots ≡ s.node.reboots
      → t.rebooted ≡ s.rebooted
      → (u : System P) × Ends s u × IsIdle s u
  unfolding finish_upgrade
  finish_all s t task tasks r e c k q b =
      store_all s t.unstored _ (continued r (finish task [] tasks e) tt) refl c k refl q b

  -- In every state that is reached, whatever has happened, the requests and upgrade tasks that are
  -- under way can be brought to an end by steps of their own only, without a reboot being scheduled
  -- or issued: then none of them is left, their handles are stored, and the exchange of a new
  -- request succeeds.
  pub upgrade_released :
      (m : P.State) (s : System P)
      → Reach P app (initial P m) s
      → (t : System P) × Ends s t × IsIdle s t
  unfolding spawn_upgrade finish_upgrade
  upgrade_released m s r = go s.node.is_upgrading refl s.node.tasks refl
    where
      count : s.claimed + length s.node.tasks ≡ flag_count s.node.is_upgrading
      count = (Reach-IsExclusive P app m r).count

      go :
          (flag : Bool)
          → s.node.is_upgrading ≡ flag
          → (tasks : List ℕ) → s.node.tasks ≡ tasks
          → (t : System P) × Ends s t × IsIdle s t
      go false e [] f = store_all s s.unstored s done refl (ground (arith, count)) f e refl refl
      go false e (task ∷ tasks) f = absurd (ground (arith, count))
      go true e (task ∷ []) f =
          finish_all s s task [] done f (ground (arith, count)) (ground arith) refl refl
      go true e (task ∷ task' ∷ tasks) f = absurd (ground (arith, count))
      go true e [] f =
          let alone : s.claimed ≡ 1 = ground (arith, count) in
          finish_all s _ s.node.next_task s.node.tasks (continued done (spawn 0 alone) tt) refl refl
            (ground arith) refl refl
