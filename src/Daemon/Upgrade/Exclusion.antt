-- ===== src/Daemon/Upgrade/Exclusion.antt =====
-- The flag `is_upgrading` of daemon/src/main.rs over all interleavings.
use brewmble.Prelude.{
  ℕ, suc, ◌+◌, ◌≤◌, List, [], ◌∷◌, ◌++◌, length, length-append, filter, not, ◌==◌, Bool, true,
  false, ◌≡◌, refl, arith, inl, inr,
}
use brewmble.Daemon.Manager.{PackageManager}
use brewmble.Daemon.Handlers.{
  reboot_handler, AppState, claim, spawn_upgrade, store_handle, finish_upgrade,
}
use brewmble.Daemon.Handlers.Gates.{SameTasks, full_upgrade_handler_refuses, status_handler_keeps}
use brewmble.Daemon.Upgrade.{
  System, initial, Step, Reach, claim_won, claim_lost, spawn, store, finish, status, dry_run,
  reboot, issue, here, next,
}

abbrev pub flag_count : Bool → ℕ
flag_count true = 1
flag_count false = 0

-- The flag stands for exactly one request that has won the exchange, or one task.
pub record IsExclusive {P : PackageManager} (s : System P) : Type 0 where
  pub count : s.claimed + length s.node.tasks ≡ flag_count s.node.is_upgrading

module _ (P : PackageManager) (app : AppState) where
  IsExclusive-same :
      (s t : System P)
      → IsExclusive s
      → t.claimed ≡ s.claimed
      → SameTasks s.node t.node
      → IsExclusive t
  IsExclusive-same s t h c k = record { count = rw (c, k.tasks, k.flag) h.count }

  claim-IsExclusive :
      (s : System P)
      → IsExclusive s
      → (claim P s.node).0 ≡ true
      → IsExclusive (record s { node = (claim P s.node).1; claimed = suc s.claimed })
  unfolding claim
  claim-IsExclusive s h e = ground arith

  only_task :
      (task : ℕ) (before after : List ℕ)
      → length (before ++ (task ∷ after)) ≤ 1
      → filter (λ t. not (t == task)) (before ++ (task ∷ after)) ≡ []
  only_task task [] [] h = ground arith
  only_task task [] (x ∷ after) h = absurd (omega arith)
  only_task task (x ∷ before) after h = absurd (omega (arith, length-append before (task ∷ after)))

  finish-IsExclusive :
      (s : System P) (task : ℕ) (before after : List ℕ)
      → IsExclusive s
      → s.node.tasks ≡ before ++ (task ∷ after)
      → IsExclusive (record s { node = finish_upgrade P task s.node })
  unfolding finish_upgrade
  finish-IsExclusive s task before after h e =
      let held : s.claimed + length (before ++ (task ∷ after)) ≡ flag_count s.node.is_upgrading =
        rw e at h.count in
      let few : length (before ++ (task ∷ after)) ≤ 1 = ground arith in
      let alone : s.claimed ≡ 0 = ground (arith, length-append before (task ∷ after)) in
      record { count = rw (e, only_task task before after few, alone) refl }

  Step-IsExclusive : {s t : System P} → Step P app s t → IsExclusive s → IsExclusive t
  unfolding claim spawn_upgrade store_handle finish_upgrade reboot_handler
  Step-IsExclusive {s} (claim_won _ e) h = claim-IsExclusive s h e
  Step-IsExclusive {s} (claim_lost e) h = ground arith
  Step-IsExclusive (spawn k e) h = ground arith
  Step-IsExclusive (store task before after e) h = record { count = h.count }
  Step-IsExclusive {s} (finish task before after e) h = finish-IsExclusive s task before after h e
  Step-IsExclusive {s} status h = IsExclusive-same s _ h refl (status_handler_keeps P app s.node)
  Step-IsExclusive {s} (dry_run payload e) h =
      IsExclusive-same s _ h refl (full_upgrade_handler_refuses P app payload s.node (inr (inl e)))
  Step-IsExclusive {s} (reboot payload) h = ground arith
  Step-IsExclusive (issue delay rest e) h = record { count = h.count }

  -- Whatever requests come and however they interleave, the flag is set exactly while one request
  -- or task holds it.
  pub Reach-IsExclusive : (m : P.State) {s : System P} → Reach P app (initial P m) s → IsExclusive s
  Reach-IsExclusive m here = record { count = refl }
  Reach-IsExclusive m (next r st) = Step-IsExclusive st (Reach-IsExclusive m r)
