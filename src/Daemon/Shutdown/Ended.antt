-- ===== src/Daemon/Shutdown/Ended.antt =====
-- When the service of daemon/src/main.rs ends, and what its end leaves behind.
use brewmble.Prelude.{
  Bool, Option, Result, Text, [], arith, err, none, ok, refl, some, ℕ, ◌∷◌, ◌≡◌, ◌↔◌, ◌⊎◌, inl, inr,
  ap,
}
use brewmble.Daemon.Announce.{ServiceInfo}
use brewmble.Daemon.Manager.{PackageManager}
use brewmble.Daemon.Handlers.{Node, finish_upgrade}
use brewmble.Daemon.Shutdown.{
  Finished, Joined, finished, failed, elapsed, left_running, lifetime, wait_for_upgrade, wait_for,
  after_join, finish_on, finish_service, completes, earlier, shutdown_signal, server_result,
}

-- No upgrade task runs, or one does and its handle is stored.
abbrev pub IsAwaited : {P : PackageManager} → Node P → Type 0
IsAwaited n = (n.tasks ≡ []) ⊎ ((task : ℕ) × (n.tasks ≡ task ∷ []) × (n.upgrade_handle ≡ some task))

module _ (P : PackageManager) (await : ℕ → Joined) (mdns_shutdown : Result Text (Unit {0}))
    (announced : Option ServiceInfo) where
  completes-none : (handler : Result Text (Option ℕ)) → completes handler ≡ none → handler ≡ ok none
  completes-none (ok time) h = ap ok h
  completes-none (err e) h = absurd (ground arith)

  earlier-none : (a b : Option ℕ) → earlier a b ≡ none → (a ≡ none) × (b ≡ none)
  earlier-none none b h = (refl, h)
  earlier-none (some a) none h = absurd (ground arith)
  earlier-none (some a) (some b) h = absurd (ground arith)

  server_result-none :
      (server_first : Bool) (server : Option (ℕ × Result Text (Unit {0}))) (u : Option ℕ)
      → server_result server_first server u ≡ none
      → (server ≡ none) × (u ≡ none)
  unfolding server_result
  server_result-none server_first none none h = (refl, refl)
  server_result-none server_first none (some u) h = absurd (ground arith)
  server_result-none server_first (some (t, r)) none h = absurd (ground arith)
  server_result-none server_first (some (t, r)) (some u) h = absurd (ground arith)

  finish_on-none :
      (n : Node P) (result : Option (Result Text (Unit {0})))
      → finish_on P await mdns_shutdown announced n result ≡ none
      → result ≡ none
  finish_on-none n none h = refl
  finish_on-none n (some r) h = absurd (ground arith)

  -- The service goes on for ever exactly if the server does not end, both signals have their
  -- handlers, and neither of them comes: a handler that cannot be installed ends it.
  pub lifetime_forever :
      (server_first : Bool) (server : Option (ℕ × Result Text (Unit {0})))
      (ctrl_c terminate : Result Text (Option ℕ)) (n : Node P)
      → lifetime P await mdns_shutdown announced server_first server ctrl_c terminate n ≡ none
        ↔ (server ≡ none) × (ctrl_c ≡ ok none) × (terminate ≡ ok none)
  unfolding lifetime
  lifetime_forever server_first server ctrl_c terminate n = (
    λ h.
        let signals = shutdown_signal ctrl_c terminate in
        let (no_end, unsignalled) =
          server_result-none server_first server signals
            (finish_on-none n (server_result server_first server signals) h) in
        let (no_ctrl_c, no_terminate) =
          earlier-none (completes ctrl_c) (completes terminate) unsignalled in
        (no_end, completes-none ctrl_c no_ctrl_c, completes-none terminate no_terminate),
    λ (a, b, c). rw (a, b, c) refl,
  )

  after_join-awaited :
      (task : ℕ) (joined : Joined) (n : Node P)
      → (n.tasks ≡ []) ⊎ (n.tasks ≡ task ∷ [])
      → left_running P (after_join P task joined n) ≡ []
  unfolding left_running finish_upgrade
  after_join-awaited task finished n (inl h) = ground arith
  after_join-awaited task finished n (inr h) = ground arith
  after_join-awaited task (failed e) n (inl h) = ground arith
  after_join-awaited task (failed e) n (inr h) = ground arith
  after_join-awaited task elapsed n (inl h) = ground arith
  after_join-awaited task elapsed n (inr h) = ground arith

  pub wait_for_upgrade-awaited :
      (n : Node P) → IsAwaited n → left_running P (wait_for_upgrade P await n) ≡ []
  unfolding wait_for_upgrade left_running
  wait_for_upgrade-awaited n (inl h) = go n.upgrade_handle
    where
      go : (handle : Option ℕ) → left_running P (wait_for P await handle n) ≡ []
      go none = rw h refl
      go (some task) =
          after_join-awaited task (await task) (record n { upgrade_handle = none }) (inl h)
  wait_for_upgrade-awaited n (inr (task, h, k)) =
      rw k (after_join-awaited task (await task) (record n { upgrade_handle = none }) (inr h))

  after_join-handle :
      (task : ℕ) (joined : Joined) (n : Node P)
      → n.upgrade_handle ≡ none
      → (after_join P task joined n).node.upgrade_handle ≡ none
  unfolding finish_upgrade
  after_join-handle task finished n h = ground arith
  after_join-handle task (failed e) n h = ground arith
  after_join-handle task elapsed n h = h

  wait_for_upgrade-handle : (n : Node P) → (wait_for_upgrade P await n).node.upgrade_handle ≡ none
  unfolding wait_for_upgrade
  wait_for_upgrade-handle n = go n.upgrade_handle refl
    where
      go :
          (handle : Option ℕ)
          → n.upgrade_handle ≡ handle
          → (wait_for P await handle n).node.upgrade_handle ≡ none
      go none h = h
      go (some task) h =
          after_join-handle task (await task) (record n { upgrade_handle = none }) refl

  -- If no upgrade task runs when the service ends, or one whose handle is stored, then whatever ends
  -- the service and however the task ends within its time, no upgrade task is left running and no
  -- handle is stored.
  pub lifetime_settles :
      (server_first : Bool) (server : Option (ℕ × Result Text (Unit {0})))
      (ctrl_c terminate : Result Text (Option ℕ)) (n : Node P) (f : Finished P)
      → IsAwaited n
      → lifetime P await mdns_shutdown announced server_first server ctrl_c terminate n ≡ some f
      → (left_running P f.stopped ≡ []) × (f.stopped.node.upgrade_handle ≡ none)
  unfolding lifetime
  lifetime_settles server_first server ctrl_c terminate n f awaited h =
      go (server_result server_first server (shutdown_signal ctrl_c terminate)) h
    where
      go :
          (result : Option (Result Text (Unit {0})))
          → finish_on P await mdns_shutdown announced n result ≡ some f
          → (left_running P f.stopped ≡ []) × (f.stopped.node.upgrade_handle ≡ none)
      go none e = absurd (ground arith)
      go (some r) e =
          let same : finish_service P await mdns_shutdown announced n r ≡ f = ground arith in
          rw (← same) (wait_for_upgrade-awaited n awaited, wait_for_upgrade-handle n)
