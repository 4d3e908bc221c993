-- ===== src/Daemon/Apt/Caching.antt =====
-- When `get_updates` of apt.rs renews the package cache.
use brewmble.Prelude.{
  ◌+◌, ◌*◌, ◌<◌, ◌≡◌, Result, Text, err, false, is_ok, ok, some, true, ℕ, ◌∷◌, arith, ap, refl, ◌⊎◌,
}
use brewmble.Daemon.World.{Command, World, Machine, Output, run}
use brewmble.Daemon.Manager.{should_update}
use brewmble.Daemon.Apt.{
  Apt, State, get_updates, refresh, update_cache, simulate, run_async, dry_run_upgrade,
}
use brewmble.Daemon.Apt.Commands.{update_command, simulate_command}

-- Whether a command was answered by a process that ended well.
abbrev pub Succeeds : Result Text Output → Type 0
Succeeds (ok output) = output.success ≡ true
Succeeds (err e) = ⊥

-- The state of the machine after one more command.
abbrev pub after : Machine → World → Command → World
after machine w c = record { log = c ∷ w.log; clock = w.clock + machine.duration w c }

-- Time passes while the daemon runs no command.
abbrev pub wait : ℕ → State → State
wait idle (apt, w) = (apt, record w { clock = w.clock + idle })

module _ (machine : Machine) where
  -- The simulated upgrade issues one command and changes nothing of the object.
  pub simulate_state :
      (apt : Apt) (w : World)
      → (simulate machine (apt, w)).1 ≡ (apt, after machine w simulate_command)
  unfolding simulate run_async run
  simulate_state apt w = ground arith

  -- While the cache is younger than a time to live that is not zero, `get_updates` issues the
  -- simulated upgrade alone and leaves the object as it is.
  pub get_updates_fresh :
      (apt : Apt) (w : World) (last : ℕ)
      → apt.last_update ≡ some last
      → 0 < apt.cache_ttl
      → w.clock < last + apt.cache_ttl * 1_000_000_000
      → (get_updates machine (apt, w)).1 ≡ (apt, after machine w simulate_command)
  unfolding get_updates refresh should_update
  get_updates_fresh apt w last h k l = rw (← simulate_state apt w) (ground arith)

  -- If the cache has to be renewed and `apt-get update` fails, `get_updates` fails, issues no
  -- other command, and does not count the cache as renewed.
  pub get_updates_renewal_failed :
      (apt : Apt) (w : World)
      → should_update apt.last_update apt.cache_ttl w.clock ≡ true
      → ¬ Succeeds (machine.answer w update_command)
      → (is_ok (get_updates machine (apt, w)).0 ≡ false)
        × ((get_updates machine (apt, w)).1 ≡ (apt, after machine w update_command))
  unfolding get_updates refresh update_cache run_async run
  get_updates_renewal_failed apt w h k = ground arith

  -- If the cache has to be renewed and `apt-get update` succeeds, the time after it is noted, and
  -- then the simulated upgrade runs.
  pub get_updates_renewed :
      (apt : Apt) (w : World)
      → should_update apt.last_update apt.cache_ttl w.clock ≡ true
      → Succeeds (machine.answer w update_command)
      → (get_updates machine (apt, w)).1 ≡ (
        record apt { last_update = some (w.clock + machine.duration w update_command) },
        after machine (after machine w update_command) simulate_command,
      )
  unfolding get_updates refresh update_cache run_async run
  get_updates_renewed apt w h k = ground (
    arith,
    simulate_state (record apt { last_update = some (w.clock + machine.duration w update_command) })
        (after machine w update_command),
  )

  -- Two calls, the second one within the time to live of a cache that the first one renewed: the
  -- cache is renewed once. `idle` is the time between them.
  pub get_updates_twice :
      (apt : Apt) (w : World) (idle : ℕ)
      → should_update apt.last_update apt.cache_ttl w.clock ≡ true
      → Succeeds (machine.answer w update_command)
      → machine.duration (after machine w update_command) simulate_command + idle
        < apt.cache_ttl * 1_000_000_000
      → (get_updates machine (wait idle (get_updates machine (apt, w)).1)).1.1.log
        ≡ simulate_command ∷ simulate_command ∷ update_command ∷ w.log
  get_updates_twice apt w idle h k l =
      rw (get_updates_renewed apt w h k)
        (ap (λ (s : State). s.1.log) (get_updates_fresh _ _ _ refl (omega arith) (omega arith)))

  -- A dry run issues `apt-get update` at most, and then at most the simulated upgrade.
  pub dry_run_upgrade_commands :
      (apt : Apt) (w : World)
      → ((dry_run_upgrade machine (apt, w)).1.1.log ≡ simulate_command ∷ w.log)
        ⊎ ((dry_run_upgrade machine (apt, w)).1.1.log ≡ update_command ∷ w.log)
        ⊎ ((dry_run_upgrade machine (apt, w)).1.1.log ≡ simulate_command ∷ update_command ∷ w.log)
  unfolding dry_run_upgrade get_updates refresh simulate update_cache run_async run
  dry_run_upgrade_commands apt w = ground arith
