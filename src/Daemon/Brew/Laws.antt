-- ===== src/Daemon/Brew/Laws.antt =====
-- The search for the `brew` program and the upgrade of brew.rs.
use brewmble.Prelude.{
  List, Option, Result, Result-cases, Text, [], err, inl, inr, ok, some, ◌+◌, ◌∷◌, ◌≡◌, arith,
  if◌then◌else◌, is_ok, lit, refl, true, ◌↔◌, ◌⊎◌,
}
use brewmble.Daemon.World.{Command, World, Machine, Output, run}
use brewmble.Daemon.Brew.{
  State, try_paths, run_brew, full_upgrade, run_cleanup, get_updates, refresh, update_cache,
  list_outdated, or_not_found,
}
use brewmble.Daemon.Manager.{should_update}
use brewmble.Daemon.Apt.Caching.{Succeeds}

abbrev pub brew_command : Text → List Text → Command
brew_command path args = record { program = path; args = args; env = [] }

abbrev pub after : Machine → World → Command → World
after machine w c = record { log = c ∷ w.log; clock = w.clock + machine.duration w c }

-- How a search over `paths` goes: each path but the last one tried gives an `io::Error`, and the
-- search ends at the first that gives an output, or with the last error.
pub data Search (machine : Machine) (args : List Text)
    : List Text → Option Text → World → Result Text Output → World → Type 0 where
  found :
      {path : Text} {paths : List Text} {last : Option Text} {w : World} {output : Output}
      → machine.answer w (brew_command path args) ≡ ok output
      → Search machine args
          (path ∷ paths)
          last
          w
          (ok output)
          (after machine w (brew_command path args))
  missed :
      {path : Text} {paths : List Text} {last : Option Text} {w w' : World} {e : Text}
      {r : Result Text Output}
      → machine.answer w (brew_command path args) ≡ err e
      → Search machine args paths (some e) (after machine w (brew_command path args)) r w'
      → Search machine args (path ∷ paths) last w r w'
  exhausted :
      {last : Option Text} {w : World} → Search machine args [] last w (err (or_not_found last)) w

module _ (machine : Machine) (args : List Text) where
  -- The loop of `run_brew` tries the paths in order, goes on after an error to start the program,
  -- and ends at the first path that gives an output, or with the last error.
  pub try_paths-Search :
      (paths : List Text) (last : Option Text) (w : World)
      → Search machine args paths last w
          (try_paths machine args paths last w).0
          (try_paths machine args paths last w).1
  unfolding try_paths run
  try_paths-Search [] last w = exhausted
  try_paths-Search (path ∷ paths) last w =
      elim (Result-cases (machine.answer w (brew_command path args))) [
        | inl (output, e) ↦ rw e (found e)
        | inr (x, e) ↦
            rw e (
              missed e (try_paths-Search paths (some x) (after machine w (brew_command path args))))
      ]

module _ (machine : Machine) where
  run_brew_object : (args : List Text) (s : State) → (run_brew machine args s).1.0 ≡ s.0
  unfolding run_brew
  run_brew_object args s = refl

  -- `full_upgrade` succeeds exactly if `brew upgrade` ran and ended well.
  pub full_upgrade_iff :
      (s : State)
      → (is_ok (full_upgrade machine s).0 ≡ true)
        ↔ Succeeds (run_brew machine (lit "upgrade" ∷ []) s).0
  unfolding full_upgrade
  full_upgrade_iff s = ground arith

  -- Cleanup runs after an upgrade that succeeds only.
  pub full_upgrade_state :
      (s : State)
      → (full_upgrade machine s).1 ≡ (
          if is_ok (full_upgrade machine s).0
          then run_cleanup machine (run_brew machine (lit "upgrade" ∷ []) s).1
          else (run_brew machine (lit "upgrade" ∷ []) s).1)
  unfolding full_upgrade
  full_upgrade_state s = ground arith

  -- `get_updates` notes a renewal of the formulae only after `brew update` ended well, and with the
  -- time after it; nothing else of the object changes.
  pub get_updates_object :
      (s : State)
      → ((get_updates machine s).1.0 ≡ s.0)
        ⊎ ((should_update s.0.last_update s.0.cache_ttl s.1.clock ≡ true)
            × Succeeds (run_brew machine (lit "update" ∷ []) s).0
            × ((get_updates machine s).1.0 ≡ record (s.0) {
              last_update = some (run_brew machine (lit "update" ∷ []) s).1.1.clock;
            }))
  unfolding get_updates refresh update_cache list_outdated run_brew
  get_updates_object s = ground arith
