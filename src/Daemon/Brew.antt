-- ===== src/Daemon/Brew.antt =====
-- daemon/src/package_manager/brew.rs: `Brew`.
-- Log lines are left out. A failed join of the blocking task counts among the runner's errors.
pub mod Laws
pub mod Parsing
use brewmble.Prelude.{
  ℕ, List, [], ◌∷◌, ◌++◌, Text, lit, Option, none, some, Bool, not, Result, ok, err, if◌then◌else◌,
  is_empty, is_ok, lines, filter,
}
use brewmble.Prelude.Exec.{Exec, ◌>>=◌, ◌>>◌, pure, fail, modify}
use brewmble.Daemon.World.{Output, World, Machine, run}
use brewmble.Daemon.Manager.{PackageManager, ttl_secs, should_update}
use brewmble.Daemon.Apt.{first_line, status_error}

pub record Brew : Type 0 where
  pub auto_clean : Bool
  pub auto_remove : Bool
  pub last_update : Option ℕ
  pub cache_ttl : ℕ

unfoldable pub new : Bool → Bool → ℕ → Brew
new auto_clean auto_remove update_interval_mins = record {
  auto_clean = auto_clean;
  auto_remove = auto_remove;
  last_update = none;
  cache_ttl = ttl_secs update_interval_mins;
}

abbrev pub State : Type 0
State = Brew × World

abbrev pub brew_paths : List Text
brew_paths = lit "brew" ∷ lit "/opt/homebrew/bin/brew" ∷ lit "/usr/local/bin/brew" ∷ []

-- `last_err.unwrap_or_else(...)`.
abbrev or_not_found : Option Text → Text
or_not_found none = lit "brew not found"
or_not_found (some e) = e

-- The lines of `brew outdated --quiet` that are not empty.
unfoldable pub parse_outdated : Text → List Text
parse_outdated stdout = filter (λ line. not (is_empty line)) (lines stdout)

module _ (machine : Machine) where
  -- The loop of `run_brew` and `run_brew_async`: the first path that answers.
  unfoldable pub try_paths :
      List Text → List Text → Option Text → World → Result Text Output × World
  try_paths args [] last_err w = (err (or_not_found last_err), w)
  try_paths args (path ∷ paths) last_err w =
      let (r, w') = run machine path args w in
      elim r [ ok output ↦ (ok output, w') | err e ↦ try_paths args paths (some e) w' ]

  unfoldable pub run_brew : List Text → Exec State Output
  unfolding try_paths
  run_brew args s = let (r, w) = try_paths args brew_paths none s.1 in (r, (s.0, w))

  unfoldable pub version : State → Text × State
  version s =
      let (r, s') = run_brew (lit "--version" ∷ []) s in
      elim r [ ok output ↦ (first_line output.stdout, s') | err _ ↦ (lit "unknown", s') ]

  unfoldable pub is_available : State → Bool × State
  is_available s = let (r, s') = run_brew (lit "--version" ∷ []) s in (is_ok r, s')

  unfoldable pub update_cache : Exec State (Unit {0})
  update_cache = do
    output ← run_brew (lit "update" ∷ [])
    if output.success
        then modify (λ s. (record (s.0) { last_update = some s.1.clock }, s.1))
        else fail (status_error (lit "brew update failed with status: ") output)

  unfoldable pub refresh : Exec State (Unit {0})
  refresh s =
      if should_update s.0.last_update s.0.cache_ttl s.1.clock then update_cache s else pure tt s

  unfoldable pub list_outdated : Exec State (List Text)
  list_outdated = do
    output ← run_brew (lit "outdated" ∷ lit "--quiet" ∷ [])
    if output.success
        then pure (parse_outdated output.stdout)
        else fail (status_error (lit "brew outdated failed with status: ") output)

  unfoldable pub get_updates : Exec State (List Text)
  get_updates = do refresh; list_outdated

  unfoldable pub dry_run_upgrade : Exec State (List Text)
  dry_run_upgrade = get_updates

  unfoldable pub auto_clean : Exec State (Unit {0})
  auto_clean = do
    output ← run_brew (lit "cleanup" ∷ [])
    if output.success
        then pure tt
        else fail (status_error (lit "brew cleanup failed with status: ") output)

  unfoldable pub auto_remove : Exec State (Unit {0})
  auto_remove = do
    output ← run_brew (lit "autoremove" ∷ [])
    if output.success
        then pure tt
        else fail (status_error (lit "brew autoremove failed with status: ") output)

  unfoldable pub run_cleanup : State → State
  run_cleanup s =
      let s' = if s.0.auto_clean then (auto_clean s).1 else s in
      if s.0.auto_remove then (auto_remove s').1 else s'

  unfoldable pub full_upgrade : Exec State (Unit {0})
  full_upgrade s =
      let (r, s') = run_brew (lit "upgrade" ∷ []) s in
      elim r [
        | ok output ↦
            if output.success
            then (ok tt, run_cleanup s')
            else (err (status_error (lit "brew upgrade failed with status: ") output), s')
        | err e ↦ (err (lit "failed to execute brew upgrade: " ++ e), s')
      ]

  -- `impl PackageManager for Brew`.
  abbrev pub manager : PackageManager
  manager = record {
    State = State;
    name = lit "brew";
    version = version;
    is_available = is_available;
    get_updates = get_updates;
    dry_run_upgrade = dry_run_upgrade;
    full_upgrade = full_upgrade;
    auto_clean = auto_clean;
    auto_remove = auto_remove;
  }
