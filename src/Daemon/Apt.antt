-- ===== src/Daemon/Apt.antt =====
-- daemon/src/package_manager/apt.rs: `Apt`, built for Linux.
-- Log lines are left out. A failed join of the blocking task counts among the runner's errors.
pub mod Commands
pub mod Caching
pub mod Upgrading
pub mod Parsing
use brewmble.Prelude.{
  ℕ, List, [], ◌∷◌, ◌++◌, Text, lit, Option, none, some, Bool, true, false, ◌||◌, ok, err, is_ok,
  if◌then◌else◌, starts_with, contains, lines, split_whitespace, filter, filter_map,
}
use brewmble.Prelude.Exec.{Exec, ◌>>=◌, ◌>>◌, pure, fail, modify}
use brewmble.Daemon.World.{Output, World, Machine, run, run_with_env}
use brewmble.Daemon.Manager.{PackageManager, ttl_secs, should_update}

pub record Apt : Type 0 where
  pub auto_clean : Bool
  pub auto_remove : Bool
  pub last_update : Option ℕ
  pub cache_ttl : ℕ

unfoldable pub new : Bool → Bool → ℕ → Apt
new auto_clean auto_remove update_interval_mins = record {
  auto_clean = auto_clean;
  auto_remove = auto_remove;
  last_update = none;
  cache_ttl = ttl_secs update_interval_mins;
}

-- The object and the machine that its methods run on.
abbrev pub State : Type 0
State = Apt × World

abbrev pub first_line : Text → Text
first_line s = elim (lines s) [ [] ↦ lit "unknown" | l ∷ _ ↦ l ]

-- The second word of a line.
abbrev second_word : List Text → Option Text
second_word (_ ∷ w ∷ _) = some w
second_word _ = none

-- The packages that the output of `apt-get -s dist-upgrade` lists.
unfoldable pub parse_updates : Text → List Text
parse_updates stdout =
    filter_map (λ line. second_word (split_whitespace line))
      (filter (λ line. starts_with (lit "Inst ") line) (lines stdout))

unfoldable pub update_error : Output → Text
update_error output =
    if contains (lit "Permission denied") output.stderr
      || contains (lit "Are you root") output.stderr
    then lit "Permission denied when updating apt cache. Are you running as root? stderr: "
      ++ output.stderr
    else lit "Failed to update apt cache: "
      ++ (output.status ++ (lit ". stderr: " ++ output.stderr))

unfoldable pub status_error : Text → Output → Text
status_error what output = what ++ (output.status ++ (lit ". stderr: " ++ output.stderr))

abbrev pub upgrade_args : List Text
upgrade_args =
    lit "apt"
    ∷ lit "full-upgrade"
    ∷ lit "-y"
    ∷ lit "-o"
    ∷ lit "Dpkg::Options::=--force-confdef"
    ∷ lit "-o"
    ∷ lit "Dpkg::Options::=--force-confold"
    ∷ []

abbrev pub upgrade_env : List (Text × Text)
upgrade_env = (lit "DEBIAN_FRONTEND", lit "noninteractive") ∷ []

module _ (machine : Machine) where
  unfoldable pub run_async : Text → List Text → Exec State Output
  run_async program args s = let (r, w) = run machine program args s.1 in (r, (s.0, w))

  unfoldable pub run_async_with_env : Text → List Text → List (Text × Text) → Exec State Output
  run_async_with_env program args env s =
      let (r, w) = run_with_env machine program args env s.1 in (r, (s.0, w))

  unfoldable pub version : State → Text × State
  version s =
      let (r, w) = run machine (lit "apt") (lit "--version" ∷ []) s.1 in
      elim r [
        | ok output ↦ (first_line output.stdout, (s.0, w))
        | err _ ↦
            let (r', w') = run machine (lit "apt-get") (lit "--version" ∷ []) w in
            elim r' [
              | ok output ↦ (first_line output.stdout, (s.0, w'))
              | err _ ↦ (lit "unknown", (s.0, w'))
            ]
      ]

  unfoldable pub is_available : State → Bool × State
  is_available s =
      let (r, w) = run machine (lit "apt") (lit "--version" ∷ []) s.1 in
      elim (is_ok r) [
        | true ↦ (true, (s.0, w))
        | false ↦
            let (r', w') = run machine (lit "apt-get") (lit "--version" ∷ []) w in
            (is_ok r', (s.0, w'))
      ]

  -- The first part of `get_updates`: renew the cache.
  unfoldable pub update_cache : Exec State (Unit {0})
  update_cache = do
    output ← run_async (lit "sudo") (lit "apt-get" ∷ lit "update" ∷ [])
    if output.success
        then modify (λ s. (record (s.0) { last_update = some s.1.clock }, s.1))
        else fail (update_error output)

  unfoldable pub refresh : Exec State (Unit {0})
  refresh s =
      if should_update s.0.last_update s.0.cache_ttl s.1.clock then update_cache s else pure tt s

  -- The second part: ask for the packages that a simulated upgrade would change.
  unfoldable pub simulate : Exec State (List Text)
  simulate = do
    output ← run_async (lit "sudo") (lit "apt-get" ∷ lit "-s" ∷ lit "dist-upgrade" ∷ [])
    if output.success
        then pure (parse_updates output.stdout)
        else fail (status_error (lit "Failed to determine available updates: ") output)

  unfoldable pub get_updates : Exec State (List Text)
  get_updates = do refresh; simulate

  unfoldable pub dry_run_upgrade : Exec State (List Text)
  dry_run_upgrade = get_updates

  -- `auto_clean` and `auto_remove` differ in the command and the message.
  unfoldable pub cleanup_step : Text → List Text → Exec State (Unit {0})
  cleanup_step what args = do
    output ← run_async (lit "sudo") args
    if output.success
        then pure tt
        else fail (status_error (lit "apt " ++ (what ++ lit " failed with status: ")) output)

  unfoldable pub auto_clean : Exec State (Unit {0})
  auto_clean = cleanup_step (lit "autoclean") (lit "apt-get" ∷ lit "autoclean" ∷ [])

  unfoldable pub auto_remove : Exec State (Unit {0})
  auto_remove = cleanup_step (lit "autoremove") (lit "apt-get" ∷ lit "autoremove" ∷ lit "-y" ∷ [])

  -- A failed cleanup is only logged.
  unfoldable pub run_cleanup : State → State
  run_cleanup s =
      let s' = if s.0.auto_clean then (auto_clean s).1 else s in
      if s.0.auto_remove then (auto_remove s').1 else s'

  unfoldable pub full_upgrade : Exec State (Unit {0})
  full_upgrade s =
      let (r, s') = run_async_with_env (lit "sudo") upgrade_args upgrade_env s in
      elim r [
        | ok output ↦
            if output.success
            then (ok tt, run_cleanup s')
            else (err (status_error (lit "full upgrade failed with status: ") output), s')
        | err e ↦ (err (lit "failed to execute full upgrade: " ++ e), s')
      ]

  -- `impl PackageManager for Apt`.
  abbrev pub manager : PackageManager
  manager = record {
    State = State;
    name = lit "apt";
    version = version;
    is_available = is_available;
    get_updates = get_updates;
    dry_run_upgrade = dry_run_upgrade;
    full_upgrade = full_upgrade;
    auto_clean = auto_clean;
    auto_remove = auto_remove;
  }
