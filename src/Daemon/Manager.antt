-- ===== src/Daemon/Manager.antt =====
-- The trait `PackageManager` of daemon/src/package_manager/mod.rs, as the handlers use it, and the
-- cache decision that both implementations share.
use brewmble.Prelude.{
  ℕ, ◌-◌, ◌*◌, ◌^◌, ◌%◌, List, Text, Option, none, some, Bool, true, ltb, leb, if◌then◌else◌,
}
use brewmble.Prelude.Exec.{Exec}

pub record PackageManager : Type 1 where
  pub State : Type 0
  pub name : Text
  pub version : State → Text × State
  pub is_available : State → Bool × State
  pub get_updates : Exec State (List Text)
  pub dry_run_upgrade : Exec State (List Text)
  pub full_upgrade : Exec State (Unit {0})
  pub auto_clean : Exec State (Unit {0})
  pub auto_remove : Exec State (Unit {0})

-- `Duration::from_secs(update_interval_mins * 60)` in seconds: the product of two `u64` wraps in a
-- release build.
unfoldable pub ttl_secs : ℕ → ℕ
ttl_secs update_interval_mins = (update_interval_mins * 60) % 2 ^ 64

-- `should_update` of `get_updates`: `last_update` and `now` in nanoseconds, `ttl` in seconds.
unfoldable pub should_update : Option ℕ → ℕ → ℕ → Bool
should_update none ttl now = true
should_update (some last) ttl now =
    if ltb 0 ttl then leb (ttl * 1_000_000_000) (now - last) else true
