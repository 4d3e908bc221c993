-- ===== src/Daemon/Startup.antt =====
-- The choice of the port and of the hostname in `main`, and `execute_reboot`, of
-- daemon/src/main.rs. Whether a port can be bound, and how a command ends, are parameters.
pub mod Port
use brewmble.Prelude.{
  Bool, List, Option, Result, Text, [], err, false, if◌then◌else◌, lit, none, ok, some, suc,
  trim_end_matches, true, zero, ℕ, ◌-◌, ◌==◌, ◌∷◌,
}
use brewmble.Prelude.Exec.{Exec}

abbrev pub default_port : ℕ
default_port = 4712

abbrev pub max_port : ℕ
max_port = 65535

module _ (bind : ℕ → Result Text (Unit {0})) where
  -- The loop from a port on; `none` if the fuel runs out.
  unfoldable pub search_port : ℕ → ℕ → Option (Result Text ℕ)
  search_port zero port = none
  search_port (suc fuel) port =
      let rest = search_port fuel (suc port) in
      elim (bind port) [
        | ok _ ↦ some (ok port)
        | err e ↦ if port == max_port then some (err e) else rest
      ]

  unfoldable pub http_port : Option ℕ → Option (Result Text ℕ)
  unfolding search_port
  http_port (some port) = elim (bind port) [ ok _ ↦ some (ok port) | err e ↦ some (err e) ]
  http_port none = search_port (suc max_port - default_port) default_port

unfoldable pub chosen_hostname : Option Text → Text → Text
chosen_hostname none system = trim_end_matches 46 system
chosen_hostname (some configured) system = trim_end_matches 46 configured

-- The commands that a reboot runs after its delay, in their order. The result is the exit's
-- success, or an error.
abbrev pub systemctl_reboot : Text × List Text
systemctl_reboot = (lit "/usr/bin/sudo", lit "-n" ∷ lit "/usr/bin/systemctl" ∷ lit "reboot" ∷ [])

abbrev pub fallback_reboot : Text × List Text
fallback_reboot = (lit "/usr/bin/sudo", lit "-n" ∷ lit "/usr/sbin/reboot" ∷ [])

module _ {S : Type 0} (run : Text × List Text → Exec S Bool) where
  abbrev after_systemctl : Result Text Bool × S → S
  after_systemctl (ok true, s) = s
  after_systemctl (ok false, s) = (run fallback_reboot s).1
  after_systemctl (err e, s) = (run fallback_reboot s).1

  unfoldable pub execute_reboot : S → S
  execute_reboot s = after_systemctl (run systemctl_reboot s)
