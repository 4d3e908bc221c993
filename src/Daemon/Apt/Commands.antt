-- ===== src/Daemon/Apt/Commands.antt =====
-- The commands that apt.rs issues, by name.
use brewmble.Prelude.{List, Text, [], lit, ◌∷◌}
use brewmble.Daemon.World.{Command}
use brewmble.Daemon.Apt.{upgrade_args, upgrade_env}

abbrev sudo : List Text → Command
sudo args = record { program = lit "sudo"; args = args; env = [] }

abbrev pub update_command : Command
update_command = sudo (lit "apt-get" ∷ lit "update" ∷ [])

abbrev pub simulate_command : Command
simulate_command = sudo (lit "apt-get" ∷ lit "-s" ∷ lit "dist-upgrade" ∷ [])

abbrev pub upgrade_command : Command
upgrade_command = record { program = lit "sudo"; args = upgrade_args; env = upgrade_env }

abbrev pub clean_command : Command
clean_command = sudo (lit "apt-get" ∷ lit "autoclean" ∷ [])

abbrev pub remove_command : Command
remove_command = sudo (lit "apt-get" ∷ lit "autoremove" ∷ lit "-y" ∷ [])
