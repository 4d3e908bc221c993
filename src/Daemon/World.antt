-- ===== src/Daemon/World.antt =====
-- `CommandRunner` and `RealCommandRunner` of daemon/src/package_manager/mod.rs, and what the
-- process sees of the machine. What a command answers and how long it takes is a parameter.
use brewmble.Prelude.{Bool, ℕ, ◌+◌, List, ◌∷◌, [], Text, Result}

-- `std::process::Output`: `success` is `status.success()`, `status` its `Display` text, and the
-- streams are what `String::from_utf8_lossy` gives of them.
pub record Output : Type 0 where
  pub success : Bool
  pub status : Text
  pub stdout : Text
  pub stderr : Text

pub record Command : Type 0 where
  pub program : Text
  pub args : List Text
  pub env : List (Text × Text)

-- The commands that were run, the newest first, and the monotonic clock in nanoseconds.
pub record World : Type 0 where
  pub log : List Command
  pub clock : ℕ

-- The machine: the answer to a command, an `io::Error` by its text, and the time that it takes.
pub record Machine : Type 0 where
  pub answer : World → Command → Result Text Output
  pub duration : World → Command → ℕ

module _ (machine : Machine) where
  unfoldable pub execute : Command → World → Result Text Output × World
  execute c w =
      (machine.answer w c, record { log = c ∷ w.log; clock = w.clock + machine.duration w c })

  unfoldable pub run_with_env :
      Text → List Text → List (Text × Text) → World → Result Text Output × World
  unfolding execute
  run_with_env program args env w = execute (record { program = program; args = args; env = env }) w

  unfoldable pub run : Text → List Text → World → Result Text Output × World
  unfolding execute
  run program args w = execute (record { program = program; args = args; env = [] }) w
