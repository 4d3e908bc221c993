-- ===== src/Cli/Status/Workers.antt =====
-- The workers of `run_status` in cli/src/main.rs: the loop that receives targets, and one task for
-- each. A task first takes its address, or is skipped if it was taken; later it has its answer,
-- prints it, and pushes its report. Nothing reads the printed texts, the reports or the flag of
-- failures before all tasks have ended, so that these are one step. The bar keeps its position and
-- its length.
pub mod Schedules
pub mod Fairness
use brewmble.Prelude.{Bool, List, Text, [], false, if◌then◌else◌, suc, ℕ, ◌++◌, ◌||◌, ◌∷◌, ◌≡◌}
use brewmble.Prelude.Sets.{set_insert}
use brewmble.Cli.Pin.{or_address}
use brewmble.Cli.Status.{StatusReport, node_output}
use brewmble.Cli.Status.Targets.{Target}

-- A report, with the address that it is about.
pub record NodeReport : Type 0 where
  pub address : Text
  pub name : Text
  pub is_failed : Bool
  pub outdated : Bool

-- The targets that the channel still gives, the tasks that have not begun, those that wait for an
-- answer, and what they share.
pub record Pool : Type 0 where
  pub incoming : List Target
  pub spawned : List Target
  pub running : List Target
  pub seen_targets : List Text
  pub node_reports : List NodeReport
  pub printed : List Text
  pub any_failed : Bool
  pub position : ℕ
  pub total : ℕ

abbrev pub start_pool : List Target → Pool
start_pool targets = record {
  incoming = targets;
  spawned = [];
  running = [];
  seen_targets = [];
  node_reports = [];
  printed = [];
  any_failed = false;
  position = 0;
  total = 0;
}

-- The loop receives a target and spawns its task.
unfoldable pub receive_target : Target → List Target → Pool → Pool
receive_target t rest p = record p { incoming = rest; spawned = t ∷ p.spawned; total = suc p.total }

-- A task begins; the other ones that have not begun are given.
unfoldable pub begin_task : Target → List Target → Pool → Pool
begin_task t others p =
    let (new, seen) = set_insert t.0 p.seen_targets in
    if new
    then record p { spawned = others; seen_targets = seen; running = t ∷ p.running }
    else record p { spawned = others; position = suc p.position }

module _ (query : Text → StatusReport) where
  abbrev pub report_of : Target → NodeReport
  report_of (address, name) =
      let r = query address in
      record {
        address = address;
        name = or_address name address;
        is_failed = r.is_failed;
        outdated = r.outdated;
      }

  -- A task has its answer and ends; the other ones that wait are given.
  unfoldable pub end_task : Target → List Target → Pool → Pool
  end_task t others p = record p {
    running = others;
    node_reports = p.node_reports ++ (report_of t ∷ []);
    printed = p.printed ++ (node_output (or_address t.1 t.0) t.0 (query t.0) ∷ []);
    any_failed = (report_of t).is_failed || p.any_failed;
    position = suc p.position;
  }

  pub data Step (p : Pool) : Pool → Type 0 where
    receive :
        (t : Target) (rest : List Target) → p.incoming ≡ t ∷ rest → Step p (receive_target t rest p)
    begin :
        (t : Target) (before after : List Target)
        → p.spawned ≡ before ++ (t ∷ after)
        → Step p (begin_task t (before ++ after) p)
    finish :
        (t : Target) (before after : List Target)
        → p.running ≡ before ++ (t ∷ after)
        → Step p (end_task t (before ++ after) p)

  -- A run of a number of steps.
  pub data Run (p : Pool) : ℕ → Pool → Type 0 where
    here : Run p 0 p
    next : {n : ℕ} {q r : Pool} → Run p n q → Step q r → Run p (suc n) r

-- The loop and all tasks have ended.
pub record IsDone (p : Pool) : Type 0 where
  pub no_incoming : p.incoming ≡ []
  pub no_spawned : p.spawned ≡ []
  pub no_running : p.running ≡ []
