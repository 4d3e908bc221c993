-- ===== src/Cli/Status/Running.antt =====
-- `run_status` of cli/src/main.rs as a whole. The tasks are run one after the other here, in the
-- order of the queue, which is one of their schedules. The targets that the discovery finds, if it
-- ends well, are a parameter.
use brewmble.Prelude.{
  Bool, List, Option, Result, Text, [], err, if◌then◌else◌, map, none, ok, some, ◌++◌, ◌∷◌,
}
use brewmble.Prelude.Exec.{Exec, ◌>>◌}
use brewmble.Cli.Config.{NodeConfig, Config}
use brewmble.Cli.Pin.{PinOutcome}
use brewmble.Cli.Session.{Session}
use brewmble.Cli.Pins.Saving.{check_pins}
use brewmble.Cli.Progress.{NativeProgress, finish_error, finish_success, clear}
use brewmble.Cli.Status.{StatusReport}
use brewmble.Cli.Status.Targets.{Target, profile_nodes, initial_targets, nodes_to_validate, queue}
use brewmble.Cli.Status.Workers.{Pool, start_pool, receive_target, begin_task, end_task}
use brewmble.Cli.Status.Summary.{summary}

-- The task that was received last begins and ends.
abbrev pub end_all : (Text → StatusReport) → List Target → Pool → Pool
end_all query [] p = p
end_all query (t ∷ ts) p = end_task query t ts p

abbrev pub work : (Text → StatusReport) → Target → List Target → Pool → Pool
work query t rest p =
    let p' = begin_task t p.spawned (receive_target t rest p) in end_all query p'.running p'

unfoldable pub run_pool : (Text → StatusReport) → List Target → Pool → Pool
run_pool query [] p = p
run_pool query (t ∷ ts) p = run_pool query ts (work query t ts p)

abbrev pub named : Text × Text → Target
named (addr, name) = (addr, some name)

abbrev pub found : Bool → Option (List (Text × Text)) → List Target
found discover_all none = []
found discover_all (some targets) = if discover_all then map named targets else []

-- The display of the terminal at the end: the result is shown for half a second.
unfoldable pub finish_display : Bool → NativeProgress → NativeProgress
finish_display any_failed p =
    if p.supported then clear (if any_failed then finish_error p else finish_success p) else p

module _ (write : Config → Result Text (Unit {0})) (check : NodeConfig → Result Text PinOutcome)
    (build_client : Result Text (Unit {0})) (query : Text → StatusReport)
    (discovered : Option (List (Text × Text))) where
  abbrev pub end_status :
      Result Text (Unit {0}) → Pool → Session → Result Text (List Text × Pool) × Session
  end_status (err e) p s = (err e, s)
  end_status (ok _) p s = (ok (p.printed ++ summary p.node_reports, p), s)

  -- The texts that are printed, and the pool at the end.
  unfoldable pub run_status : Bool → List Text → Exec Session (List Text × Pool)
  run_status discover_all targets s =
      let nodes = profile_nodes s.config in
      let initial = initial_targets discover_all targets nodes in
      let queued = queue nodes initial ++ found discover_all discovered in
      (check_pins write check (nodes_to_validate discover_all initial nodes)
          >> end_status build_client (run_pool query queued (start_pool queued)))
        s
