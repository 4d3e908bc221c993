-- ===== src/Cli/Status/Reported.antt =====
-- What `run_status` of cli/src/main.rs reports.
use brewmble.Prelude.{
  ℕ, suc, Bool, List, [], ◌∷◌, ◌++◌, Text, Option, none, some, Result, ok, eq_text_iff, true, false,
  not, ◌||◌, ◌&&◌, is_empty, ◌≡◌, refl, arith, if◌then◌else◌, map,
}
use brewmble.Prelude.Sets.{set_insert, member, member-append, occurrences, to_count}
use brewmble.Cli.Config.{NodeConfig, Config}
use brewmble.Cli.Pin.{PinOutcome}
use brewmble.Cli.Pins.{validate_and_update_pins}
use brewmble.Cli.Pins.Saving.{check_pins}
use brewmble.Cli.Session.{Session, save_config}
use brewmble.Cli.Status.{StatusReport}
use brewmble.Cli.Status.Targets.{
  Target, profile_nodes, initial_targets, nodes_to_validate, queue, insert_targets, insert_nodes,
  target_address,
}
use brewmble.Cli.Status.Workers.{
  Pool, start_pool, receive_target, begin_task, end_task, receive, begin, finish, Run, here, next,
  IsDone,
}
use brewmble.Cli.Status.Workers.Schedules.{
  target_addresses-append, Run-reported, target_addresses, reported,
}
use brewmble.Cli.Status.Summary.{summary}
use brewmble.Cli.Status.Running.{named, end_all, work, run_pool, found, run_status}

module _ (query : Text → StatusReport) where
  end_all-Run :
      {p q : Pool} {n : ℕ} (rs : List Target)
      → q.running ≡ rs
      → Run query p n q
      → (m : ℕ) × Run query p m (end_all query rs q)
  end_all-Run {n = n} [] e run = (n, run)
  end_all-Run {n = n} (t ∷ ts) e run = (suc n, next run (finish t [] ts e))

  work-Run :
      {p q : Pool} {n : ℕ} (t : Target) (rest : List Target)
      → q.incoming ≡ t ∷ rest
      → Run query p n q
      → (m : ℕ) × Run query p m (work query t rest q)
  unfolding receive_target
  work-Run {q = q} t rest e run =
      end_all-Run _ refl (next (next run (receive t rest e)) (begin t [] q.spawned refl))

  work_done :
      (t : Target) (rest : List Target) (p : Pool)
      → p.spawned ≡ []
      → p.running ≡ []
      → ((work query t rest p).incoming ≡ rest)
        × ((work query t rest p).spawned ≡ [])
        × ((work query t rest p).running ≡ [])
  unfolding receive_target begin_task end_task set_insert
  work_done t rest p e f = grind (arith, e, f)

  -- The tasks one after the other are a schedule, and it ends.
  run_pool-Run :
      {p : Pool} (ts : List Target) (n : ℕ) (q : Pool)
      → Run query p n q
      → q.incoming ≡ ts
      → q.spawned ≡ []
      → q.running ≡ []
      → (m : ℕ) × Run query p m (run_pool query ts q) × IsDone (run_pool query ts q)
  unfolding run_pool
  run_pool-Run [] n q run e f g =
      (n, run, record { no_incoming = e; no_spawned = f; no_running = g })
  run_pool-Run (t ∷ ts) n q run e f g =
      let (m, run') = work-Run t ts e run in
      let (i, s, r) = work_done t ts q f g in run_pool-Run ts m (work query t ts q) run' i s r

  run_pool-reported :
      (ts : List Target) (a : Text)
      → occurrences a (reported (run_pool query ts (start_pool ts)).node_reports)
        ≡ to_count (member a (target_addresses ts))
  run_pool-reported ts a =
      let (m, run, done) = run_pool-Run ts 0 (start_pool ts) here refl refl refl in
      (Run-reported query ts m _ run done).0 a

-- The addresses that are meant: those of the targets, or all of the profile if there is no target
-- and no discovery, and those that the discovery finds.
abbrev pub node_addresses : List NodeConfig → List Text
node_addresses [] = []
node_addresses (n ∷ ns) = n.address ∷ node_addresses ns

abbrev pub meant : List NodeConfig → List Text → List Text
meant nodes [] = []
meant nodes (t ∷ ts) = target_address nodes t ∷ meant nodes ts

abbrev pub given_or_all : Bool → List Text → List NodeConfig → List Text
given_or_all discover_all targets nodes =
    if is_empty targets && not discover_all then node_addresses nodes else meant nodes targets

insert_targets-member :
    (nodes : List NodeConfig) (ts seen : List Text) (a : Text)
    → member a (insert_targets nodes ts seen) ≡ (member a (meant nodes ts) || member a seen)
unfolding insert_targets member set_insert
insert_targets-member nodes [] seen a = refl
insert_targets-member nodes (t ∷ ts) seen a =
    grind (arith, insert_targets-member nodes ts, eq_text_iff (target_address nodes t) a)

insert_nodes-member :
    (ns : List NodeConfig) (seen : List Text) (a : Text)
    → member a (insert_nodes ns seen) ≡ (member a (node_addresses ns) || member a seen)
unfolding insert_nodes member set_insert
insert_nodes-member [] seen a = refl
insert_nodes-member (n ∷ ns) seen a = grind (arith, insert_nodes-member ns, eq_text_iff n.address a)

insert_targets_some :
    (nodes : List NodeConfig) (ts seen : List Text)
    → is_empty seen ≡ false
    → is_empty (insert_targets nodes ts seen) ≡ false
unfolding insert_targets set_insert
insert_targets_some nodes [] seen h = h
insert_targets_some nodes (t ∷ ts) seen h = insert_targets_some nodes ts _ (ground arith)

insert_targets_empty :
    (nodes : List NodeConfig) (ts : List Text) → is_empty (insert_targets nodes ts []) ≡ is_empty ts
unfolding insert_targets set_insert member
insert_targets_empty nodes [] = refl
insert_targets_empty nodes (t ∷ ts) = insert_targets_some nodes ts _ refl

initial_targets-member :
    (discover_all : Bool) (targets : List Text) (nodes : List NodeConfig) (a : Text)
    → member a (initial_targets discover_all targets nodes)
      ≡ member a (given_or_all discover_all targets nodes)
unfolding initial_targets member
initial_targets-member discover_all [] nodes a = ground (arith, insert_nodes-member nodes [] a)
initial_targets-member discover_all (t ∷ ts) nodes a =
    ground (arith, insert_targets_empty nodes (t ∷ ts), insert_targets-member nodes (t ∷ ts) [] a)

abbrev pub found_addresses : List (Text × Text) → List Text
found_addresses [] = []
found_addresses ((a, n) ∷ ts) = a ∷ found_addresses ts

abbrev pub found_if : Bool → Option (List (Text × Text)) → List Text
found_if discover_all none = []
found_if discover_all (some ts) = if discover_all then found_addresses ts else []

queue-addresses :
    (nodes : List NodeConfig) (ss : List Text) → target_addresses (queue nodes ss) ≡ ss
unfolding queue
queue-addresses nodes [] = refl
queue-addresses nodes (s ∷ ss) = rw (queue-addresses nodes ss) refl

named-addresses : (ts : List (Text × Text)) → target_addresses (map named ts) ≡ found_addresses ts
named-addresses [] = refl
named-addresses ((a, n) ∷ ts) = rw (named-addresses ts) refl

found-addresses :
    (discover_all : Bool) (ts : Option (List (Text × Text)))
    → target_addresses (found discover_all ts) ≡ found_if discover_all ts
found-addresses discover_all none = refl
found-addresses true (some ts) = named-addresses ts
found-addresses false (some ts) = refl

queued-member :
    (discover_all : Bool) (targets : List Text) (nodes : List NodeConfig)
    (discovered : Option (List (Text × Text))) (a : Text)
    → member a (
        target_addresses (
          queue nodes (initial_targets discover_all targets nodes)
          ++ found discover_all discovered))
      ≡ (member a (given_or_all discover_all targets nodes)
          || member a (found_if discover_all discovered))
queued-member discover_all targets nodes discovered a =
    rw
      (
        target_addresses-append (queue nodes (initial_targets discover_all targets nodes))
            (found discover_all discovered),
        queue-addresses nodes (initial_targets discover_all targets nodes),
        found-addresses discover_all discovered,
        member-append a (initial_targets discover_all targets nodes)
            (found_if discover_all discovered),
        initial_targets-member discover_all targets nodes a,
      )
      refl

module _ (write : Config → Result Text (Unit {0})) (check : NodeConfig → Result Text PinOutcome)
    (build_client : Result Text (Unit {0})) (query : Text → StatusReport)
    (discovered : Option (List (Text × Text))) where
  -- If the configuration can be saved and the client can be built, the command succeeds, and each
  -- address that a target names has exactly one report, no target and no discovery standing for all
  -- nodes of the profile; so has each address that the discovery, if it is asked for, finds; no
  -- other address has a report.
  pub run_status_reports :
      (discover_all : Bool) (targets : List Text) (s : Session)
      → ((c : Config) → write c ≡ ok tt)
      → build_client ≡ ok tt
      → (out : List Text × Pool) × ((run_status write check build_client query discovered
            discover_all targets s).0
          ≡ ok out)
        × ((a : Text)
            → occurrences a (reported out.1.node_reports)
              ≡ to_count (
                  member a (given_or_all discover_all targets (profile_nodes s.config))
                  || member a (found_if discover_all discovered)))
  unfolding run_status check_pins save_config
  run_status_reports discover_all targets s w b =
      let nodes = profile_nodes s.config in
      let initial = initial_targets discover_all targets nodes in
      let queued = queue nodes initial ++ found discover_all discovered in
      let h =
        w
          (validate_and_update_pins check s.config
            (nodes_to_validate discover_all initial nodes)).0 in
      let pool = run_pool query queued (start_pool queued) in
      (
        (pool.printed ++ summary pool.node_reports, pool),
        ground arith,
        λ a.
            rw (← queued-member discover_all targets nodes discovered a)
              (run_pool-reported query queued a),
      )
