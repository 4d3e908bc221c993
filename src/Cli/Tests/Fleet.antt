-- ===== src/Cli/Tests/Fleet.antt =====
-- The commands over several nodes at concrete inputs: discovery, status and versions.
use brewmble.Prelude.{
  List, Option, Result, Text, [], any, arith, err, false, length, lit, none, ok, refl, some,
  strip_prefix, true, ℕ, ◌*◌, ◌+◌, ◌++◌, ◌||◌, ◌∷◌, ◌≡◌, ◌≤◌, eq_text, if◌then◌else◌,
}
use brewmble.Prelude.Dict.{get}
use brewmble.Prelude.Sets.{member, occurrences, set_insert, to_count}
use brewmble.Rest.{txt_tls_value}
use brewmble.Daemon.Announce.{Mdns, ServiceInfo, instance_hostname, register_mdns, service_info}
use brewmble.Announced.{Carries, announced_shown}
use brewmble.Cli.Sanitize.{IsClean, sanitize_display, sanitize_display-IsClean}
use brewmble.Cli.Config.{NodeConfig, ProfileConfig, Config, default_config, default_profile_name}
use brewmble.Cli.Pin.{PinOutcome, learned}
use brewmble.Cli.Pins.{validate_and_update_pins}
use brewmble.Cli.Session.{Session}
use brewmble.Cli.Discover.{
  ResolvedService, ServiceEvent, service_resolved, Round, event, listen, on_target, no_targets,
  discover_targets_with_timeout, entry_id, entry_tls, entry_instance, entry_host,
}
use brewmble.Cli.Discover.Listening.{EndsBy, hear, listen_ends}
use brewmble.Cli.Discover.Collecting.{addresses_of, announced, discover_targets_once}
use brewmble.Cli.Status.{StatusReport, Sent, failed}
use brewmble.Cli.Status.Targets.{Target, profile_nodes}
use brewmble.Cli.Status.Workers.{
  NodeReport, Pool, start_pool, receive_target, begin_task, end_task, Run, here, next, receive,
  begin, finish, IsDone,
}
use brewmble.Cli.Status.Workers.Schedules.{Run-reported, reported, target_addresses}
use brewmble.Cli.Status.Workers.Fairness.{pool_ends}
use brewmble.Cli.Status.Running.{run_status}
use brewmble.Cli.Status.Reported.{found_if, given_or_all, run_status_reports}
use brewmble.Cli.Version
use brewmble.Cli.Version.{run_version}
use brewmble.Cli.Version.Checked.{passing, run_version_asks}

-- A daemon that announces itself, and what the network carries.
abbrev mdns : Mdns
mdns = record { start = ok tt; new_service = λ info. ok tt; register = λ info. ok tt }

abbrev hostname : Text
hostname = lit "node1.lan"

abbrev info : ServiceInfo
info = service_info 4712 hostname none

abbrev service : ResolvedService
service = record {
  fullname = info.instance_name ++ (lit "." ++ info.service_type);
  host = info.host_name;
  port = 4712;
  addresses = lit "10.0.0.1" ∷ lit "10.0.0.2" ∷ [];
  txt_properties = info.properties;
}

info_registered : register_mdns mdns 4712 hostname none ≡ some info
unfolding register_mdns
info_registered = refl

service-Carries : Carries info service
unfolding service_info
service-Carries = record { fullname = refl; host = refl; port = refl; properties = refl }

hostname-IsClean : IsClean hostname
unfolding lit sanitize_display
hostname-IsClean = sanitize_display-IsClean hostname

hostname_plain : strip_prefix (lit "id=") hostname ≡ none
unfolding lit strip_prefix
hostname_plain = refl

announced_shown_example :
    (entry_id service ≡ hostname)
    × (entry_tls service ≡ txt_tls_value)
    × (entry_instance service ≡ lit "brewmbled-" ++ instance_hostname hostname)
    × (entry_host service ≡ lit "brewmbled-" ++ (instance_hostname hostname ++ lit ".local"))
    × (service.port ≡ 4712)
announced_shown_example =
    announced_shown mdns 4712 hostname none info service info_registered service-Carries
      hostname-IsClean hostname_plain

-- A service is resolved every two ticks.
abbrev chatter : ℕ → ℕ → Round
chatter call remaining = record { received = event (service_resolved service); took = 2 }

listen_ends_example : EndsBy (3 + 2) (listen chatter 3 on_target (lit "closed") 4 0 0 no_targets)
listen_ends_example =
    listen_ends chatter 3 2 on_target (lit "closed") (λ c r. omega arith) (λ c r. omega arith) 4 0 0
      no_targets (omega arith) (omega arith)

abbrev heard : List ServiceEvent
heard = service_resolved service ∷ service_resolved service ∷ []

heard_twice :
    listen chatter (0 + 3) hear (lit "mDNS error: " ++ lit "closed") 4 0 0 [] ≡ some (ok heard, 4)
unfolding listen
heard_twice = refl

discover_targets_once_example :
    (ts : List (Text × Text)) × (discover_targets_with_timeout (ok tt) chatter (lit "closed") 4 0 3
      ≡ some (ok ts, 4))
    × ((a : Text) → occurrences a (addresses_of ts) ≡ to_count (member a (announced heard)))
discover_targets_once_example =
    discover_targets_once chatter (lit "closed") 4 0 3 heard 4 heard_twice

-- One address, sent twice: from the command line and from the discovery.
abbrev query : Text → StatusReport
query address = record {
  status = lit "200 OK";
  message = lit "System is up to date";
  details = [];
  is_failed = false;
  outdated = false;
}

abbrev first : Target
first = (lit "10.0.0.1:4712", none)

abbrev second : Target
second = (lit "10.0.0.1:4712", some (lit "alpha"))

abbrev sent : List Target
sent = first ∷ second ∷ []

abbrev ended : Pool
ended = end_task query second [] (
    begin_task first [] (
      begin_task second (first ∷ [])
        (receive_target second [] (receive_target first (second ∷ []) (start_pool sent)))))

-- The second task begins first, and the first one is skipped.
overtaken : Run query (start_pool sent) 5 ended
unfolding receive_target begin_task set_insert member eq_text lit
overtaken =
    next
      (next
        (next (next (next here (receive first (second ∷ []) refl)) (receive second [] refl))
          (begin second [] (first ∷ []) refl))
        (begin first [] [] refl))
      (finish second [] [] refl)

ended-IsDone : IsDone ended
unfolding receive_target begin_task end_task set_insert member eq_text lit
ended-IsDone = record { no_incoming = refl; no_spawned = refl; no_running = refl }

Run-reported_example :
    ((a : Text)
      → occurrences a (reported ended.node_reports) ≡ to_count (member a (target_addresses sent)))
    × (ended.position ≡ length sent)
    × (ended.total ≡ length sent)
    × (ended.any_failed ≡ any (λ (r : NodeReport). r.is_failed) ended.node_reports)
Run-reported_example = Run-reported query sent 5 ended overtaken ended-IsDone

pool_ends_example :
    (m : ℕ) × (q : Pool) × Run query ended m q × IsDone q × (5 + m ≤ 3 * length sent)
pool_ends_example = pool_ends query sent 5 ended overtaken

-- A profile of two nodes; the check of the second one fails.
abbrev alpha : NodeConfig
alpha = record { name = some (lit "alpha"); address = lit "10.0.0.1:4712"; fingerprint = none }

abbrev beta : NodeConfig
beta = record {
  name = some (lit "beta");
  address = lit "10.0.0.2:4712";
  fingerprint = some (lit "AA");
}

abbrev fleet : ProfileConfig
fleet = record { nodes = alpha ∷ beta ∷ [] }

abbrev session : Session
session = record {
  config = record default_config { profiles = (default_profile_name, fleet) ∷ [] };
  saved = none;
}

abbrev check : NodeConfig → Result Text PinOutcome
check node =
    if eq_text node.address (lit "10.0.0.1:4712")
    then ok (learned (lit "BB"))
    else err (lit "fingerprint mismatch")

abbrev writes : Config → Result Text (Unit {0})
writes c = ok tt

abbrev found : Option (List (Text × Text))
found = some ((lit "10.0.0.3:4712", lit "gamma") ∷ [])

run_status_reports_example :
    (out : List Text × Pool) × ((run_status writes check
        (ok tt)
        query
        found
        true
        (lit "beta" ∷ [])
        session).0
      ≡ ok out)
    × ((a : Text)
        → occurrences a (reported out.1.node_reports)
          ≡ to_count (
              member a (given_or_all true (lit "beta" ∷ []) (profile_nodes session.config))
              || member a (found_if true found)))
run_status_reports_example =
    run_status_reports writes check (ok tt) query found true (lit "beta" ∷ []) session (λ c. refl)
      refl

has_fleet : get session.config.active_profile session.config.profiles ≡ some fleet
unfolding get eq_text lit
has_fleet = refl

abbrev silent : Text → Sent
silent url = failed (lit "connection refused")

abbrev itself : Text → Text
itself target = target

run_version_asks_example :
    let (pinned, updated) = validate_and_update_pins check session.config fleet.nodes in
    (out : Version.Round) × (run_version check itself silent writes (ok tt) (lit "0.1.0") session
      ≡ (ok out, record { config = pinned; saved = if updated then some pinned else none }))
    × (out.sent ≡ passing check itself silent fleet.nodes)
run_version_asks_example =
    run_version_asks check itself silent writes (ok tt) (lit "0.1.0") session fleet (λ c. refl) refl
      has_fleet
