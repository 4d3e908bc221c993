-- ===== src/Cli/Tests/Contacting.antt =====
-- A command and a daemon that it is sent to, at concrete inputs.
use brewmble.Prelude.{
  zero, suc, Bool, List, Option, Result, Text, [], err, eq_text, false, if◌then◌else◌, lit, none,
  ok, refl, some, strip_prefix, strip_prefix-append, true, ℕ, ◌&&◌, ◌++◌, ◌∷◌, ◌≡◌, ◌↔◌, decimal,
  eq_name, ◌==◌,
}
use brewmble.Rest.{path_status}
use brewmble.Daemon.Manager.{PackageManager}
use brewmble.Daemon.Handlers.{AppState, Node, start}
use brewmble.Daemon.Serving.{
  Handler, Method, Reply, Route, Router, get_method, post_method, respond, routes,
}
use brewmble.Daemon.Serving.Routing.{IsRouter}
use brewmble.Cli.Config.{NodeConfig, Config}
use brewmble.Cli.Pin.{PinOutcome}
use brewmble.Cli.Node.{upgrade}
use brewmble.Cli.Tests.{beta}
use brewmble.Cli.Status.{Sent, answered, query_status}
use brewmble.Prelude.{
  eq_name, Bool, List, Option, Result, Text, [], decimal, eq_text, err, false, if◌then◌else◌, lit,
  none, ok, refl, some, strip_prefix, strip_prefix-append, true, ℕ, ◌&&◌, ◌++◌, ◌==◌, ◌↔◌, ◌∷◌, ◌≡◌,
  suc, zero,
}
use brewmble.Cli.Node.Sending.{HttpClient, Response}
use brewmble.Contacted.{after_request}
use brewmble.Contacted.Outdated.{IsStatusWire, HasUpdates, query_status_outdated}
use brewmble.Cli.Tests.Bodies.{
  words, unwords, unwords-words, bit, delay_words, upgrade_of, status_words, status_of,
  status_of-words, codec,
}

abbrev same_method : Method → Method → Bool
same_method get_method get_method = true
same_method post_method post_method = true
same_method get_method post_method = false
same_method post_method get_method = false

-- A machine with one update.
abbrev manager : PackageManager
manager = record {
  State = Unit {0};
  name = lit "apt";
  version = λ s. (lit "2.6.1", s);
  is_available = λ s. (true, s);
  get_updates = λ s. (ok (lit "curl" ∷ []), s);
  dry_run_upgrade = λ s. (ok (lit "curl" ∷ []), s);
  full_upgrade = λ s. (ok tt, s);
  auto_clean = λ s. (ok tt, s);
  auto_remove = λ s. (ok tt, s);
}

abbrev app_at : Text → AppState
app_at address = record {
  allow_reboot = true;
  auto_clean = true;
  auto_remove = true;
  pm_available = true;
  pm_version = lit "2.6.1";
  daemon_version = lit "0.1.0";
}

abbrev node_at : Text → Node manager
node_at address = start manager tt

abbrev search : List (Route manager) → Method → Text → Option (Handler manager)
search [] m p = none
search (r ∷ rs) m p =
    let rest = search rs m p in
    if same_method r.method m && eq_text r.path p then some r.handler else rest

abbrev router : (address : Text) → Router manager codec (app_at address)
router address = record { find_route = search; unrouted = λ m p. record { code = 404; body = [] } }

routed : (address : Text) → IsRouter manager codec (app_at address) (router address)
unfolding routes eq_text lit
routed address = (refl, (refl, (refl, (refl, tt))))

abbrev status_text : ℕ → Text
status_text code = if code == 200 then lit "200 OK" else decimal code

abbrev https : Text → Text
https t = lit "https://" ++ t

abbrev shown : Reply → Response
shown r = record { status = status_text r.code; body = r.body }

-- Nothing else happens to the daemon.
abbrev between : ℕ → Text → Node manager → Node manager
between k address n = n

-- The daemon before the first request, and after it.
abbrev state : ℕ → Node manager
state zero = node_at beta.address
state (suc k) =
    after_request manager codec app_at between router status_text https (upgrade false) 0
      beta.address node_at beta.address

abbrev answered_by : ℕ → Option Text → Text → Result Text Response
answered_by k none body = err (lit "no such host")
answered_by k (some path) body =
    let address = beta.address in
    ok (
      shown
        (respond manager codec (app_at address) (router address) post_method path body (state k)).0)

abbrev client : HttpClient
client = record {
  write_reboot = λ r. words (delay_words r.delay_secs);
  write_upgrade = λ r. bit r.dry_run ∷ [];
  read_reboot = λ t. some (record { message = t });
  read_upgrade = λ t. upgrade_of (unwords t);
  post = λ k url body. answered_by k (strip_prefix (https beta.address) url) body;
}

abbrev saving : Config → Result Text (Unit {0})
saving c = ok tt

-- The check of every fingerprint fails.
abbrev checked : NodeConfig → Result Text PinOutcome
checked n = err (lit "fingerprint mismatch")

abbrev success : ℕ → Bool
success code = code == 200

abbrev received : Reply → Sent
received r = answered (record {
  status = status_text r.code;
  success = success r.code;
  status_response = status_of (unwords r.body);
  json = none;
})

abbrev status_of_beta : Text → Sent
status_of_beta url =
    let address = beta.address in
    received
      (respond manager codec (app_at address) (router address) get_method path_status []
        (node_at address)).0

status_wire :
    IsStatusWire manager codec app_at node_at router status_text https success
      (λ t. status_of (unwords t))
      (λ t. none)
      status_of_beta
status_wire = record {
  success_ok = refl;
  precondition_failed = refl;
  internal_error = refl;
  status_response = λ r. rw (unwords-words (status_words r)) (status_of-words r);
}

query_status_outdated_example :
    ((query_status https status_of_beta beta.address).is_failed ≡ false)
    × ((query_status https status_of_beta beta.address).outdated ≡ true
        ↔ HasUpdates manager codec app_at node_at router status_text https success
            (λ t. status_of (unwords t))
            (λ t. none)
            status_of_beta
            (app_at beta.address)
            (node_at beta.address))
query_status_outdated_example =
    query_status_outdated manager codec app_at node_at router status_text https success
      (λ t. status_of (unwords t)) (λ t. none) status_of_beta beta.address status_wire
      (routed beta.address) refl
