-- ===== src/Cli/Discover.antt =====
-- The discovery of daemons by multicast DNS in cli/src/main.rs: what is shown of a service, the
-- loop that listens until its deadline, `discover_targets_with_timeout`, and `run_discover`. The
-- resolver is a parameter: what each call of `recv_timeout` gives, and the time that passes until
-- the clock is read again. A text for the terminal that does not depend on a service is left out.
pub mod Listening
pub mod Collecting
use brewmble.Prelude.{
  Bool, List, Option, Result, Text, [], decimal, eq_text, err, false, find, if◌then◌else◌, join,
  leb, lit, none, ok, some, strip_prefix, strip_suffix, suc, trim_end_matches, true, zero, ℕ, ◌+◌,
  ◌++◌, ◌-◌, ◌∷◌,
}
use brewmble.Prelude.Exec.{Exec}
use brewmble.Prelude.Sets.{set_insert}
use brewmble.Rest.{service_type, service_domain, txt_tls}
use brewmble.Cli.Sanitize.{sanitize_display}
use brewmble.Cli.Config.{Config}
use brewmble.Cli.Merge.{merge_nodes}
use brewmble.Cli.Session.{Session, save_config}

-- What the library `mdns_sd` gives of a service; an address is its `Display` text.
pub record ResolvedService : Type 0 where
  pub fullname : Text
  pub host : Text
  pub port : ℕ
  pub addresses : List Text
  pub txt_properties : List (Text × Text)

-- The library's events that the code tells apart.
pub data ServiceEvent : Type 0 where
  service_resolved : ResolvedService → ServiceEvent
  search_stopped : Text → ServiceEvent
  other : ServiceEvent

pub data Received : Type 0 where
  event : ServiceEvent → Received
  timed_out : Received
  disconnected : Received

-- A call of `recv_timeout`, and the time from the reading of the clock before it to the next one.
pub record Round : Type 0 where
  pub received : Received
  pub took : ℕ

abbrev pub or_given : Text → Option Text → Text
or_given t none = t
or_given t (some s) = s

unfoldable pub clean_node_id : Text → Text
clean_node_id id = or_given id (strip_prefix (lit "id=") id)

abbrev has_key : Text → Text × Text → Bool
has_key key (k, v) = eq_text k key

-- The value of a TXT property, changed, or the empty text.
abbrev pub property : (Text → Text) → Option (Text × Text) → Text
property f none = []
property f (some (k, v)) = f v

unfoldable pub entry_id : ResolvedService → Text
unfolding clean_node_id
entry_id info =
    property (λ v. sanitize_display (clean_node_id v))
      (find (has_key (lit "id")) info.txt_properties)

unfoldable pub entry_host : ResolvedService → Text
entry_host info = sanitize_display (trim_end_matches b'.' info.host)

unfoldable pub entry_addresses : ResolvedService → Text
entry_addresses info = join (lit ",") info.addresses

-- `SERVICE_TYPE.trim_end_matches('.')`, a dot, and the domain.
abbrev pub service_name : Text
service_name = trim_end_matches b'.' service_type ++ (lit "." ++ service_domain)

unfoldable pub entry_instance : ResolvedService → Text
entry_instance info =
    sanitize_display (or_given info.fullname (strip_suffix (lit "." ++ service_name) info.fullname))

unfoldable pub entry_tls : ResolvedService → Text
entry_tls info = property sanitize_display (find (has_key txt_tls) info.txt_properties)

-- `format!("{}:{}", addr, info.port)`.
abbrev pub target_of : ResolvedService → Text → Text
target_of info addr = addr ++ (lit ":" ++ decimal info.port)

-- The loop of both functions. The calls are numbered, and each says how long it waits at most;
-- `none` if the fuel runs out, else the outcome and the time at which the loop ended.
module _ {A : Type 0} (receive : ℕ → ℕ → Round) (deadline : ℕ) (on_event : ServiceEvent → A → A)
    (disconnection : Text) where
  unfoldable pub listen : ℕ → ℕ → ℕ → A → Option (Result Text A × ℕ)
  listen zero call now a = none
  listen (suc fuel) call now a = elim (leb deadline now) [
    | true ↦ some (ok a, now)
    | false ↦ elim ((receive call (deadline - now)).received) [
      | event e ↦ listen fuel (suc call) (now + (receive call (deadline - now)).took) (on_event e a)
      | timed_out ↦ some (ok a, now + (receive call (deadline - now)).took)
      | disconnected ↦ some (err disconnection, now + (receive call (deadline - now)).took)
    ]
  ]

-- `discover_targets_with_timeout`: the set of the targets seen, and the targets with their names.
pub record Targets : Type 0 where
  pub seen : List Text
  pub targets : List (Text × Text)

abbrev pub no_targets : Targets
no_targets = record { seen = []; targets = [] }

abbrev add_target : Text → Text → Targets → Targets
add_target name target t =
    let (new, seen) = set_insert target t.seen in
    if new then record { seen = seen; targets = t.targets ++ ((target, name) ∷ []) } else t

unfoldable pub add_addresses : ResolvedService → List Text → Targets → Targets
add_addresses info [] t = t
add_addresses info (addr ∷ addrs) t =
    add_addresses info addrs (add_target (entry_instance info) (target_of info addr) t)

unfoldable pub on_target : ServiceEvent → Targets → Targets
unfolding add_addresses
on_target (service_resolved info) t = add_addresses info info.addresses t
on_target (search_stopped s) t = t
on_target other t = t

abbrev targets_of : Result Text Targets × ℕ → Result Text (List (Text × Text)) × ℕ
targets_of (ok t, now) = (ok t.targets, now)
targets_of (err e, now) = (err e, now)

abbrev with_targets :
    Option (Result Text Targets × ℕ) → Option (Result Text (List (Text × Text)) × ℕ)
with_targets none = none
with_targets (some r) = some (targets_of r)

-- The resolver is made and the search begun, or an error is returned at once. The text of the
-- library's error for a channel that was closed is a parameter.
unfoldable pub discover_targets_with_timeout :
    Result Text (Unit {0})
    → (ℕ → ℕ → Round)
    → Text
    → ℕ
    → ℕ
    → ℕ
    → Option (Result Text (List (Text × Text)) × ℕ)
discover_targets_with_timeout (err e) receive disconnection fuel now timeout = some (err e, now)
discover_targets_with_timeout (ok _) receive disconnection fuel now timeout = with_targets (
    listen receive (now + timeout) on_target (lit "mDNS error: " ++ disconnection) fuel 0 now
      no_targets)

-- `run_discover`: the full names seen, the rows of the table, and the nodes to merge.
pub record Discovered : Type 0 where
  pub seen : List Text
  pub rows : List Text
  pub nodes : List (Text × Text)

abbrev pub nothing_discovered : Discovered
nothing_discovered = record { seen = []; rows = []; nodes = [] }

unfoldable pub discovered_row : ResolvedService → Text
discovered_row info = join (lit "\t") (
    entry_id info
    ∷ entry_host info
    ∷ entry_addresses info
    ∷ decimal info.port
    ∷ entry_tls info
    ∷ entry_instance info
    ∷ [])

-- Only the first address of a service is kept.
abbrev pub first_node : ResolvedService → List Text → List (Text × Text)
first_node info [] = []
first_node info (addr ∷ addrs) = (target_of info addr, entry_id info) ∷ []

unfoldable pub on_discovered : ServiceEvent → Discovered → Discovered
on_discovered (service_resolved info) d =
    let (new, seen) = set_insert info.fullname d.seen in
    if new
    then record {
      seen = seen;
      rows = d.rows ++ (discovered_row info ∷ []);
      nodes = d.nodes ++ first_node info info.addresses;
    }
    else d
on_discovered (search_stopped s) d = d
on_discovered other d = d

-- The configuration as it is loaded, merged with what was discovered, and saved if that changed it.
module _ (write : Config → Result Text (Unit {0})) (load : Result Text Config) where
  unfoldable pub update_config : List (Text × Text) → Exec Session (Unit {0})
  update_config nodes s = elim load [
    | err e ↦ (err e, s)
    | ok config ↦
        let (config', updated) = merge_nodes config nodes in
        if updated
        then save_config write (record s { config = config' })
        else (ok tt, record s { config = config' })
  ]

  abbrev pub rows_after :
      List Text → Result Text (Unit {0}) × Session → Result Text (List Text) × Session
  rows_after rows (ok _, s) = (ok rows, s)
  rows_after rows (err e, s) = (err e, s)

  abbrev pub after_listening :
      Bool
      → Option (Result Text Discovered × ℕ)
      → Session
      → Option (Result Text (List Text) × Session)
  after_listening update none s = none
  after_listening update (some (err e, now)) s = some (err e, s)
  after_listening update (some (ok d, now)) s =
      if update then some (rows_after d.rows (update_config d.nodes s)) else some (ok d.rows, s)

  unfoldable pub run_discover :
      Result Text (Unit {0})
      → (ℕ → ℕ → Round)
      → ℕ
      → ℕ
      → ℕ
      → Bool
      → Session
      → Option (Result Text (List Text) × Session)
  unfolding update_config
  run_discover (err e) receive fuel now timeout update s = some (err e, s)
  run_discover (ok _) receive fuel now timeout update s =
      after_listening update
        (listen receive (now + timeout) on_discovered (lit "browse: receiver disconnected") fuel 0
          now nothing_discovered)
        s
