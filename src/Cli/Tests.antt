-- ===== src/Cli/Tests.antt =====
-- The command-line tool at concrete inputs: a configuration with two nodes in its default profile.
mod Stores
mod Fleet
mod Keys
mod Issuing
mod Runs
mod Saving
mod Bodies
mod Contacting
mod Provisioning
mod Platforms
use brewmble.Prelude.{
  List, Text, [], arith, decimal, eq_ignore_ascii_case, eq_text, err, false, if◌then◌else◌, inl,
  lit, none, ok, refl, some, starts_with, strip_prefix, true, ◌↔◌, ◌∷◌, ◌≡◌, Result, eq_name, inr,
  is_some, ℕ, ◌*◌, ◌/◌, eq_text_iff,
}
use brewmble.Prelude.Dict.{get, insert}
use brewmble.Prelude.Positions.{position}
use brewmble.Cli.Sanitize.{sanitize_display}
use brewmble.Cli.Config.{
  NodeConfig, ProfileConfig, Config, default_config, default_profile_name, load_config, entry,
}
use brewmble.Cli.Config.Loading.{IsLoaded, load_config-IsLoaded}
use brewmble.Cli.Merge.{
  found_index, update_node, move_to, rename, merge_all, merge_node, merge_nodes,
}
use brewmble.Cli.Merge.Fingerprints.{IsPinned, merge_nodes-IsPinned}
use brewmble.Cli.Url.{ip6, AddressReader, bracketed, parse_host_port, resolve_url}
use brewmble.Cli.Url.Roundtrip.{parse_host_port-resolve_name, resolve_ipv6_cut}
use brewmble.Cli.Pin.{PinOutcome, learned, format_fingerprint}
use brewmble.Cli.Pin.Fingerprint.{eq_fingerprint_iff}
use brewmble.Cli.Pins.{validate_and_update_pins}
use brewmble.Cli.Pins.Kept.{active_nodes, Spares, validate_and_update_pins-IsPinned}
use brewmble.Cli.Session.{Session}
use brewmble.Cli.Node.{resolve_profile_nodes}
use brewmble.Cli.Node.Resolving.{Resolves, resolve_profile_nodes_iff}

abbrev alpha : NodeConfig
alpha = record {
  name = some (lit "alpha");
  address = lit "10.0.0.1:4712";
  fingerprint = some (lit "AA");
}

abbrev beta : NodeConfig
beta = record { name = some (lit "beta"); address = lit "10.0.0.2:4712"; fingerprint = none }

abbrev both : ProfileConfig
both = record { nodes = alpha ∷ beta ∷ [] }

abbrev config : Config
config = record default_config { profiles = (default_profile_name, both) ∷ [] }

abbrev session : Session
session = record { config = config; saved = none }

has_profile : get default_profile_name config.profiles ≡ some both
unfolding get eq_text lit
has_profile = refl

load_default : load_config false (ok []) (λ t. err t) ≡ ok default_config
unfolding load_config
load_default = refl

load_config-IsLoaded_example : IsLoaded default_config
load_config-IsLoaded_example =
    load_config-IsLoaded false (ok []) (λ t. err t) default_config load_default

-- The node `alpha` has moved.
abbrev moved : List (Text × Text)
moved = (lit "10.0.0.9:4712", lit "alpha") ∷ []

abbrev gamma : NodeConfig
gamma = record {
  name = some (lit "gamma");
  address = lit "10.0.0.3:4712";
  fingerprint = some (lit "CC");
}

abbrev pinned : Config
pinned = record default_config {
  profiles = (default_profile_name, record { nodes = alpha ∷ gamma ∷ [] }) ∷ [];
}

gamma_kept :
    IsPinned
      (lit "10.0.0.3:4712")
      (lit "CC")
      (entry pinned.active_profile (merge_nodes pinned moved).0.profiles).nodes
unfolding merge_nodes merge_all merge_node found_index update_node move_to rename get insert eq_text
    eq_name lit sanitize_display position
gamma_kept = inr (inl (refl, refl))

merge_nodes-IsPinned_example :
    IsPinned (lit "10.0.0.3:4712") (lit "CC") (entry pinned.active_profile pinned.profiles).nodes
merge_nodes-IsPinned_example =
    merge_nodes-IsPinned pinned moved (lit "10.0.0.3:4712") (lit "CC") gamma_kept

-- A reader that knows one IPv6 address.
abbrev reader : AddressReader
reader = record {
  socket_addr = λ t. none;
  ip_addr = λ t. if starts_with (lit "2001") t then some (ip6 (lit "2001:db8::1")) else none;
}

parse_host_port-resolve_name_example :
    parse_host_port (resolve_url reader (lit "node-1:4712")) ≡ ok (lit "node-1", 4712)
unfolding lit strip_prefix decimal
parse_host_port-resolve_name_example =
    parse_host_port-resolve_name reader (lit "node-1:4712") (lit "node-1") 4712 refl (ground arith)
      refl (omega arith) refl refl refl

resolve_ipv6_cut_example :
    resolve_url reader (lit "2001:db8::1") ≡ bracketed (lit "2001:db8:") (lit "1")
unfolding lit strip_prefix
resolve_ipv6_cut_example =
    resolve_ipv6_cut reader (lit "2001:db8::1") (lit "2001:db8::1") (lit "2001:db8:") (lit "1") refl
      refl refl refl refl (omega arith)

abbrev digest : Text → List ℕ
digest t = 171 ∷ []

eq_fingerprint_iff_example :
    (eq_ignore_ascii_case
        (format_fingerprint digest (lit "x"))
        (format_fingerprint digest (lit "y"))
      ≡ true)
    ↔ (digest (lit "x") ≡ digest (lit "y"))
eq_fingerprint_iff_example =
    eq_fingerprint_iff digest (lit "x") (lit "y") (omega arith, tt) (omega arith, tt)

-- A check that learns at `beta` and fails elsewhere.
abbrev check : NodeConfig → Result Text PinOutcome
check n = if is_some n.fingerprint then err (lit "mismatch") else ok (learned (lit "BB"))

beta_elsewhere : ¬ (lit "10.0.0.2:4712" ≡ lit "10.0.0.1:4712")
unfolding eq_text lit
beta_elsewhere e =
    let h : false ≡ true = (eq_text_iff (lit "10.0.0.2:4712") (lit "10.0.0.1:4712")).1 e in
    ground arith

alpha_spared : Spares check (lit "10.0.0.1:4712") (lit "AA") (alpha ∷ beta ∷ [])
alpha_spared = (λ e (o, h). cc, (λ e h. absurd (beta_elsewhere e), tt))

alpha-IsPinned : IsPinned (lit "10.0.0.1:4712") (lit "AA") (active_nodes config)
unfolding get eq_text lit
alpha-IsPinned = inl (refl, refl)

validate_and_update_pins-IsPinned_example :
    IsPinned
      (lit "10.0.0.1:4712")
      (lit "AA")
      (active_nodes (validate_and_update_pins check config (alpha ∷ beta ∷ [])).0)
validate_and_update_pins-IsPinned_example =
    validate_and_update_pins-IsPinned check (lit "10.0.0.1:4712") (lit "AA") config
      (alpha ∷ beta ∷ []) alpha_spared alpha-IsPinned

resolve_profile_nodes_iff_example :
    (resolve_profile_nodes (lit "beta" ∷ []) config ≡ ok (beta ∷ []))
    ↔ Resolves both.nodes (lit "beta" ∷ []) (beta ∷ [])
resolve_profile_nodes_iff_example =
    resolve_profile_nodes_iff config both (lit "beta") [] (beta ∷ []) has_profile

abbrev percents : ℕ → ℕ → ℕ
percents pos len = pos * 100 / len
