-- ===== src/Daemon/Announce.antt =====
-- The announcement by multicast DNS in daemon/src/main.rs: `mdns_properties`, `mdns_host_name` and
-- `register_mdns`. Whether the library accepts an announcement is a parameter; log lines are left
-- out.
use brewmble.Prelude.{
  ℕ, Text, lit, List, [], ◌∷◌, ◌++◌, Option, none, some, Result, ok, err, split_on, arith, ◌≡◌,
}
use brewmble.Rest.{service_full_type, txt_tls, txt_tls_value}

-- The arguments of `ServiceInfo::new`; without an address the library finds them.
pub record ServiceInfo : Type 0 where
  pub service_type : Text
  pub instance_name : Text
  pub host_name : Text
  pub ip : Option Text
  pub port : ℕ
  pub properties : List (Text × Text)

unfoldable pub mdns_properties : Text → List (Text × Text)
mdns_properties hostname = (lit "id", hostname) ∷ (txt_tls, txt_tls_value) ∷ []

-- `hostname.split('.').next()`: a split is never empty.
abbrev pub first_or : Text → List Text → Text
first_or default [] = default
first_or default (p ∷ ps) = p

unfoldable pub instance_hostname : Text → Text
instance_hostname hostname = first_or hostname (split_on b'.' hostname)

unfoldable pub mdns_host_name : Text → Text
mdns_host_name hostname = lit "brewmbled-" ++ (instance_hostname hostname ++ lit ".local.")

-- The steps of the library: to start, to make an announcement, and to register it.
pub record Mdns : Type 0 where
  pub start : Result Text (Unit {0})
  pub new_service : ServiceInfo → Result Text (Unit {0})
  pub register : ServiceInfo → Result Text (Unit {0})

unfoldable pub service_info : ℕ → Text → Option Text → ServiceInfo
service_info port hostname ip = record {
  service_type = service_full_type;
  instance_name = lit "brewmbled-" ++ instance_hostname hostname;
  host_name = mdns_host_name hostname;
  ip = ip;
  port = port;
  properties = mdns_properties hostname;
}

abbrev registered : ServiceInfo → Result Text (Unit {0}) → Option ServiceInfo
registered info (ok _) = some info
registered info (err e) = none

abbrev created : Mdns → ServiceInfo → Result Text (Unit {0}) → Option ServiceInfo
created mdns info (ok _) = registered info (mdns.register info)
created mdns info (err e) = none

abbrev started : Mdns → ServiceInfo → Result Text (Unit {0}) → Option ServiceInfo
started mdns info (ok _) = created mdns info (mdns.new_service info)
started mdns info (err e) = none

-- The announcement that is registered, if all steps succeed.
unfoldable pub register_mdns : Mdns → ℕ → Text → Option Text → Option ServiceInfo
register_mdns mdns port hostname ip = started mdns (service_info port hostname ip) mdns.start

-- What is registered is the service's description.
pub register_mdns_info :
    (mdns : Mdns) (port : ℕ) (hostname : Text) (ip : Option Text) (info : ServiceInfo)
    → register_mdns mdns port hostname ip ≡ some info
    → service_info port hostname ip ≡ info
unfolding register_mdns
register_mdns_info mdns port hostname ip info r = ground arith
