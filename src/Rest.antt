-- ===== src/Rest.antt =====
-- rest/src/lib.rs: the requests, responses and endpoint paths that the CLI and the daemon share.
-- The JSON encoding is serde's and is not modelled.
use brewmble.Prelude.{ℕ, Text, lit, Option, Bool, List}

abbrev pub service_type : Text
service_type = lit "_brewmble._tcp"

abbrev pub service_domain : Text
service_domain = lit "local."

abbrev pub service_full_type : Text
service_full_type = lit "_brewmble._tcp.local."

abbrev pub txt_tls : Text
txt_tls = lit "tls"

abbrev pub txt_tls_value : Text
txt_tls_value = lit "mtls"

abbrev pub path_status : Text
path_status = lit "/status"

abbrev pub path_health : Text
path_health = lit "/health"

abbrev pub path_upgrade : Text
path_upgrade = lit "/packages/full-upgrade"

abbrev pub path_reboot : Text
path_reboot = lit "/node/reboot"

pub record StatusResponse : Type 0 where
  pub message : Text
  pub updates : List Text
  pub is_upgrading : Bool
  pub daemon_version : Option Text
  pub allow_reboot : Bool
  pub auto_clean : Bool
  pub auto_remove : Bool

pub record RebootRequest : Type 0 where
  pub delay_secs : Option ℕ

pub record RebootResponse : Type 0 where
  pub message : Text

pub record HealthResponse : Type 0 where
  pub status : Text
  pub package_manager : Text
  pub package_manager_version : Text
  pub is_upgrading : Bool

pub record UpgradeRequest : Type 0 where
  pub dry_run : Bool

pub record UpgradeResponse : Type 0 where
  pub message : Text
  pub updates : Option (List Text)

-- The HTTP status codes that the handlers return.
pub data StatusCode : Type 0 where
  ok precondition_failed internal_server_error locked forbidden : StatusCode
