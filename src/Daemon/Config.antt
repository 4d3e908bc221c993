-- ===== src/Daemon/Config.antt =====
-- The configuration of the daemon, daemon/src/config.rs: where it is looked for, and when it is
-- valid. The file system, the readers of PEM and X.509 files, the loading of the TLS configuration
-- and the clock are parameters. YAML is not modelled.
pub mod Validity
pub mod Template
pub mod Files
use brewmble.Prelude.{
  Bool, List, Option, Result, Text, [], err, false, find, if◌then◌else◌, is_empty, join, lit, ltb,
  map, none, not, ok, some, suc, true, zero, ℕ, ◌%◌, ◌*◌, ◌++◌, ◌+◌, ◌-◌, ◌/◌, ◌==◌, ◌∷◌,
}

pub record ServerConfig : Type 0 where
  pub port : Option ℕ
  pub hostname : Option Text
  pub ip : Option Text
  pub bind_address : Option Text
  pub mdns : Bool

pub record TlsConfig : Type 0 where
  pub ca_cert : Text
  pub cert : Text
  pub key : Text

pub record FeaturesConfig : Type 0 where
  pub allow_reboot : Bool
  pub auto_clean : Bool
  pub auto_remove : Bool

pub record PackageManagerConfig : Type 0 where
  pub update_interval_mins : ℕ

pub record DaemonConfig : Type 0 where
  pub server : ServerConfig
  pub tls : TlsConfig
  pub features : FeaturesConfig
  pub package_manager : PackageManagerConfig

pub record ValidationReport : Type 0 where
  pub errors : List Text
  pub warnings : List Text

abbrev pub empty_report : ValidationReport
empty_report = record { errors = []; warnings = [] }

abbrev pub is_valid : ValidationReport → Bool
is_valid r = is_empty r.errors

unfoldable pub push_error : Text → ValidationReport → ValidationReport
push_error e r = record r { errors = r.errors ++ (e ∷ []) }

unfoldable pub push_warning : Text → ValidationReport → ValidationReport
push_warning w r = record r { warnings = r.warnings ++ (w ∷ []) }

pub data ConfigError : Type 0 where
  not_found : List Text → ConfigError
  explicit_file_not_found : Text → ConfigError
  io : Text → ConfigError
  parse : Text → ConfigError
  validation : List Text → ConfigError

abbrev bullet : Text → Text
bullet t = lit "  - " ++ t

unfoldable pub display_error : ConfigError → Text
display_error (not_found paths) =
    lit "No configuration file found in search locations:\n"
    ++ (join (lit "\n") (map bullet paths)
        ++ lit "\nRun 'brewmbled config init' to create a template configuration.")
display_error (explicit_file_not_found path) = lit "Configuration file not found: " ++ path
display_error (io e) = lit "Failed to read configuration file: " ++ e
display_error (parse e) = lit "Failed to parse YAML configuration: " ++ e
display_error (validation errors) =
    lit "Configuration validation failed:\n" ++ join (lit "\n") (map bullet errors)

-- The home directory, if there is one (no `/` at its end), and the places that are searched, in
-- their order.
unfoldable pub search_paths : Option Text → List Text
search_paths none = lit "/etc/brewmble/brewmbled.yaml" ∷ lit "./brewmbled.yaml" ∷ []
search_paths (some home) =
    (home ++ lit "/.config/brewmble/brewmbled.yaml")
    ∷ lit "/etc/brewmble/brewmbled.yaml"
    ∷ lit "./brewmbled.yaml"
    ∷ []

unfoldable pub default_config_path : Option Text → Text
default_config_path none = lit "/etc/brewmble/brewmbled.yaml"
default_config_path (some home) = home ++ lit "/.config/brewmble/brewmbled.yaml"

module _ (exists : Text → Bool) where
  abbrev pub first_existing : List Text → Result ConfigError Text
  first_existing paths = elim (find exists paths) [ some p ↦ ok p | none ↦ err (not_found paths) ]

  unfoldable pub resolve_config_path : Option Text → Option Text → Result ConfigError Text
  resolve_config_path home (some path) =
      if exists path then ok path else err (explicit_file_not_found path)
  resolve_config_path home none = first_existing (search_paths home)

-- What is read from the leaf certificate; the times are seconds.
pub record Leaf : Type 0 where
  pub not_before : ℕ
  pub not_after : ℕ
  pub server_auth : Bool

-- What the checks ask of the machine and of the libraries.
pub record Host : Type 0 where
  pub exists : Text → Bool
  pub read : Text → Result Text Text
  pub certificates : Text → Result Text ℕ
  pub private_key : Text → Result Text Bool
  pub mode : Text → Option ℕ
  pub load_tls_config : TlsConfig → Result Text (Unit {0})
  pub parse_leaf : Text → Option Leaf
  pub now : ℕ
  pub display_time : ℕ → Text

-- `{:04o}` of the lower nine bits.
abbrev format_mode : ℕ → Text
format_mode m = 48 ∷ (48 + m / 64 % 8) ∷ (48 + m / 8 % 8) ∷ (48 + m % 8) ∷ []

abbrev file_error : Text → Text → Text → Text
file_error what path how = lit "TLS " ++ (what ++ (lit " file '" ++ (path ++ (lit "' " ++ how))))

abbrev thirty_days : ℕ
thirty_days = 30 * 24 * 60 * 60

module _ (host : Host) where
  unfoldable pub check_port : Option ℕ → ValidationReport → ValidationReport
  check_port none r = r
  check_port (some port) r = if port == 0 then push_error (lit "server.port cannot be 0") r else r

  -- A file with certificates must hold at least one: the result is what is wrong with it.
  unfoldable pub certificate_error : Text → Option Text
  certificate_error path =
      if not (host.exists path) then some (lit "does not exist") else elim (host.read path) [
        | err e ↦ some (lit "cannot be read: " ++ e)
        | ok pem ↦ elim (host.certificates pem) [
          | ok zero ↦ some (lit "contains no valid certificates")
          | ok (suc _) ↦ none
          | err e ↦ some (lit "is invalid: " ++ e)
        ]
      ]

  abbrev report_file : Text → Text → Option Text → ValidationReport → ValidationReport
  report_file what path none r = r
  report_file what path (some how) r = push_error (file_error what path how) r

  abbrev check_ca_cert : Text → ValidationReport → ValidationReport
  check_ca_cert path r = report_file (lit "CA certificate") path (certificate_error path) r

  abbrev check_cert : Text → ValidationReport → ValidationReport
  check_cert path r = report_file (lit "daemon certificate") path (certificate_error path) r

  unfoldable pub key_error : Text → Option Text
  key_error path =
      if not (host.exists path) then some (lit "does not exist") else elim (host.read path) [
        | err e ↦ some (lit "cannot be read: " ++ e)
        | ok pem ↦ elim (host.private_key pem) [
          | ok true ↦ none
          | ok false ↦ some (lit "contains no valid private key")
          | err e ↦ some (lit "is invalid: " ++ e)
        ]
      ]

  -- A key that others may use is only warned of.
  unfoldable pub warn_mode : Text → Option ℕ → ValidationReport → ValidationReport
  warn_mode path none r = r
  warn_mode path (some mode) r =
      if mode % 64 == 0
      then r
      else push_warning
          (file_error (lit "daemon private key") path (
            lit "has permissive permissions ("
            ++ (format_mode mode ++ lit "); recommended is 0600")))
          r

  abbrev report_key : Text → Option Text → ValidationReport → ValidationReport
  report_key path none r = warn_mode path (host.mode path) r
  report_key path (some how) r = push_error (file_error (lit "daemon private key") path how) r

  abbrev check_key : Text → ValidationReport → ValidationReport
  check_key path r = report_key path (key_error path) r

  unfoldable pub check_tls : TlsConfig → ValidationReport → ValidationReport
  check_tls tls r = if not (is_valid r) then r else elim (host.load_tls_config tls) [
    | ok _ ↦ r
    | err e ↦ push_error (lit "TLS configuration is invalid: " ++ e) r
  ]

  unfoldable pub check_dates : Leaf → ValidationReport → ValidationReport
  check_dates leaf r =
      if ltb host.now leaf.not_before
      then push_error
          (lit "TLS daemon certificate is not yet valid (valid from "
            ++ (host.display_time leaf.not_before ++ lit ")"))
          r
      else if ltb leaf.not_after host.now
      then push_error (lit "TLS daemon certificate expired on " ++ host.display_time leaf.not_after)
          r
      else if ltb (leaf.not_after - host.now) thirty_days
      then push_warning
          (lit "TLS daemon certificate expires on "
            ++ (host.display_time leaf.not_after ++ lit " (less than 30 days)"))
          r
      else r

  unfoldable pub check_usage : Leaf → ValidationReport → ValidationReport
  check_usage leaf r =
      if leaf.server_auth
      then r
      else push_error (lit "TLS daemon certificate missing required ExtendedKeyUsage ServerAuth") r

  abbrev pub leaf_of : Text → Option Leaf
  leaf_of path = elim (host.read path) [ err e ↦ none | ok pem ↦ host.parse_leaf pem ]

  abbrev check_parsed : Option Leaf → ValidationReport → ValidationReport
  check_parsed none r = r
  check_parsed (some leaf) r = check_usage leaf (check_dates leaf r)

  unfoldable pub check_leaf : Text → ValidationReport → ValidationReport
  unfolding check_usage check_dates
  check_leaf path r = if is_valid r then check_parsed (leaf_of path) r else r

  unfoldable pub validate_config : DaemonConfig → ValidationReport
  unfolding check_port certificate_error key_error warn_mode check_tls check_leaf
  validate_config config = check_leaf config.tls.cert (
      check_tls config.tls (
        check_key config.tls.key (
          check_cert config.tls.cert
            (check_ca_cert config.tls.ca_cert (check_port config.server.port empty_report)))))

  unfoldable pub ensure_valid_config : DaemonConfig → Result ConfigError (Unit {0})
  ensure_valid_config config =
      let report = validate_config config in
      if is_valid report then ok tt else err (validation report.errors)
