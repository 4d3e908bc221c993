-- ===== src/Daemon/Config/Template.antt =====
-- The file that `init_config_file` of daemon/src/config.rs writes, and the values that a configuration
-- has where it says nothing else.
use brewmble.Prelude.{Text, [], false, lit, none, true, unlines, ℕ, ◌∷◌}
use brewmble.Daemon.Config.{DaemonConfig, FeaturesConfig, PackageManagerConfig, ServerConfig}

abbrev pub default_update_interval_mins : ℕ
default_update_interval_mins = 360

-- `ServerConfig::default`.
abbrev pub default_server : ServerConfig
default_server = record {
  port = none;
  hostname = none;
  ip = none;
  bind_address = none;
  mdns = true;
}

-- `PackageManagerConfig::default`.
abbrev pub default_package_manager : PackageManagerConfig
default_package_manager = record { update_interval_mins = default_update_interval_mins }

abbrev pub default_features : FeaturesConfig
default_features = record { allow_reboot = false; auto_clean = false; auto_remove = false }

unfoldable pub default_config_template : Text
default_config_template = unlines (
    lit "# brewmble daemon configuration file"
    ∷ lit "# Generated by `brewmbled config init`"
    ∷ []
    ∷ lit "server:"
    ∷ lit "  # Port to listen on. If omitted, the daemon searches for a free port starting at 4712."
    ∷ lit "  # port: 4712"
    ∷ []
    ∷ lit "  # Hostname to announce via mDNS. Defaults to the system hostname."
    ∷ lit "  # hostname: \"node-1\""
    ∷ []
    ∷ lit "  # Explicit IP address to announce via mDNS. Defaults to auto-discovered IP."
    ∷ lit "  # ip: \"192.168.1.10\""
    ∷ []
    ∷ lit "  # Local address to bind the HTTPS listener to. Defaults to 0.0.0.0 (all interfaces)."
    ∷ lit "  # bind_address: \"0.0.0.0\""
    ∷ []
    ∷ lit "  # Enable mDNS service discovery. Defaults to true."
    ∷ lit "  # mdns: true"
    ∷ []
    ∷ lit "tls:"
    ∷ lit "  # Path to the cluster CA certificate PEM file (required)"
    ∷ lit "  ca_cert: \"/etc/brewmble/tls/ca.pem\""
    ∷ []
    ∷ lit "  # Path to the daemon certificate PEM file (required)"
    ∷ lit "  cert: \"/etc/brewmble/tls/daemon.pem\""
    ∷ []
    ∷ lit "  # Path to the daemon private key PEM file (required)"
    ∷ lit "  key: \"/etc/brewmble/tls/daemon-key.pem\""
    ∷ []
    ∷ lit "features:"
    ∷ lit "  # Allow the daemon to reboot the host when requested via the API (default: false)"
    ∷ lit "  allow_reboot: false"
    ∷ []
    ∷ lit "  # Automatically clean downloaded packages after upgrade (default: false)"
    ∷ lit "  auto_clean: false"
    ∷ []
    ∷ lit "  # Automatically remove unused packages after upgrade (default: false)"
    ∷ lit "  auto_remove: false"
    ∷ []
    ∷ lit "package_manager:"
    ∷ lit "  # Package manager cache update interval in minutes (default: 360)"
    ∷ lit "  update_interval_mins: 360"
    ∷ [])

-- The configuration that the template stands for.
abbrev pub template_config : DaemonConfig
template_config = record {
  server = default_server;
  tls = record {
    ca_cert = lit "/etc/brewmble/tls/ca.pem";
    cert = lit "/etc/brewmble/tls/daemon.pem";
    key = lit "/etc/brewmble/tls/daemon-key.pem";
  };
  features = default_features;
  package_manager = default_package_manager;
}
