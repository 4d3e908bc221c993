-- ===== src/Lib.antt =====
-- Verification of brewmble: a daemon that upgrades and reboots the machine it runs on, and a
-- command-line tool that finds the daemons of a cluster, pins their certificates and sends them
-- requests over mutual TLS.
--
-- Rest models rest/src/lib.rs, the requests and responses that the two exchange.
--
-- Daemon models daemon/src:
--   World       the runner of commands of package_manager/mod.rs, over a machine whose answers and
--               delays are parameters; it keeps the commands that were run, the newest first
--   Manager     the trait `PackageManager`, and the decision whether the cache is renewed; Selection
--               is `get_package_manager`, which chooses an implementation
--   Apt, Brew   package_manager/apt.rs and brew.rs: one function per method, which takes the object
--               and the machine and returns both
--   Config      config.rs: where a configuration is looked for and when it is valid; its child Files
--               has the atomic writing, which cli/src/main.rs shares, and `init_config_file`, and
--               Template what that writes
--   Commands    the `config` commands of main.rs, and `load_config` of config.rs
--   Startup     the search for a port, the hostname and `execute_reboot` of main.rs
--   Handlers    the request handlers of main.rs over the state that they share
--   Upgrade     the interleavings of requests, upgrade tasks and reboot tasks as a step relation:
--               each step is one access to the shared state
--   Announce    `register_mdns` and what it announces; Tls is `load_tls_config`
--   Main        `main` from the command line to the server, which puts Config, Startup, Tls and
--               Announce together; Serving is its router
--   Shutdown    the end of `main`: what ends the server, and the wait for the upgrade
--
-- Cli models cli/src:
--   Sanitize    sanitize.rs
--   Config      the configuration, `load_config` with its migration, and its location
--   Session     `save_config`: a run keeps the configuration in memory and the one last written;
--               Written is its writing on a disk
--   Discover    the loop that listens for services, what is shown of one, the search for targets,
--               and `run_discover`, which gives Merge what it has found
--   Merge       `merge_nodes`: discovered nodes are merged into the active profile
--   Url         `resolve_url` of main.rs and `parse_host_port` of pin.rs
--   Pin, Pins   the check of a fingerprint in pin.rs, with its fetching over the addresses of a
--               host, and the updates of pins in main.rs
--   Profile     `run_profile`
--   Node        `resolve_profile_nodes`, `run_repin` and `run_node`
--   Status      `run_status`: its targets and pins, its workers as a step relation, the summary,
--               and `query_status`
--   Version     `run_version`
--   Ca          the stores, the migration and the issuing of certificates of ca.rs, what is asked of
--               the library that signs them, the keyring and the client that is built from it, the
--               old store of macOS, and its keychain
--   Authority   `run_ca`; Certificates is `run_cert`
--   Main        `main`, which chooses the command; Timeout is `get_default_timeout`
--   Program     the commands put together behind `main`, over one record of what the system and the
--               libraries do; the children of Session say what each command leaves in the file
--   Progress    the terminal's progress display of progress.rs
-- These put the two together: Announced says what the tool shows of a daemon that has announced
-- itself, and Trusted when the daemon accepts a certificate that the tool has issued. Provisioned
-- runs the daemon's loading of its TLS configuration on the files that `brewmble cert` has written.
-- Contacted sends the requests of `brewmble node` and `brewmble status` through the daemon's router
-- to its handlers.
-- Daemon.Tests and Cli.Tests apply the theorems at concrete inputs.
--
-- A text is a list of code points. Numbers are natural numbers; where the source multiplies `u64`s
-- the remainder modulo 2 ^ 64 is written out. Times of the daemon are nanoseconds of a monotonic
-- clock; the loop of the discovery counts ticks of its own. An error is its text. Two loops have
-- fuel. The search for a port has 60,824 rounds, one for each port from 4712 to 65535. The loop of
-- the discovery is given its fuel, and one round more than there is time until its deadline is
-- enough if each round takes some time: Program gives it that many.
--
-- Parameters stand for what is not in the repository: the answers of commands, the file system, YAML,
-- PEM and X.509 readers, the standard library's readers of IP addresses, SHA-256, the multicast DNS
-- library, what a TLS connection does, the HTTP client and axum's finding of a route, JSON, signals,
-- the keychain, and the library that makes keys and signs certificates.
--
-- Not modelled are most log lines, the router's layers, what the requests do that are under way when
-- the daemon ends, the calls of the progress display while nodes are asked, and the interleavings of
-- a TLS handshake that has timed out with the one after it.
pub mod Prelude
pub mod Rest
pub mod Daemon
pub mod Cli
pub mod Announced
pub mod Trusted
pub mod Provisioned
pub mod Contacted
