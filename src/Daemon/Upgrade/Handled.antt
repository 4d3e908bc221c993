-- ===== src/Daemon/Upgrade/Handled.antt =====
-- The handler `full_upgrade_handler` of daemon/src/main.rs as a run of the steps of requests.
