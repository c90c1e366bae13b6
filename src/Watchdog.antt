-- ===== src/Watchdog.antt =====
-- daemon/watchdog.py: the two watchdogs of a daemon.
pub mod Local
pub mod LocalGuard
pub mod LocalRuns
pub mod LocalFaults
pub mod Peers
pub mod PeerAlerts
pub mod PeerMigration
