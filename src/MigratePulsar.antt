-- ===== src/MigratePulsar.antt =====
-- daemon/workers/migrate_pulsar.py, by its parts.
pub mod Rounds
pub mod Migration
pub mod Outcomes
pub mod Refused
