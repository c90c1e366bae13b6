-- ===== src/VersionUpgrade.antt =====
-- daemon/workers/version_upgrade.py, by its parts.
pub mod Versions
pub mod Local
pub mod Rollout
pub mod Order
pub mod Anchor
