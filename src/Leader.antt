-- ===== src/Leader.antt =====
-- daemon/leader.py, by its parts.
pub mod Elector
pub mod Terms
