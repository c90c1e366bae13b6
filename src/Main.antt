-- ===== src/Main.antt =====
-- daemon/main.py, by its parts.
pub mod Startup
pub mod Registered
