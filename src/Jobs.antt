-- ===== src/Jobs.antt =====
-- daemon/jobs.py, by its parts.
pub mod Job
pub mod Logs
pub mod Registry
pub mod Manager
pub mod Listing
pub mod Sweeps
pub mod Lifecycle
