-- ===== src/Api.antt =====
-- daemon/api.py, by its parts.
pub mod Replies
pub mod Cluster
pub mod Internal
pub mod Status
pub mod Routing
pub mod Reading
