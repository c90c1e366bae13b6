-- ===== src/Handlers.antt =====
-- daemon/handlers.py, by its parts.
pub mod EnvFile
pub mod EnvLines
pub mod EnvUpsert
pub mod Peers
pub mod Render
pub mod Minio
pub mod Pulsar
pub mod Dispatch
pub mod Effects
pub mod PeerLists
pub mod EnvPeers
