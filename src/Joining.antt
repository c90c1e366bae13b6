-- ===== src/Joining.antt =====
-- daemon/joining.py: adding a peer to the cluster.
pub mod Names
pub mod Allocation
pub mod Peers
pub mod PeerOrder
pub mod Env
pub mod EnvReading
pub mod EnvRoundtrip
pub mod Join
pub mod JoinSafety
pub mod Admission
pub mod JoinEffects
pub mod Settings
