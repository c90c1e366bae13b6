-- ===== src/RemoveNode.antt =====
-- daemon/workers/remove_node.py, by its parts.
pub mod Decommission
pub mod Guards
pub mod Refusals
pub mod Polling
pub mod Settling
pub mod Removal
pub mod Draining
pub mod Keeping
pub mod Removed
pub mod Waits
