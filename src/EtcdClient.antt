-- ===== src/EtcdClient.antt =====
-- daemon/etcd_client.py, by its parts.
pub mod Prefix
pub mod Post
pub mod Retry
