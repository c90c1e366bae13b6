-- ===== src/Config.antt =====
-- daemon/config.py: the daemon's settings. pydantic reads them from the environment; a field with a
-- default has it here. Times are in seconds, but for `rolling_minio_peer_rpc_timeout_ms`.
use milvus_onprem.Base.{ℕ, ◌*◌, Text, str, Bool, false, List, [], ◌∷◌, split_on, strip}

pub record DaemonConfig : Type 0 where
  pub cluster_name : Text
  pub node_name : Text
  pub local_ip : Text
  pub cluster_token : Text
  pub etcd_endpoints : Text
  pub etcd_peer_port : ℕ
  pub listen_port : ℕ
  pub lease_ttl_s : ℕ
  pub keepalive_interval_s : ℕ
  pub log_level : Text
  pub watchdog_mode : Text
  pub watchdog_interval_s : ℕ
  pub watchdog_unhealthy_threshold : ℕ
  pub watchdog_peer_failure_threshold : ℕ
  pub watchdog_restart_loop_window_s : ℕ
  pub watchdog_restart_loop_max : ℕ
  pub auto_migrate_pulsar_on_host_failure : Bool
  pub auto_migrate_pulsar_threshold : ℕ
  pub jobs_retention_s : ℕ
  pub jobs_prune_interval_s : ℕ
  pub jobs_heartbeat_timeout_s : ℕ
  pub jobs_stuck_sweep_interval_s : ℕ
  pub rolling_minio_peer_rpc_timeout_ms : ℕ
  pub rolling_minio_healthy_wait_s : ℕ
  pub minio_api_port : ℕ
  pub minio_access_key : Text
  pub minio_secret_key : Text
  pub minio_ha_pool_size : ℕ

-- The defaults, for the values of the fields that have none.
unfoldable pub default_config : Text → Text → Text → Text → Text → DaemonConfig
default_config cluster_name node_name local_ip cluster_token etcd_endpoints = record {
  cluster_name = cluster_name;
  node_name = node_name;
  local_ip = local_ip;
  cluster_token = cluster_token;
  etcd_endpoints = etcd_endpoints;
  etcd_peer_port = 2380;
  listen_port = 19500;
  lease_ttl_s = 15;
  keepalive_interval_s = 5;
  log_level = str "info";
  watchdog_mode = str "auto";
  watchdog_interval_s = 10;
  watchdog_unhealthy_threshold = 3;
  watchdog_peer_failure_threshold = 6;
  watchdog_restart_loop_window_s = 300;
  watchdog_restart_loop_max = 3;
  auto_migrate_pulsar_on_host_failure = false;
  auto_migrate_pulsar_threshold = 30;
  jobs_retention_s = 30 * 24 * 3600;
  jobs_prune_interval_s = 3600;
  jobs_heartbeat_timeout_s = 60;
  jobs_stuck_sweep_interval_s = 30;
  rolling_minio_peer_rpc_timeout_ms = 180000;
  rolling_minio_healthy_wait_s = 90;
  minio_api_port = 9000;
  minio_access_key = str "minioadmin";
  minio_secret_key = [];
  minio_ha_pool_size = 0;
}

-- `[e.strip() for e in parts if e.strip()]`
unfoldable pub strip_all : List Text → List Text
unfolding strip
strip_all [] = []
strip_all (e ∷ parts) =
    let rest = strip_all parts in elim (strip e) [ [] ↦ rest | c ∷ s ↦ (c ∷ s) ∷ rest ]

-- `etcd_endpoint_list`
unfoldable pub etcd_endpoint_list : DaemonConfig → List Text
unfolding strip_all split_on
etcd_endpoint_list config = strip_all (split_on b',' config.etcd_endpoints)
