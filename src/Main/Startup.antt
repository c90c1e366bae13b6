-- ===== src/Main/Startup.antt =====
-- daemon/main.py: what a daemon registers when it starts, and its two sweeps of the jobs. The start and
-- stop of the tasks is asyncio's.
use milvus_onprem.Base.{
  ℕ, Text, str, Bool, true, false, Option, none, some, List, [], ◌∷◌, if◌then◌else◌, starts_with,
  remove_prefix, strip, Exec, pure, try_else, ◌>>=◌, ◌>>◌,
}
use milvus_onprem.Host.{Host}
use milvus_onprem.Host.Shell.{cluster_env_path}
use milvus_onprem.Config.{DaemonConfig}
use milvus_onprem.Topology.{topology_key, Info}
use milvus_onprem.Handlers.EnvFile.{readlines}
use milvus_onprem.Jobs.Job.{JobJson}
use milvus_onprem.Jobs.Manager.{prune_old, prune_stuck_running}
use milvus_onprem.VersionUpgrade.Rollout.{cluster_version_key}

-- The first line that starts with `MILVUS_IMAGE_TAG=`.
unfoldable pub image_tag : List Text → Option Text
unfolding starts_with remove_prefix strip
image_tag [] = none
image_tag (line ∷ lines) =
    let rest = image_tag lines in
    if starts_with (str "MILVUS_IMAGE_TAG=") line
    then some (strip (remove_prefix (str "MILVUS_IMAGE_TAG=") line))
    else rest

unfoldable pub file_tag : Option Text → Option Text
unfolding image_tag readlines
file_tag none = none
file_tag (some text) = image_tag (readlines text)

-- `now` is the time and `dumps` is `json.dumps` of a peer's entry.
module _ (host : Host) (config : DaemonConfig) (dumps : Text → Info → Text) (now : ℕ) where
  open host.etcd use {State}

  abbrev pub own_info : Info
  own_info = record {
    ip = some config.local_ip;
    hostname = none;
    joined_at = some now;
    role = some (str "peer");
  }

  unfoldable pub register_unless : Option Text → Exec State (Unit {0})
  unfolding topology_key
  register_unless (some existing) = pure tt
  register_unless none = do
    host.etcd.put_if_absent (topology_key config.node_name) (dumps config.node_name own_info)
    pure tt

  -- `_register_self_if_absent`
  unfoldable pub register_self_if_absent : Exec State (Unit {0})
  unfolding register_unless
  register_self_if_absent = do
    existing ← host.etcd.get (topology_key config.node_name)
    register_unless existing

  unfoldable pub anchor_version : Option Text → Exec State (Unit {0})
  anchor_version none = pure tt
  anchor_version (some tag) = do host.etcd.put_if_absent cluster_version_key tag; pure tt

  -- `_register_cluster_version`
  unfoldable pub register_cluster_version : Exec State (Unit {0})
  unfolding file_tag anchor_version
  register_cluster_version s = anchor_version (file_tag (host.file s cluster_env_path)) s

  -- `try: …; except Exception: log.warning(…)`
  unfoldable pub logged : Exec State (Unit {0}) → Exec State (Unit {0})
  logged m = try_else m (λ _. pure tt) (λ _. pure tt)

  -- What `lifespan` does before it starts the tasks.
  unfoldable pub register_all : Exec State (Unit {0})
  unfolding logged register_self_if_absent register_cluster_version
  register_all = do logged register_self_if_absent; logged register_cluster_version

  module _ (json : JobJson) where
    -- One round of `_retention_loop`, of whether this daemon leads.
    unfoldable pub retention_tick : Bool → ℕ → Exec State (Unit {0})
    unfolding prune_old
    retention_tick false time = pure tt
    retention_tick true time =
        try_else (prune_old json host.etcd time config.jobs_retention_s) (λ _. pure tt)
          (λ _. pure tt)

    -- One round of `_stuck_sweep_loop`.
    unfoldable pub stuck_sweep_tick : Bool → ℕ → Exec State (Unit {0})
    unfolding prune_stuck_running
    stuck_sweep_tick false time = pure tt
    stuck_sweep_tick true time =
        try_else (prune_stuck_running json host.etcd time config.jobs_heartbeat_timeout_s)
          (λ _. pure tt) (λ _. pure tt)
