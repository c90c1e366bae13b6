-- ===== src/VersionUpgrade/Rollout.antt =====
-- daemon/workers/version_upgrade.py: `run_version_upgrade`, on the leader. The mirror of the topology does
-- not change during the job.
use milvus_onprem.Base.{
  ℕ, Text, str, Dict, Bool, false, ◌&&◌, not, Option, none, some, List, [], ◌∷◌, leb, same, sort_by,
  if◌then◌else◌, ◌==◌, Exec, value_error, permission_error, runtime_error, pure, raise_if, try_else,
  ◌>>=◌, ◌>>◌,
}
use milvus_onprem.Host.{Host, Response, call}
use milvus_onprem.Config.{DaemonConfig}
use milvus_onprem.Topology.{Info}
use milvus_onprem.Handlers.Peers.{current_peer_ips_and_names}
use milvus_onprem.Handlers.Dispatch.{daemon_url}
use milvus_onprem.VersionUpgrade.Versions.{is_version, crosses}
use milvus_onprem.VersionUpgrade.Local.{reads, upgrade_self}

-- `CLUSTER_VERSION_KEY` of daemon/main.py
abbrev pub cluster_version_key : Text
cluster_version_key = str "/cluster/milvus_version"

-- `0 if ni[0] == leader_name else 1`
abbrev pub rank : Text → Text × Text → ℕ
rank leader_name p = if same p.0 leader_name then 0 else 1

abbrev pub rank_leb : Text → Text × Text → Text × Text → Bool
rank_leb leader_name p q = leb (rank leader_name p) (rank leader_name q)

-- `sorted_peers`, of the mirror.
unfoldable pub upgrade_order : Text → Dict Info → List (Text × Text)
unfolding sort_by current_peer_ips_and_names same
upgrade_order leader_name peers = sort_by (rank_leb leader_name) (current_peer_ips_and_names peers)

-- A reply of a peer that has done what it was asked to: HTTP 200, a JSON object, and no error in it.
unfoldable pub peer_done : Option Response → Bool
unfolding same
peer_done none = false
peer_done (some r) = r.status_code == 200 && elim r.body [ none ↦ false | some b ↦ same b.error [] ]

module _ (host : Host) (config : DaemonConfig) (peers : Dict Info) (is_leader : Bool) where
  open host.etcd use {State}

  -- `_upgrade_remote`
  unfoldable pub upgrade_remote : Text → Text → Exec State (Unit {0})
  unfolding daemon_url peer_done
  upgrade_remote target ip = do
    reply ← call (
        host.http_post (daemon_url config ip (str "/upgrade-self")) config.cluster_token
          ((str "milvus_version", target) ∷ []))
    raise_if (not (peer_done reply)) runtime_error

  unfoldable pub upgrade_one : Text → Text × Text → Exec State (Unit {0})
  unfolding same upgrade_self upgrade_remote
  upgrade_one target p =
      if same p.0 config.node_name then upgrade_self host target else upgrade_remote target p.1

  -- The loop over the peers; the first that fails ends it.
  unfoldable pub upgrade_all : Text → List (Text × Text) → Exec State (Unit {0})
  unfolding upgrade_one
  upgrade_all target [] = pure tt
  upgrade_all target (p ∷ ps) = do upgrade_one target p; upgrade_all target ps

  -- The refresh of the anchor; a failure of it is only logged.
  unfoldable pub refresh_anchor : Text → Exec State (Unit {0})
  refresh_anchor target =
      try_else (host.etcd.put cluster_version_key target) (λ _. pure tt) (λ _. pure tt)

  unfoldable pub roll_out : Text → Exec State (Unit {0})
  unfolding upgrade_all upgrade_order refresh_anchor
  roll_out target = do
    upgrade_all target (upgrade_order config.node_name peers)
    refresh_anchor target

  unfoldable pub check_upgrade : Text → Exec State (Unit {0})
  unfolding same is_version crosses
  check_upgrade target = do
    raise_if (same target []) value_error
    raise_if (not (is_version target)) value_error
    raise_if (not is_leader) permission_error
    current ← reads host (str "MILVUS_IMAGE_TAG")
    raise_if (crosses current target) value_error

  -- `run_version_upgrade`
  unfoldable pub run_version_upgrade : Text → Exec State (Unit {0})
  unfolding check_upgrade roll_out
  run_version_upgrade target = do check_upgrade target; roll_out target
