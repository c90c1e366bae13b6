-- ===== src/RotateToken/Rotation.antt =====
-- daemon/workers/rotate_token.py: the rotation of the cluster's token.
use milvus_onprem.Base.{
  Text, str, Dict, Bool, true, false, not, Option, none, some, List, [], ◌∷◌, ◌++◌, ltb, same,
  length, if◌then◌else◌, Exec, value_error, permission_error, runtime_error, raise, raise_if, ◌>>=◌,
  ◌>>◌,
}
use milvus_onprem.Host.{Host, call}
use milvus_onprem.Host.Shell.{cluster_env_path, in_repo, node_dir, quote}
use milvus_onprem.Config.{DaemonConfig}
use milvus_onprem.Topology.{Info}
use milvus_onprem.Handlers.EnvFile.{upsert_kv}
use milvus_onprem.Handlers.Peers.{current_peer_ips_and_names}
use milvus_onprem.Handlers.Dispatch.{daemon_url}
use milvus_onprem.VersionUpgrade.Local.{reads, must_run, or_default}
use milvus_onprem.VersionUpgrade.Rollout.{peer_done}

-- `follower_peers`
unfoldable pub others : Text → List (Text × Text) → List (Text × Text)
unfolding same
others leader_name [] = []
others leader_name ((name, ip) ∷ pairs) =
    let rest = others leader_name pairs in if same name leader_name then rest else (name, ip) ∷ rest

-- `image` is the environment's `MILVUS_ONPREM_IMAGE`, or its default.
module _ (host : Host) (config : DaemonConfig) (image : Text) where
  open host.etcd use {State}

  -- `f"{REPO_PATH}/rendered/{node_name}/docker-compose.yml"`
  unfoldable pub compose_file : Text → Text
  unfolding node_dir
  compose_file node_name = node_dir node_name ++ str "/docker-compose.yml"

  unfoldable pub sidecar_cmd : Text → Text → Text
  unfolding quote compose_file in_repo
  sidecar_cmd node_name host_repo_root = in_repo (
      str "docker run -d --rm --name milvus-onprem-cp-recreate-"
      ++ (node_name
          ++ (str " --network=host -v /var/run/docker.sock:/var/run/docker.sock -v "
              ++ (host_repo_root
                  ++ (str ":/repo --entrypoint /bin/sh "
                      ++ (image
                          ++ (str " -c "
                              ++ (quote (
                                    str "sleep 5 && docker compose --project-name "
                                    ++ (node_name
                                        ++ (str " -f "
                                            ++ (compose_file node_name
                                                ++ str
                                                    " up -d --force-recreate --no-deps control-plane"))))
                                  ++ str " >/tmp/rotate-recreate-sidecar.id 2>&1"))))))))

  abbrev is_missing : Option Text → Bool
  is_missing none = true
  is_missing (some text) = false

  -- The checks after the render, and the sidecar that recreates this daemon.
  unfoldable pub spawn_sidecar : Text → Exec State (Unit {0})
  unfolding same compose_file must_run sidecar_cmd
  spawn_sidecar node_name = do
    raise_if (same node_name []) runtime_error
    λ s. raise_if (is_missing (host.file s (compose_file node_name))) runtime_error s
    host_repo_root ← reads host (str "HOST_REPO_ROOT")
    must_run host (sidecar_cmd node_name (or_default host_repo_root (str "/repo")))

  -- `rotate_self`
  unfoldable pub rotate_self : Text → Exec State (Unit {0})
  unfolding upsert_kv must_run in_repo spawn_sidecar
  rotate_self new_token = do
    upsert_kv host cluster_env_path (str "CLUSTER_TOKEN") new_token
    must_run host (in_repo (str "./milvus-onprem render"))
    node_name ← reads host (str "NODE_NAME")
    spawn_sidecar node_name

  -- The requests to the followers, each under the old token, whichever of them fail: the names of those
  -- that did. What runs in one `asyncio.gather` is taken one after the other.
  unfoldable pub rotate_remotes : Text → List (Text × Text) → State → List Text × State
  unfolding daemon_url peer_done
  rotate_remotes new_token [] s = ([], s)
  rotate_remotes new_token ((name, ip) ∷ pairs) s =
      let (reply, t) =
        host.http_post (daemon_url config ip (str "/rotate-self")) config.cluster_token
          ((str "new_token", new_token) ∷ []) s in
      let (failures, u) = rotate_remotes new_token pairs t in
      (if peer_done reply then failures else name ∷ failures, u)

  -- The leader rotates only where no follower has failed.
  unfoldable pub rotate_leader : Text → List Text → Exec State (Unit {0})
  unfolding rotate_self
  rotate_leader new_token [] = rotate_self new_token
  rotate_leader new_token (name ∷ failures) = raise runtime_error

  unfoldable pub rotate_among : Text → List (Text × Text) → Exec State (Unit {0})
  unfolding rotate_remotes rotate_leader
  rotate_among new_token followers = do
    failures ← call (rotate_remotes new_token followers)
    rotate_leader new_token failures

  -- `run_rotate_token`, of the mirror, the leadership and the parameter, which is empty where it is
  -- missing.
  unfoldable pub run_rotate_token : Dict Info → Bool → Text → Exec State (Unit {0})
  unfolding others current_peer_ips_and_names rotate_among
  run_rotate_token peers is_leader new_token = do
    raise_if (ltb (length new_token) 32) value_error
    raise_if (not is_leader) permission_error
    rotate_among new_token (others config.node_name (current_peer_ips_and_names peers))
