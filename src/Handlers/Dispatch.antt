-- ===== src/Handlers/Dispatch.antt =====
-- daemon/handlers.py: what a change of the topology sets off. The mirror and the leadership do not
-- change within one dispatch.
use milvus_onprem.Base.{
  Text, str, Dict, Bool, true, false, ◌&&◌, Option, none, List, [], ◌∷◌, ◌++◌, decimal, Exec, pure,
  ◌>>=◌, ◌>>◌,
}
use milvus_onprem.Host.{Host, call}
use milvus_onprem.Config.{DaemonConfig}
use milvus_onprem.Topology.{Info}
use milvus_onprem.Topology.Watcher.{Kind, added, removed, updated}
use milvus_onprem.Handlers.Peers.{followers}
use milvus_onprem.Handlers.Render.{sync_cluster_env_and_render, reload_nginx}
use milvus_onprem.Handlers.Minio.{recreate_minio_local}

-- `loads` is `json.loads`; `gathered` is the order in which the requests of an `asyncio.gather` are
-- answered.
pub record Handlers : Type 0 where
  pub config : DaemonConfig
  pub peers : Dict Info
  pub is_leader : Bool
  pub loads : Text → Option Info
  pub gathered : List (Text × Text) → List (Text × Text)

-- `f"http://{ip}:{port}{path}"`
unfoldable pub daemon_url : DaemonConfig → Text → Text → Text
unfolding decimal
daemon_url config ip path = str "http://" ++ (ip ++ (b':' ∷ (decimal config.listen_port ++ path)))

-- `kind in ("ADDED", "REMOVED")`
abbrev pub resizes : Kind → Bool
resizes added = true
resizes removed = true
resizes updated = false

module _ (host : Host) (h : Handlers) where
  open host.etcd use {State}

  -- `_rpc_one`: however the request ends, the sweep goes on.
  unfoldable pub rpc_one : Text → Exec State (Unit {0})
  unfolding daemon_url
  rpc_one ip = do
    call (
        host.http_post (daemon_url h.config ip (str "/recreate-minio-self")) h.config.cluster_token
          [])
    pure tt

  unfoldable pub rpc_all : List (Text × Text) → Exec State (Unit {0})
  unfolding rpc_one
  rpc_all [] = pure tt
  rpc_all ((name, ip) ∷ pairs) = do rpc_one ip; rpc_all pairs

  -- The requests to the followers: in parallel after a removal, else one after the other.
  unfoldable pub ask_followers : Kind → List (Text × Text) → Exec State (Unit {0})
  unfolding rpc_all
  ask_followers kind pairs = elim kind [ removed ↦ rpc_all (h.gathered pairs) | _ ↦ rpc_all pairs ]

  -- `_rolling_minio_recreate`
  unfoldable pub rolling_minio_recreate : Kind → Exec State (Unit {0})
  unfolding recreate_minio_local ask_followers followers
  rolling_minio_recreate kind = do
    recreate_minio_local host h.config h.loads
    ask_followers kind (followers h.peers h.config.local_ip)

  unfoldable pub sweep_if : Bool → Kind → Exec State (Unit {0})
  unfolding rolling_minio_recreate
  sweep_if true kind = rolling_minio_recreate kind
  sweep_if false kind = pure tt

  -- What follows the render, by whether it went through.
  unfoldable pub after_render : Kind → Bool → Exec State (Unit {0})
  unfolding reload_nginx sweep_if
  after_render kind false = pure tt
  after_render kind true = do
    reload_nginx host h.config
    sweep_if (resizes kind && h.is_leader) kind

  -- `_dispatch`; the lock of `__call__` makes one dispatch run after the other.
  unfoldable pub dispatch : Kind → Exec State (Unit {0})
  unfolding sync_cluster_env_and_render after_render
  dispatch kind = do
    rendered ← sync_cluster_env_and_render host h.config none h.peers
    after_render kind rendered
