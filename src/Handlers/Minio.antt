-- ===== src/Handlers/Minio.antt =====
-- daemon/handlers.py: the recreation of this node's MinIO and of the Milvus services after it.
use milvus_onprem.Base.{
  ℕ, zero, suc, ◌+◌, ◌*◌, Text, str, Bool, true, false, ◌&&◌, Option, none, some, List, [], ◌∷◌,
  ◌++◌, ◌==◌, leb, if◌then◌else◌, same, strip, decimal, Exec, pure, ◌>>=◌, ◌>>◌,
}
use milvus_onprem.Host.{Host, call}
use milvus_onprem.Host.Waiting.{Waited, wait_until}
use milvus_onprem.Host.Shell.{quote, to_recreate, joined, node_dir}
use milvus_onprem.Config.{DaemonConfig}
use milvus_onprem.Topology.{topology_prefix, Info, decode_entries}
use milvus_onprem.Handlers.Peers.{current_peer_ips_and_names}
use milvus_onprem.Handlers.Render.{sync_cluster_env_and_render}

-- `wanted` of `recreate_minio_local`
abbrev pub milvus_services : List Text
milvus_services =
    str "mixcoord"
    ∷ str "datanode"
    ∷ str "querynode"
    ∷ str "indexnode"
    ∷ str "streamingnode"
    ∷ str "proxy"
    ∷ []

module _ (host : Host) (config : DaemonConfig) where
  open host.etcd use {State}

  -- `compose_arg`
  unfoldable pub compose_arg : Text
  unfolding quote node_dir
  compose_arg =
      str "--project-name "
      ++ (quote config.node_name
          ++ (str " -f " ++ (quote (node_dir config.node_name) ++ str "/docker-compose.yml")))

  -- `docker compose {compose_arg} {args}`
  unfoldable pub compose : Text → Text
  unfolding compose_arg
  compose args = str "docker compose " ++ (compose_arg ++ (str " " ++ args))

  -- The body of the wait: `none` returns.
  unfoldable pub inspect_minio : Unit {0} → State → Option (Unit {0}) × State
  unfolding same strip
  inspect_minio u s =
      let (done, t) =
        host.run (str "docker inspect milvus-minio --format '{{.State.Health.Status}}'") s in
      (if done.rc == 0 && same (strip done.out) (str "healthy") then none else some u, t)

  -- `_wait_minio_healthy`: rounds of two seconds at least.
  unfoldable pub wait_minio_healthy : ℕ → State → Waited (Unit {0}) × State
  unfolding wait_until inspect_minio
  wait_minio_healthy timeout_s s =
      wait_until host (Unit {0}) (host.time s + timeout_s * 1000) 2000 (suc timeout_s) inspect_minio
        tt s

  -- The probes of `_minio_cluster_quorate`, with a sleep after each that fails.
  unfoldable pub probe_quorum : ℕ → Exec State Bool
  unfolding decimal
  probe_quorum zero = pure false
  probe_quorum (suc n) = do
    done ← call (
        host.run (
          str "curl -sf --max-time 3 http://127.0.0.1:"
          ++ (decimal config.minio_api_port ++ str "/minio/health/cluster")))
    elim (done.rc == 0) [
      | true ↦ pure true
      | false ↦ do call (λ s. (tt, host.sleep 2000 s)); probe_quorum n
    ]

  -- `_minio_cluster_quorate`
  unfoldable pub minio_cluster_quorate : Exec State Bool
  unfolding probe_quorum
  minio_cluster_quorate = probe_quorum 3

  unfoldable pub alias_cmd : Text
  unfolding quote decimal
  alias_cmd =
      str "docker exec milvus-minio mc alias set local http://127.0.0.1:"
      ++ (decimal config.minio_api_port
          ++ (str " "
              ++ (quote config.minio_access_key ++ (str " " ++ quote config.minio_secret_key))))

  unfoldable pub make_bucket : Exec State (Unit {0})
  unfolding alias_cmd
  make_bucket = do
    aliased ← call (host.run alias_cmd)
    elim (aliased.rc == 0) [
      | false ↦ pure tt
      | true ↦ do
        call (host.run (str "docker exec milvus-minio mc mb --ignore-existing local/milvus-bucket"))
        pure tt
    ]

  -- `_ensure_milvus_bucket`
  unfoldable pub ensure_milvus_bucket : Exec State (Unit {0})
  unfolding minio_cluster_quorate make_bucket
  ensure_milvus_bucket = do
    quorate ← minio_cluster_quorate
    elim quorate [ false ↦ pure tt | true ↦ make_bucket ]

  -- The recreation of the Milvus services that the compose file has.
  unfoldable pub recreate_present : Text → Exec State (Unit {0})
  unfolding to_recreate joined compose
  recreate_present out = elim (to_recreate out milvus_services) [
    | [] ↦ pure tt
    | service ∷ services ↦ do
      call (
          host.run
            (compose (str "up -d --force-recreate --no-deps " ++ joined (service ∷ services))))
      pure tt
  ]

  unfoldable pub refresh_milvus : Exec State (Unit {0})
  unfolding compose recreate_present
  refresh_milvus = do
    listed ← call (host.run (compose (str "config --services")))
    elim (listed.rc == 0) [ false ↦ pure tt | true ↦ recreate_present listed.out ]

  unfoldable pub ensure_bucket_if_wide : Exec State (Unit {0})
  unfolding ensure_milvus_bucket
  ensure_bucket_if_wide = elim (leb 2 config.minio_ha_pool_size) [
    | true ↦ ensure_milvus_bucket
    | false ↦ pure tt
  ]

  -- What follows a recreation of MinIO that went through. Whether the wait ended at the deadline is not
  -- looked at.
  unfoldable pub after_recreate : Exec State (Unit {0})
  unfolding wait_minio_healthy ensure_bucket_if_wide refresh_milvus
  after_recreate = do
    call (wait_minio_healthy config.rolling_minio_healthy_wait_s)
    ensure_bucket_if_wide
    refresh_milvus

  -- `recreate_minio_local`: the result of the render is not looked at.
  unfoldable pub recreate_minio_local : (Text → Option Info) → Exec State (Unit {0})
  unfolding decode_entries current_peer_ips_and_names sync_cluster_env_and_render compose
      after_recreate
  recreate_minio_local loads = do
    raw ← host.etcd.get_prefix topology_prefix
    let fresh = current_peer_ips_and_names (decode_entries loads raw)
    sync_cluster_env_and_render host config (some fresh) []
    done ← call (host.run (compose (str "up -d --force-recreate --no-deps minio")))
    elim (done.rc == 0) [ false ↦ pure tt | true ↦ after_recreate ]
