-- ===== src/Handlers/Pulsar.antt =====
-- daemon/handlers.py: `apply_pulsar_host_change`.
use milvus_onprem.Base.{
  Text, str, not, List, [], ◌∷◌, ◌++◌, ◌==◌, Exec, raise_if, runtime_error, pure, ◌>>=◌, ◌>>◌,
}
use milvus_onprem.Host.{Host, call}
use milvus_onprem.Host.Shell.{cluster_env_path, to_recreate, joined}
use milvus_onprem.Config.{DaemonConfig}
use milvus_onprem.Handlers.EnvFile.{upsert_kv}
use milvus_onprem.Handlers.Render.{render}
use milvus_onprem.Handlers.Minio.{milvus_services, compose}

module _ (host : Host) (config : DaemonConfig) where
  open host.etcd use {State}

  unfoldable pub recreate_listed : List Text → Exec State (Unit {0})
  unfolding joined compose
  recreate_listed [] = pure tt
  recreate_listed (service ∷ services) = do
    done ← call (
        host.run (
          compose host config (
            str "up -d --force-recreate --remove-orphans --no-deps "
            ++ joined (service ∷ services))))
    raise_if (not (done.rc == 0)) runtime_error

  -- The recreation of what there is of Pulsar and Milvus.
  unfoldable pub recreate_pulsar_services : Text → Exec State (Unit {0})
  unfolding to_recreate recreate_listed
  recreate_pulsar_services out = recreate_listed (to_recreate out (str "pulsar" ∷ milvus_services))

  unfoldable pub list_and_recreate : Exec State (Unit {0})
  unfolding compose recreate_pulsar_services
  list_and_recreate = do
    listed ← call (host.run (compose host config (str "config --services")))
    raise_if (not (listed.rc == 0)) runtime_error
    recreate_pulsar_services listed.out

  unfoldable pub render_and_recreate : Exec State (Unit {0})
  unfolding render list_and_recreate
  render_and_recreate = do
    rendered ← render host config
    raise_if (not (rendered.rc == 0)) runtime_error
    list_and_recreate

  -- `apply_pulsar_host_change`
  unfoldable pub apply_pulsar_host_change : Text → Exec State (Unit {0})
  unfolding upsert_kv render_and_recreate
  apply_pulsar_host_change new_pulsar_host = do
    upsert_kv host cluster_env_path (str "PULSAR_HOST") new_pulsar_host
    render_and_recreate
