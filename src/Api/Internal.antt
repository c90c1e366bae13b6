-- ===== src/Api/Internal.antt =====
-- daemon/api.py: the routes that the daemons call of each other, and the operator's step-down. The lock of
-- the handlers makes one recreation or upgrade run after the other.
use milvus_onprem.Base.{
  ℕ, Text, str, Bool, true, false, Option, none, some, [], ◌∷◌, ltb, length, Error, Result, ok, err,
  Exec, pure,
}
use milvus_onprem.Host.{Host}
use milvus_onprem.Host.Shell.{cluster_env_path}
use milvus_onprem.Config.{DaemonConfig}
use milvus_onprem.Topology.{Info}
use milvus_onprem.Leader.Elector.{Elector, step_down}
use milvus_onprem.Joining.Settings.{read_cluster_env_value}
use milvus_onprem.Handlers.Minio.{recreate_minio_local}
use milvus_onprem.Handlers.Pulsar.{apply_pulsar_host_change}
use milvus_onprem.VersionUpgrade.Local.{upgrade_self}
use milvus_onprem.RotateToken.Rotation.{rotate_self}
use milvus_onprem.Api.Replies.{Reply, answered, refused, catching}

-- `post_admin_step_down`: `cooldown_s` is 20; `revoked` is etcd's reply to `lease_revoke`.
unfoldable pub post_admin_step_down : ℕ → Result (Unit {0}) → Elector → Reply Bool × Elector
unfolding step_down
post_admin_step_down now revoked e = elim e.is_leader [
  | false ↦ (refused 409, e)
  | true ↦ let (stepped, after) = step_down now 20 revoked e in (answered stepped, after)
]

module _ (host : Host) (config : DaemonConfig) where
  open host.etcd use {State}

  -- `get_admin_pulsar_host`
  unfoldable pub get_admin_pulsar_host : State → Reply Text
  unfolding read_cluster_env_value
  get_admin_pulsar_host s = answered (
      read_cluster_env_value (host.file s cluster_env_path ∷ []) (str "PULSAR_HOST") (str "node-1"))

  -- `post_admin_sync_pulsar_host`: every exception is a 500.
  unfoldable pub post_admin_sync_pulsar_host : Text → Exec State (Reply (Unit {0}))
  unfolding catching apply_pulsar_host_change
  post_admin_sync_pulsar_host pulsar_host =
      catching (λ e. some 500) (apply_pulsar_host_change host config pulsar_host)

  -- The routes that answer 200 in any case, with the exception, if there was one, in the body.
  abbrev pub reporting : Exec State (Unit {0}) → Exec State (Reply (Option Error))
  reporting m s =
      let (r, t) = m s in
      elim r [ ok _ ↦ (ok (answered none), t) | err e ↦ (ok (answered (some e)), t) ]

  -- `post_recreate_minio_self`: `healthy` is whether there was no exception.
  unfoldable pub post_recreate_minio_self : (Text → Option Info) → Exec State (Reply (Option Error))
  unfolding recreate_minio_local
  post_recreate_minio_self loads = reporting (recreate_minio_local host config loads)

  -- `post_upgrade_self`
  unfoldable pub post_upgrade_self : Text → Exec State (Reply (Option Error))
  unfolding upgrade_self
  post_upgrade_self milvus_version = reporting (upgrade_self host milvus_version)

  -- `post_rotate_self`: the body is refused where the token is shorter than 32.
  unfoldable pub post_rotate_self : Text → Text → Exec State (Reply (Option Error))
  unfolding rotate_self
  post_rotate_self image new_token = elim (ltb (length new_token) 32) [
    | true ↦ pure (refused 422)
    | false ↦ reporting (rotate_self host config image new_token)
  ]
