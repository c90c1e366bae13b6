-- ===== src/Handlers/Render.antt =====
-- daemon/handlers.py: `_sync_cluster_env_and_render` and `_reload_nginx`.
use milvus_onprem.Base.{
  Text, str, Dict, Bool, true, false, not, ◌&&◌, Option, none, some, List, [], ◌∷◌, ◌==◌, member,
  same, join, Exec, ok, pure, ◌>>=◌, ◌>>◌, ◌≡◌, refl,
}
use milvus_onprem.Host.{Host, Output, call}
use milvus_onprem.Host.Shell.{cluster_env_path, in_repo}
use milvus_onprem.Config.{DaemonConfig}
use milvus_onprem.Topology.{Info}
use milvus_onprem.Joining.Env.{comma}
use milvus_onprem.Joining.Peers.{names_of, ips_of}
use milvus_onprem.Handlers.EnvFile.{upsert_kv}
use milvus_onprem.Handlers.Peers.{current_peer_ips_and_names}

-- `ordered`
abbrev pub ordered_or_mirror : Option (List (Text × Text)) → Dict Info → List (Text × Text)
ordered_or_mirror none peers = current_peer_ips_and_names peers
ordered_or_mirror (some pairs) peers = pairs

module _ (host : Host) (config : DaemonConfig) where
  open host.etcd use {State}

  -- The two edits of cluster.env.
  unfoldable pub write_peers : List (Text × Text) → Exec State (Unit {0})
  unfolding upsert_kv join
  write_peers ordered = do
    upsert_kv host cluster_env_path (str "PEER_IPS") (join comma (ips_of ordered))
    upsert_kv host cluster_env_path (str "PEER_NAMES") (join comma (names_of ordered))

  -- `./milvus-onprem render`
  unfoldable pub render : Exec State Output
  unfolding in_repo
  render = call (host.run (in_repo (str "./milvus-onprem render")))

  -- `self._cfg.local_ip and self._cfg.local_ip not in [ip for _n, ip in ordered]`
  unfoldable pub misses_self : List (Text × Text) → Bool
  unfolding member same
  misses_self ordered =
      not (same config.local_ip []) && not (member config.local_ip (ips_of ordered))

  -- The peers, where there are some.
  unfoldable pub sync_ordered : List (Text × Text) → Exec State Bool
  unfolding misses_self write_peers render
  sync_ordered ordered = elim (misses_self ordered) [
    | true ↦ pure true
    | false ↦ do write_peers ordered; done ← render; pure (done.rc == 0)
  ]

  unfoldable pub sync_or_skip : List (Text × Text) → Exec State Bool
  unfolding sync_ordered
  sync_or_skip [] = pure true
  sync_or_skip (pair ∷ pairs) = sync_ordered (pair ∷ pairs)

  -- `_sync_cluster_env_and_render`, of the override and the mirror.
  unfoldable pub sync_cluster_env_and_render :
      Option (List (Text × Text)) → Dict Info → Exec State Bool
  unfolding sync_or_skip current_peer_ips_and_names
  sync_cluster_env_and_render override peers = sync_or_skip (ordered_or_mirror override peers)

  -- `_reload_nginx`
  unfoldable pub reload_nginx : Exec State (Unit {0})
  reload_nginx = do call (host.run (str "docker exec milvus-nginx nginx -s reload")); pure tt

  pub sync_ordered-skips :
      (ordered : List (Text × Text)) (s : State)
      → misses_self ordered ≡ true
      → sync_ordered ordered s ≡ (ok true, s)
  unfolding sync_ordered
  sync_ordered-skips ordered s e = rw (e, sync_ordered) refl

  pub sync_ordered-writes :
      (ordered : List (Text × Text)) (s : State)
      → misses_self ordered ≡ false
      → sync_ordered ordered s
        ≡ (write_peers ordered >>= λ _. render >>= λ done. pure (done.rc == 0)) s
  unfolding sync_ordered
  sync_ordered-writes ordered s e = rw (e, sync_ordered) refl
