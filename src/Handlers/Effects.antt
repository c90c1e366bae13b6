-- ===== src/Handlers/Effects.antt =====
-- daemon/handlers.py: what the handlers of a topology change preserve of the world.
use milvus_onprem.Base.{
  Text, Dict, Bool, true, false, ◌&&◌, Option, none, List, [], ◌∷◌, ◌≡◌, bind-ind, arith, str, join,
  ◌>>=◌, ◌==◌, Bool-cases, inl, inr, ◌⊎◌, ok, Option-cases, pure,
}
use milvus_onprem.Host.{Host}
use milvus_onprem.Host.Preserving.{Preserves, PreservesCall, bind-Preserves}
use milvus_onprem.Host.Shell.{cluster_env_path, in_repo}
use milvus_onprem.Joining.Env.{comma}
use milvus_onprem.Joining.Peers.{names_of, ips_of}
use milvus_onprem.Config.{DaemonConfig}
use milvus_onprem.Topology.{Info}
use milvus_onprem.Topology.Watcher.{Kind}
use milvus_onprem.Handlers.EnvFile.{upsert_kv, upsert_text, upsert_kv-missing, upsert_kv-writes}
use milvus_onprem.Handlers.Render.{
  sync_ordered-skips, sync_ordered-writes, ordered_or_mirror, sync_or_skip, write_peers, render,
  misses_self, sync_ordered, sync_cluster_env_and_render, reload_nginx,
}
use milvus_onprem.Handlers.Dispatch.{Handlers, sweep_if, resizes, after_render, dispatch}

module _ (host : Host) (P : host.etcd.State → Type 0)
    (runs : (c : Text) → PreservesCall P (host.run c))
    (writes : (p v : Text) (s : host.etcd.State) → P s → P (host.write p v s)) where
  upsert_kv-Preserves : (path key value : Text) → Preserves P (upsert_kv host path key value)
  upsert_kv-Preserves path key value s h = elim (Option-cases (host.file s path)) [
    | inl e ↦ rw (upsert_kv-missing host path key value s e) h
    | inr (text, e) ↦
        rw (upsert_kv-writes host path key value text s e)
          (writes path (upsert_text key value text) s h)
  ]

  write_peers-Preserves :
      (config : DaemonConfig) (ordered : List (Text × Text))
      → Preserves P (write_peers host config ordered)
  unfolding write_peers
  write_peers-Preserves config ordered =
      let ips : Text = join comma (ips_of ordered) in
      let names : Text = join comma (names_of ordered) in
      bind-Preserves P (upsert_kv host cluster_env_path (str "PEER_IPS") ips)
        (λ _. upsert_kv host cluster_env_path (str "PEER_NAMES") names)
        (upsert_kv-Preserves cluster_env_path (str "PEER_IPS") ips)
        (λ _. upsert_kv-Preserves cluster_env_path (str "PEER_NAMES") names)

  render-Preserves : (config : DaemonConfig) → Preserves P (render host config)
  unfolding render
  render-Preserves config = runs (in_repo (str "./milvus-onprem render"))

  sync_ordered-Preserves :
      (config : DaemonConfig) (ordered : List (Text × Text))
      → Preserves P (sync_ordered host config ordered)
  sync_ordered-Preserves config ordered s h = elim (Bool-cases (misses_self host config ordered)) [
    | inl e ↦ rw (sync_ordered-skips host config ordered s e) h
    | inr e ↦ rw (sync_ordered-writes host config ordered s e) (
        bind-Preserves P (write_peers host config ordered)
          (λ _. render host config >>= λ done. pure (done.rc == 0))
          (write_peers-Preserves config ordered)
          (λ _.
            bind-Preserves P (render host config) (λ done. pure (done.rc == 0))
              (render-Preserves config) (λ done t k. k))
          s h)
  ]

  sync_or_skip-Preserves :
      (config : DaemonConfig) (ordered : List (Text × Text))
      → Preserves P (sync_or_skip host config ordered)
  unfolding sync_or_skip
  sync_or_skip-Preserves config [] s h = h
  sync_or_skip-Preserves config (pair ∷ pairs) s h =
      sync_ordered-Preserves config (pair ∷ pairs) s h

  sync-Preserves :
      (config : DaemonConfig) (override : Option (List (Text × Text))) (peers : Dict Info)
      → Preserves P (sync_cluster_env_and_render host config override peers)
  unfolding sync_cluster_env_and_render
  sync-Preserves config override peers =
      sync_or_skip-Preserves config (ordered_or_mirror override peers)

  reload-Preserves : (config : DaemonConfig) → Preserves P (reload_nginx host config)
  unfolding reload_nginx
  reload-Preserves config s h = runs (str "docker exec milvus-nginx nginx -s reload") s h

  module _ (h : Handlers) (kind : Kind) where
    reload_only :
        (s : host.etcd.State)
        → (resizes kind && h.is_leader) ≡ false
        → P s
        → P (after_render host h kind true s).1
    unfolding after_render
    reload_only s quiet hp =
        bind-Preserves P (reload_nginx host h.config)
          (λ _. sweep_if host h (resizes kind && h.is_leader) kind) (reload-Preserves h.config)
          (λ _ t ht. rw (quiet, sweep_if) ht) s hp

    -- Where the event resizes nothing, or this daemon is no leader, or the render did not go through, all
    -- that a dispatch does is to run commands and to write files: it calls neither etcd nor another
    -- daemon, as it preserves what commands and writes preserve.
    pub dispatch-Preserves :
        (s : host.etcd.State)
        → ((resizes kind && h.is_leader) ≡ false)
          ⊎ ((sync_cluster_env_and_render host h.config none h.peers s).0 ≡ ok false)
        → P s
        → P (dispatch host h kind s).1
    unfolding dispatch
    dispatch-Preserves s quiet hp =
        bind-ind P (sync_cluster_env_and_render host h.config none h.peers)
          (after_render host h kind) s (λ rendered e. go rendered e quiet)
          (sync-Preserves h.config none h.peers s hp)
      where
        t : host.etcd.State
        t = (sync_cluster_env_and_render host h.config none h.peers s).1

        go :
            (rendered : Bool)
            → (sync_cluster_env_and_render host h.config none h.peers s).0 ≡ ok rendered
            → ((resizes kind && h.is_leader) ≡ false)
              ⊎ ((sync_cluster_env_and_render host h.config none h.peers s).0 ≡ ok false)
            → P (after_render host h kind rendered t).1
        go false e q = unfold after_render in sync-Preserves h.config none h.peers s hp
        go true e (inl q) = reload_only t q (sync-Preserves h.config none h.peers s hp)
        go true e (inr q) = absurd (ground (arith, e, q))
