-- ===== src/Api/Reading.antt =====
-- daemon/api.py: what a peer reports of its Pulsar host after it has been told a new one.
use milvus_onprem.Base.{
  ℕ, inl, inr, Result-cases, Option-cases, Text, str, Option, some, List, [], ◌∷◌, ◌≡◌, refl, ap,
  ◌∙◌, arith, same_refl, if◌then◌else◌, Error, Exec, runtime_error, bind-returned, AllLines, lstrip,
  rstrip, is_space, is_break, has_char,
}
use milvus_onprem.Host.{Host, HostLaws}
use milvus_onprem.Host.Preserving.{Preserves, raise_if-Preserves}
use milvus_onprem.Host.Shell.{cluster_env_path, to_recreate}
use milvus_onprem.Config.{DaemonConfig}
use milvus_onprem.Joining.EnvReading.{IsValue, IsKey, key}
use milvus_onprem.Joining.Settings.{read_cluster_env_value}
use milvus_onprem.Handlers.EnvFile.{upsert_text, upsert_kv, upsert_kv-writes}
use milvus_onprem.Handlers.EnvLines.{unlines}
use milvus_onprem.Handlers.EnvUpsert.{Opens, upsert_text-read}
use milvus_onprem.Handlers.Render.{render}
use milvus_onprem.Handlers.Minio.{milvus_services, compose}
use milvus_onprem.Handlers.Pulsar.{
  recreate_listed, recreate_pulsar_services, list_and_recreate, render_and_recreate,
  apply_pulsar_host_change,
}
use milvus_onprem.Api.Replies.{answered, catching}
use milvus_onprem.Api.Internal.{get_admin_pulsar_host, post_admin_sync_pulsar_host}

host-IsKey : IsKey (str "PULSAR_HOST")
unfolding is_break lstrip rstrip is_space has_char
host-IsKey =
    key 80 (str "ULSAR_HOST")
      (refl, (refl, (refl, (refl, (refl, (refl, (refl, (refl, (refl, (refl, (refl, tt)))))))))))
      refl refl refl refl

catching-state :
    {S A : Type 0} (status : Error → Option ℕ) (m : Exec S A) (s : S)
    → (catching status m s).1 ≡ (m s).1
unfolding catching
catching-state status m s = elim (Result-cases (m s).0) [
  | inl (a, e) ↦ ground (arith, e)
  | inr (x, e) ↦ elim (Option-cases (status x)) [
    | inl f ↦ ground (arith, e, f)
    | inr (code, f) ↦ ground (arith, e, f)
  ]
]

module _ (host : Host) (laws : HostLaws host)
    (runs : (c : Text) (s : host.etcd.State)
      → host.file (host.run c s).1 cluster_env_path ≡ host.file s cluster_env_path)
    (config : DaemonConfig) where
  open host.etcd use {State}

  module _ (text : Text) where
    abbrev Filed : State → Type 0
    Filed s = host.file s cluster_env_path ≡ some text

    ran : (c : Text) (s : State) → Filed s → Filed (host.run c s).1
    ran c s h = runs c s ∙ h

    listed-Preserves :
        (services : List Text) → Preserves Filed (recreate_listed host config services)
    unfolding recreate_listed
    listed-Preserves [] s h = h
    listed-Preserves (service ∷ services) s h = ran _ s h

    services-Preserves : (out : Text) → Preserves Filed (recreate_pulsar_services host config out)
    unfolding recreate_pulsar_services
    services-Preserves out = listed-Preserves (to_recreate out (str "pulsar" ∷ milvus_services))

    list-Preserves : Preserves Filed (list_and_recreate host config)
    unfolding list_and_recreate
    list-Preserves s h =
        raise_if-Preserves Filed _ runtime_error
          (λ _.
            recreate_pulsar_services host config
              (host.run (compose host config (str "config --services")) s).0.out)
          (services-Preserves (host.run (compose host config (str "config --services")) s).0.out) _
          (ran _ s h)

    render-Preserves : Preserves Filed (render_and_recreate host config)
    unfolding render_and_recreate render
    render-Preserves s h =
        raise_if-Preserves Filed _ runtime_error (λ _. list_and_recreate host config) list-Preserves
          _ (ran _ s h)

  -- Where commands leave cluster.env, which ends every line with a newline and in which the lines that are
  -- read as `PULSAR_HOST` begin so, and the new Pulsar host has no line break and no spaces or quotes
  -- round it, a peer that was told it reports it in the state right after that request, even where the
  -- request ended in a 500.
  pub sync-get :
      (new_host : Text) (lines : List Text) (s : State)
      → IsValue new_host
      → AllLines lines
      → Opens (str "PULSAR_HOST") lines
      → host.file s cluster_env_path ≡ some (unlines lines)
      → get_admin_pulsar_host host config (post_admin_sync_pulsar_host host config new_host s).1
        ≡ answered new_host
  unfolding get_admin_pulsar_host post_admin_sync_pulsar_host
  sync-get new_host lines s hv hl opens hf =
      ap (λ o. answered (read_cluster_env_value (o ∷ []) k (str "node-1")))
        (ap (λ t. host.file t cluster_env_path)
            (catching-state (λ e. some 500) (apply_pulsar_host_change host config new_host) s)
          ∙ filed)
      ∙ ap answered (
          upsert_text-read k new_host lines k (str "node-1") host-IsKey hv hl opens
          ∙ ap
              (λ b.
                if b
                then new_host
                else read_cluster_env_value (some (unlines lines) ∷ []) k (str "node-1"))
              (same_refl k))
    where
      k : Text
      k = str "PULSAR_HOST"

      text : Text
      text = upsert_text k new_host (unlines lines)

      t : State
      t = host.write cluster_env_path text s

      filed :
          host.file (apply_pulsar_host_change host config new_host s).1 cluster_env_path ≡ some text
      filed =
          unfold apply_pulsar_host_change in
          (ap (λ p. host.file p.1 cluster_env_path)
              (bind-returned (upsert_kv host cluster_env_path k new_host)
                (λ _. render_and_recreate host config) s t tt
                (upsert_kv-writes host cluster_env_path k new_host (unlines lines) s hf))
            ∙ render-Preserves text t (laws.write_same cluster_env_path text s))
