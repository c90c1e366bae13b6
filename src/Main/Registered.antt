-- ===== src/Main/Registered.antt =====
-- daemon/main.py: starting a daemon overwrites nothing.
use milvus_onprem.Base.{
  same, same_iff, Bool-cases, inl, inr, false, ap, arith, ℕ, Text, Option, none, some, ◌≡◌, ◌≢◌,
  sym, ◌∙◌, Exec, pure,
}
use milvus_onprem.Host.{Host}
use milvus_onprem.Host.Preserving.{Preserves, bind-Preserves, try_else-Preserves}
use milvus_onprem.Host.Shell.{cluster_env_path}
use milvus_onprem.Etcd.{EtcdLaws}
use milvus_onprem.Config.{DaemonConfig}
use milvus_onprem.Topology.{topology_key, Info}
use milvus_onprem.VersionUpgrade.Rollout.{cluster_version_key}
use milvus_onprem.Main.Startup.{
  own_info, file_tag, register_unless, register_self_if_absent, anchor_version,
  register_cluster_version, logged, register_all,
}

module _ (host : Host) (laws : EtcdLaws host.etcd) (config : DaemonConfig)
    (dumps : Text → Info → Text) (now : ℕ) (j : Text) (v : Text) where
  open host.etcd use {State}

  abbrev Holds : State → Type 0
  Holds s = host.etcd.find s j ≡ some v

  put-Preserves : (k w : Text) → Preserves Holds (host.etcd.put_if_absent k w)
  put-Preserves k w s h = elim (Bool-cases (same j k)) [
    | inl e ↦
        let q : j ≡ k = (same_iff j k).0 e in
        ap (host.etcd.find (host.etcd.put_if_absent k w s).1) q
        ∙ laws.put_if_absent_taken k w v s (ap (host.etcd.find s) (sym q) ∙ h)
    | inr e ↦ laws.put_if_absent_other k w j s (differ e) ∙ h
  ]
    where
      differ : same j k ≡ false → j ≢ k
      differ e q = absurd (ground (arith, e, q, same_iff j k))

  own-Preserves :
      (existing : Option Text) → Preserves Holds (register_unless host config dumps now existing)
  unfolding register_unless
  own-Preserves (some value) s h = h
  own-Preserves none s h =
      bind-Preserves Holds
        (host.etcd.put_if_absent (topology_key config.node_name)
          (dumps config.node_name (own_info host config dumps now)))
        (λ _. pure tt) (put-Preserves _ _) (λ _ t k. k) s h

  self-Preserves : Preserves Holds (register_self_if_absent host config dumps now)
  unfolding register_self_if_absent
  self-Preserves =
      bind-Preserves Holds (host.etcd.get (topology_key config.node_name))
        (register_unless host config dumps now) (λ t k. laws.get_keeps _ j t ∙ k) own-Preserves

  anchor-Preserves :
      (tag : Option Text) → Preserves Holds (anchor_version host config dumps now tag)
  unfolding anchor_version
  anchor-Preserves none s h = h
  anchor-Preserves (some tag) s h =
      bind-Preserves Holds (host.etcd.put_if_absent cluster_version_key tag) (λ _. pure tt)
        (put-Preserves _ _) (λ _ t k. k) s h

  version-Preserves : Preserves Holds (register_cluster_version host config dumps now)
  unfolding register_cluster_version
  version-Preserves s h = anchor-Preserves (file_tag (host.file s cluster_env_path)) s h

  logged-Preserves :
      (m : Exec State (Unit {0}))
      → Preserves Holds m
      → Preserves Holds (logged host config dumps now m)
  unfolding logged
  logged-Preserves m hm =
      try_else-Preserves Holds m (λ _. pure tt) (λ _. pure tt) hm (λ _ t k. k) (λ _ t k. k)

  -- However the registrations at the start of a daemon end, a key that has a value keeps it: neither the
  -- peer's own entry nor the version anchor is overwritten.
  pub register_all-keeps :
      (s : State)
      → host.etcd.find s j ≡ some v
      → host.etcd.find (register_all host config dumps now s).1 j ≡ some v
  unfolding register_all
  register_all-keeps s h =
      bind-Preserves Holds
        (logged host config dumps now (register_self_if_absent host config dumps now))
        (λ _. logged host config dumps now (register_cluster_version host config dumps now))
        (logged-Preserves _ self-Preserves) (λ _. logged-Preserves _ version-Preserves) s h
