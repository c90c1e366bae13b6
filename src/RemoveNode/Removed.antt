-- ===== src/RemoveNode/Removed.antt =====
-- daemon/workers/remove_node.py: which key a removal changes, and when.
use milvus_onprem.Base.{
  ℕ, Text, Option, some, ◌≡◌, ◌≢◌, ◌⊎◌, inl, inr, ◌∙◌, ok, Result, bind-ok, ap, bind-ind, arith,
}
use milvus_onprem.Host.{Host, HostLaws}
use milvus_onprem.Etcd.{EtcdLaws}
use milvus_onprem.Config.{DaemonConfig}
use milvus_onprem.Topology.{topology_key}
use milvus_onprem.RemoveNode.Decommission.{PoolState, complete, missing, Parsed}
use milvus_onprem.RemoveNode.Guards.{RemoveContext, check_removal}
use milvus_onprem.RemoveNode.Refusals.{check_removal-keeps}
use milvus_onprem.RemoveNode.Polling.{start_decommission}
use milvus_onprem.RemoveNode.Draining.{poll_rounds-enough, poll}
use milvus_onprem.RemoveNode.Removal.{
  poll_rounds, delete_entry, drain, drain_and_remove, run_remove_node,
}
use milvus_onprem.RemoveNode.Keeping.{drain-Preserves, delete_entry-Preserves}

module _ (host : Host) (laws : HostLaws host) (elaws : EtcdLaws host.etcd) (ctx : RemoveContext)
    (config : DaemonConfig) (loads : Text → Parsed) (port : ℕ) where
  open host.etcd use {State, find}

  abbrev checked : Text → State → Result Text
  checked ip s = (check_removal host.etcd ctx ip s).0

  abbrev drained : Text → State → Result (Option PoolState)
  drained ip s = (drain host ctx config loads port ip (check_removal host.etcd ctx ip s).1).0

  -- The checks found the name, and the poll ended with a pool that is complete or missing.
  abbrev pub Drained : Text → Text → State → Type 0
  Drained ip name s =
      (checked ip s ≡ ok name)
      × ((drained ip s ≡ ok (some complete)) ⊎ (drained ip s ≡ ok (some missing)))

  drain-ends :
      (ip : Text) (s : State) (o : Option PoolState)
      → (drain host ctx config loads port ip s).0 ≡ ok o
      → (o ≡ some complete) ⊎ (o ≡ some missing)
  unfolding drain
  drain-ends ip s o h =
      let (u, (e, polled)) =
        bind-ok (start_decommission host ctx.env_files loads ip)
          (λ _. poll host ctx.env_files loads ip poll_rounds 0) s h in
      elim (poll_rounds-enough host ctx.env_files loads ip
        (start_decommission host ctx.env_files loads ip s).1).0 [
          | inl f ↦ absurd (ground (arith, polled, f))
          | inr (inl f) ↦ inl (ground (arith, polled, f))
          | inr (inr f) ↦ inr (ground (arith, polled, f))
        ]

  -- Whatever a removal does and however it ends, it changes one key of etcd at most: the topology entry
  -- of the peer that its checks have found, and this only after the poll has ended with a pool that is
  -- complete or missing.
  pub run_remove_node-keeps :
      (ip j : Text) (s : State)
      → ((name : Text) → Drained ip name s → j ≢ topology_key name)
      → find (run_remove_node host ctx config loads port ip s).1 j ≡ find s j
  unfolding run_remove_node drain_and_remove
  run_remove_node-keeps ip j s other =
      bind-ind Holds (check_removal host.etcd ctx ip)
        (drain_and_remove host ctx config loads port ip) s
        (λ name e.
          bind-ind Holds (drain host ctx config loads port ip)
            (delete_entry host ctx config loads port ip name) (check_removal host.etcd ctx ip s).1
            (λ o f.
              delete_entry-Preserves host laws elaws ctx config loads port j (find s j) ip name o
                (other name (e, ended name o f)) _ polled)
            polled)
        checks
    where
      Holds : State → Type 0
      Holds t = find t j ≡ find s j

      checks : find (check_removal host.etcd ctx ip s).1 j ≡ find s j
      checks = check_removal-keeps host.etcd elaws ctx ip j s

      polled :
          find (drain host ctx config loads port ip (check_removal host.etcd ctx ip s).1).1 j
          ≡ find s j
      polled = drain-Preserves host laws elaws ctx config loads port j (find s j) ip _ checks

      ended :
          (name : Text) (o : Option PoolState)
          → drained ip s ≡ ok o
          → (drained ip s ≡ ok (some complete)) ⊎ (drained ip s ≡ ok (some missing))
      ended name o f = elim (drain-ends ip _ o f) [
        | inl e ↦ inl (f ∙ ap ok e)
        | inr e ↦ inr (f ∙ ap ok e)
      ]
