-- ===== src/Tests/Workers.antt =====
-- Workers: the theorems on daemon/workers/ at concrete inputs.
use milvus_onprem.Base.{
  Result, ℕ, ◌+◌, suc, Text, str, Dict, lookup, insert, same, true, false, Option, none, some, List,
  [], ◌∷◌, ◌≡◌, ◌≢◌, refl, inr, arith, ok, subst, Elem, ◌↔◌, ◌⊎◌, starts_with, remove_prefix,
}
use milvus_onprem.Host.{Response}
use milvus_onprem.Host.Waiting.{out_of_fuel}
use milvus_onprem.Topology.{topology_key, decode_entries}
use milvus_onprem.Handlers.Minio.{wait_minio_healthy}
use milvus_onprem.Handlers.PeerLists.{address_of}
use milvus_onprem.RemoveNode.Decommission.{Parsed, malformed}
use milvus_onprem.RemoveNode.Guards.{RemoveContext}
use milvus_onprem.RemoveNode.Settling.{wait_minio_settled, wait_milvus_proxy_settled}
use milvus_onprem.RemoveNode.Removal.{poll_rounds, run_remove_node}
use milvus_onprem.RemoveNode.Draining.{Ended, poll, poll_rounds-enough}
use milvus_onprem.RemoveNode.Removed.{run_remove_node-keeps}
use milvus_onprem.RemoveNode.Waits.{waits-end}
use milvus_onprem.MigratePulsar.Migration.{MigrateContext, run_migrate_pulsar, may_proceed}
use milvus_onprem.MigratePulsar.Outcomes.{Migrated, run_migrate_pulsar-Migrated, preflight, scanned}
use milvus_onprem.MigratePulsar.Rounds.{preflight_peers_reachable}
use milvus_onprem.MigratePulsar.Refused.{Halted, run_migrate_pulsar-Halted}
use milvus_onprem.VersionUpgrade.Rollout.{upgrade_order, run_version_upgrade}
use milvus_onprem.VersionUpgrade.Order.{upgrade_order_correct}
use milvus_onprem.VersionUpgrade.Anchor.{Anchored, run_version_upgrade-Anchored}
use milvus_onprem.RotateToken.Rotation.{run_rotate_token}
use milvus_onprem.RotateToken.Guarded.{failed_followers, run_rotate_token-guarded}
use milvus_onprem.Tests.Memory.{Content, scan, memory-EtcdLaws}
use milvus_onprem.Tests.Machine.{machine, machine-HostLaws, quiet, silent}
use milvus_onprem.Tests.Handlers.{config, info_at, peers}

abbrev remove_context : RemoveContext
remove_context = record {
  loads = λ t. some (info_at t);
  loads_leader = λ t. none;
  env_files = [];
  is_leader = true;
  peer_port = 2380;
}

abbrev two_peers : Content
two_peers = record {
  keys =
      (topology_key (str "node-1"), str "10.0.0.1")
      ∷ (topology_key (str "node-2"), str "10.0.0.2")
      ∷ [];
  members = [];
  clock = 0;
  files = [];
}

abbrev unread : Text → Parsed
unread t = malformed

poll_example :
    Ended (machine quiet silent) [] unread (str "10.0.0.2") poll_rounds 0 two_peers
    × ((n : ℕ)
        → poll (machine quiet silent) [] unread (str "10.0.0.2") (suc (poll_rounds + n)) 0 two_peers
          ≡ poll (machine quiet silent) [] unread (str "10.0.0.2") poll_rounds 0 two_peers)
poll_example = poll_rounds-enough (machine quiet silent) [] unread (str "10.0.0.2") two_peers

other_key : (name : Text) → str "x" ≢ topology_key name
unfolding topology_key
other_key name e = absurd (ground (arith, e))

run_remove_node_example :
    lookup
      (str "x")
      (run_remove_node
        (machine quiet silent)
        remove_context
        config
        unread
        19530
        (str "10.0.0.2")
        two_peers).1.keys
    ≡ lookup (str "x") two_peers.keys
run_remove_node_example =
    run_remove_node-keeps (machine quiet silent) (machine-HostLaws quiet silent)
      (memory-EtcdLaws true) remove_context config unread 19530 (str "10.0.0.2") (str "x") two_peers
      (λ name d. other_key name)

waits_example :
    ((wait_minio_healthy (machine quiet silent) config 90 two_peers).0 ≢ out_of_fuel)
    × (((wait_minio_settled (machine quiet silent) config [] two_peers).0 ≢ out_of_fuel)
        × ((wait_milvus_proxy_settled (machine quiet silent) config 19530 [] two_peers).0
            ≢ out_of_fuel))
waits_example =
    waits-end (machine quiet silent) (machine-HostLaws quiet silent) config 90 19530 [] two_peers

abbrev migrate_context : MigrateContext
migrate_context = record {
  loads = λ t. some (info_at t);
  env_files = some (str "MQ_TYPE=pulsar") ∷ [];
  is_leader = true;
  config = config;
  force = false;
}

-- Every daemon answers that it has applied what it was told, and that its Pulsar host is node-2.
abbrev moved : Text → Option Response
moved u = some (record {
  status_code = 200;
  body = some (record { applied = true; pulsar_host = some (str "node-2"); error = [] });
})

migrates :
    (run_migrate_pulsar (machine quiet moved) migrate_context (str "node-2") two_peers).0 ≡ ok tt
unfolding run_migrate_pulsar scan starts_with topology_key insert remove_prefix
migrates = refl

run_migrate_pulsar_example : Migrated (machine quiet moved) migrate_context (str "node-2") two_peers
run_migrate_pulsar_example =
    run_migrate_pulsar-Migrated (machine quiet moved) migrate_context (str "node-2") two_peers
      migrates

abbrev Untouched : Content → Type 0
Untouched s = s.files ≡ []

same_result : (a b : Dict Text) → ◌≡◌ {A = Result (Dict Text)} (ok a) (ok b) → a ≡ b
same_result a b h = cc

refused :
    (raw : Dict Text)
    → (scanned (machine quiet silent) migrate_context two_peers).0 ≡ ok raw
    → may_proceed
        (machine quiet silent)
        migrate_context
        (preflight
          (machine quiet silent)
          migrate_context
          (decode_entries migrate_context.loads raw)
          two_peers).0
      ≡ false
unfolding may_proceed decode_entries scan preflight_peers_reachable starts_with topology_key insert
    remove_prefix
refused raw e =
    subst
      (λ r.
        may_proceed (machine quiet silent) migrate_context
          (preflight (machine quiet silent) migrate_context (decode_entries migrate_context.loads r)
            two_peers).0
        ≡ false)
      (same_result _ raw e) refl

refused_migration_example :
    Halted
      (machine quiet silent)
      migrate_context
      Untouched
      (λ u t s h. h)
      (λ p s h. h)
      (str "node-2")
      two_peers
      (run_migrate_pulsar (machine quiet silent) migrate_context (str "node-2") two_peers)
refused_migration_example =
    run_migrate_pulsar-Halted (machine quiet silent) migrate_context Untouched (λ u t s h. h)
      (λ p s h. h) (str "node-2") two_peers (inr (inr (inr refused))) refl

upgrade_order_example :
    ((x : Text) × ((rest : List (Text × Text)) × (upgrade_order (str "node-2") peers
          ≡ (str "node-2", x) ∷ rest)))
    × ((n x : Text)
        → Elem (n, x) (upgrade_order (str "node-2") peers) ↔ (address_of (lookup n peers) ≡ some x))
unfolding lookup same
upgrade_order_example = upgrade_order_correct (str "node-2") (str "10.0.0.2") peers refl

run_version_upgrade_example :
    Anchored
      (machine quiet silent)
      config
      Untouched
      (λ c s h. h)
      (λ u t b s h. h)
      (λ n s h. h)
      peers
      true
      (str "v2.5.5")
      two_peers
      (run_version_upgrade (machine quiet silent) config peers true (str "v2.5.5") two_peers)
run_version_upgrade_example =
    run_version_upgrade-Anchored (machine quiet silent) config Untouched (λ c s h. h)
      (λ u t b s h. h) (λ n s h. h) peers true (str "v2.5.5") two_peers refl

run_rotate_token_example :
    (failed_followers (machine quiet silent) config (str "cp") peers (str "t") two_peers ≡ [])
    ⊎ Untouched
        (run_rotate_token (machine quiet silent) config (str "cp") peers true (str "t") two_peers).1
run_rotate_token_example =
    run_rotate_token-guarded (machine quiet silent) Untouched (λ u t b s h. h) config (str "cp")
      peers true (str "t") two_peers refl
