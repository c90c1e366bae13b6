-- ===== src/MigratePulsar/Migration.antt =====
-- daemon/workers/migrate_pulsar.py: `run_migrate_pulsar`.
use milvus_onprem.Base.{
  Text, str, Dict, keys, lookup, Bool, true, false, not, ◌&&◌, ◌||◌, Option, none, some, List, [],
  ◌∷◌, ◌++◌, same, member, sort_by, if◌then◌else◌, Exec, value_error, permission_error,
  runtime_error, pure, raise, raise_if, or_raise, ◌>>=◌, ◌>>◌,
}
use milvus_onprem.Host.{Host, call}
use milvus_onprem.Config.{DaemonConfig}
use milvus_onprem.Topology.{topology_prefix, Info, ip_of, has_ip, decode_entries}
use milvus_onprem.Joining.Names.{name_leb}
use milvus_onprem.Joining.Settings.{read_cluster_env_value}
use milvus_onprem.RemoveNode.Guards.{is_pulsar_deploy}
use milvus_onprem.MigratePulsar.Rounds.{
  label_names, preflight_peers_reachable, sync_all, fetch_pulsar_hosts, mismatches,
}

-- What the job reads beside etcd; `force` is the parameter `force_when_old_host_dead`.
pub record MigrateContext : Type 0 where
  pub loads : Text → Option Info
  pub env_files : List (Option Text)
  pub is_leader : Bool
  pub config : DaemonConfig
  pub force : Bool

-- `(peers.get(name) or {}).get("ip", "")`
abbrev pub ip_at : Text → Dict Info → Text
ip_at name peers = elim (lookup name peers) [ none ↦ [] | some info ↦ ip_of info ]

-- `sequenced`, of the peers that are neither host.
unfoldable pub milvus_only : Text → Text → Dict Info → List Text → List (Text × Text)
unfolding same lookup
milvus_only to_node current_host peers [] = []
milvus_only to_node current_host peers (name ∷ names) =
    let rest = milvus_only to_node current_host peers names in
    if same name to_node || same name current_host
    then rest
    else elim (ip_at name peers) [ [] ↦ rest | c ∷ ip ↦ (name, c ∷ ip) ∷ rest ]

-- The old host, where it has an address and is not passed over.
abbrev pub old_host : Text → Text → Bool → List (Text × Text)
old_host current_host [] skip = []
old_host current_host (c ∷ ip) skip = if skip then [] else (current_host, c ∷ ip) ∷ []

unfoldable pub sequence : Text → Text → Text → Dict Info → Bool → List (Text × Text)
unfolding milvus_only lookup name_leb sort_by
sequence to_node target_ip current_host peers skip =
    (to_node, target_ip)
    ∷ (milvus_only to_node current_host peers (sort_by name_leb (keys peers))
        ++ old_host current_host (ip_at current_host peers) skip)

-- `unreachable_names == [current_host]`
abbrev pub is_only : Text → List Text → Bool
is_only name [] = false
is_only name (n ∷ []) = same n name
is_only name (n ∷ m ∷ names) = false

-- `{n: i for n, i in peers.items() if n != current_host}`
unfoldable pub without : Text → Dict Info → Dict Info
unfolding same
without name [] = []
without name ((n, info) ∷ peers) =
    let rest = without name peers in if same n name then rest else (n, info) ∷ rest

module _ (host : Host) (ctx : MigrateContext) where
  open host.etcd use {State}

  abbrev pub current_pulsar_host : Text
  current_pulsar_host = read_cluster_env_value ctx.env_files (str "PULSAR_HOST") (str "node-1")

  -- `force_when_old_host_dead and current_host in unreachable_names`
  abbrev pub passes_over : List Text → Bool
  passes_over unreachable = ctx.force && member current_pulsar_host (label_names unreachable)

  abbrev pub verified_peers : Dict Info → Bool → Dict Info
  verified_peers peers skip = if skip then without current_pulsar_host peers else peers

  -- Step 4.
  unfoldable pub post_verify : Text → Dict Info → Exec State (Unit {0})
  unfolding fetch_pulsar_hosts mismatches
  post_verify to_node peers = do
    results ← call (fetch_pulsar_hosts host ctx.config peers)
    elim (mismatches to_node results) [ [] ↦ pure tt | name ∷ names ↦ raise runtime_error ]

  -- Steps 3 and 4.
  unfoldable pub apply_and_verify : Text → Text → Dict Info → Bool → Exec State (Unit {0})
  unfolding sync_all sequence post_verify without
  apply_and_verify to_node target_ip peers skip = do
    sync_all host ctx.config to_node (sequence to_node target_ip current_pulsar_host peers skip)
    post_verify to_node (verified_peers peers skip)

  -- Whether the migration may go on: all peers are reachable, or all but the dead old host.
  unfoldable pub may_proceed : List Text → Bool
  unfolding label_names same
  may_proceed [] = true
  may_proceed (u ∷ us) = ctx.force && is_only current_pulsar_host (label_names (u ∷ us))

  unfoldable pub proceed : Text → Text → Dict Info → List Text → Exec State (Unit {0})
  unfolding may_proceed apply_and_verify member
  proceed to_node target_ip peers unreachable = do
    raise_if (not (may_proceed unreachable)) runtime_error
    apply_and_verify to_node target_ip peers (passes_over unreachable)

  -- Step 2 and what follows it.
  unfoldable pub migrate : Text → Text → Dict Info → Exec State (Unit {0})
  unfolding preflight_peers_reachable proceed
  migrate to_node target_ip peers = do
    unreachable ← call (preflight_peers_reachable host ctx.config peers)
    proceed to_node target_ip peers unreachable

  -- The address of the target.
  unfoldable pub target_of : Text → Dict Info → Option Text
  unfolding lookup
  target_of to_node peers = elim (lookup to_node peers) [
    | none ↦ none
    | some info ↦ if has_ip info then some (ip_of info) else none
  ]

  unfoldable pub migrate_unless_there : Text → Text → Dict Info → Exec State (Unit {0})
  unfolding same read_cluster_env_value migrate
  migrate_unless_there to_node target_ip peers = elim (same current_pulsar_host to_node) [
    | true ↦ pure tt
    | false ↦ migrate to_node target_ip peers
  ]

  -- What follows the read of the topology.
  unfoldable pub migrate_among : Text → Dict Text → Exec State (Unit {0})
  unfolding decode_entries target_of migrate_unless_there
  migrate_among to_node raw = do
    let peers = decode_entries ctx.loads raw
    target_ip ← or_raise (target_of to_node peers) value_error
    migrate_unless_there to_node target_ip peers

  unfoldable pub check_migration : Text → Exec State (Unit {0})
  unfolding same is_pulsar_deploy
  check_migration to_node = do
    raise_if (same to_node []) value_error
    raise_if (not (is_pulsar_deploy ctx.env_files)) permission_error
    raise_if (not ctx.is_leader) permission_error

  unfoldable pub read_and_migrate : Text → Exec State (Unit {0})
  unfolding migrate_among
  read_and_migrate to_node = do
    raw ← host.etcd.get_prefix topology_prefix
    migrate_among to_node raw

  -- `run_migrate_pulsar`
  unfoldable pub run_migrate_pulsar : Text → Exec State (Unit {0})
  unfolding check_migration read_and_migrate
  run_migrate_pulsar to_node = do check_migration to_node; read_and_migrate to_node
