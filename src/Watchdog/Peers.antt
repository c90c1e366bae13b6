-- ===== src/Watchdog/Peers.antt =====
-- daemon/watchdog.py: `PeerReachabilityWatchdog`, which probes the other peers. One call of `_tick` is
-- a step on the watchdog's state; what it prints is a list of alerts, the latest first. The
-- topology mirror, the probes, cluster.env, leadership, the job manager and the time come from outside.
use milvus_onprem.Base.{
  ℕ, ◌+◌, ◌-◌, Text, str, Dict, lookup, insert, erase, Bool, not, ◌&&◌, ◌||◌, Option, none, some,
  List, [], ◌∷◌, leb, ◌==◌, if◌then◌else◌, same, member, starts_with, sort_by,
}
use milvus_onprem.Config.{DaemonConfig}
use milvus_onprem.Topology.{Info, ip_of, has_ip}
use milvus_onprem.Joining.Names.{name_leb}
use milvus_onprem.Joining.Settings.{read_cluster_env_value}
use milvus_onprem.Watchdog.Local.{discard}

pub data Alert : Type 0 where
  -- PEER_UP_ALERT with `was_down_for_s`
  peer_up : Text → Text → ℕ → Alert
  -- PEER_DOWN_ALERT with `consecutive_failures`
  peer_down : Text → Text → ℕ → Alert
  -- AUTO_MIGRATE_PULSAR, from, to, and the id of the job
  auto_migrate : Text → Text → Text → Alert

pub record PeerState : Type 0 where
  pub consecutive_misses : Dict ℕ
  pub down_since : Dict ℕ
  pub migrated_while_down : List Text
  pub alerts : List Alert

abbrev pub no_misses : PeerState
no_misses = record {
  consecutive_misses = [];
  down_since = [];
  migrated_while_down = [];
  alerts = [];
}

-- What a tick finds outside. `leads` says that a leader elector and a job manager were given, and
-- that this peer is the leader; `submit` is the id of the `migrate-pulsar` job to a target, or `none`
-- where `create` raises.
pub record World : Type 0 where
  pub peers : Dict Info
  pub probe : Text → Bool
  pub now : ℕ
  pub leads : Bool
  pub env_files : List (Option Text)
  pub submit : Text → Option Text

abbrev pub misses : Text → PeerState → ℕ
misses name s = elim (lookup name s.consecutive_misses) [ none ↦ 0 | some n ↦ n ]

-- `mq_type == "pulsar"`, with the type derived from the image tag where it is not set.
unfoldable pub runs_pulsar : List (Option Text) → Bool
unfolding read_cluster_env_value same starts_with
runs_pulsar files =
    let by_tag =
      starts_with (str "v2.5") (read_cluster_env_value files (str "MILVUS_IMAGE_TAG") []) in
    elim (read_cluster_env_value files (str "MQ_TYPE") []) [
      | [] ↦ by_tag
      | c ∷ mq_type ↦ same (c ∷ mq_type) (str "pulsar")
    ]

-- The names in `survivors`, before they are sorted.
unfoldable pub other_peers : Text → Dict Info → List Text
other_peers down [] = []
other_peers down ((n, info) ∷ peers) =
    let rest = other_peers down peers in if not (same n down) && has_ip info then n ∷ rest else rest

unfoldable pub survivors : Text → Dict Info → List Text
unfolding other_peers sort_by name_leb
survivors down peers = sort_by name_leb (other_peers down peers)

module _ (config : DaemonConfig) (w : World) where
  -- The submission: the name is marked first, and unmarked if the submission raises.
  unfoldable pub submit_migration : Text → Text → PeerState → PeerState
  submit_migration name target s =
      let marked = record s { migrated_while_down = name ∷ s.migrated_while_down } in
      elim (w.submit target) [
        | none ↦ record marked { migrated_while_down = discard name marked.migrated_while_down }
        | some job_id ↦ record marked { alerts = auto_migrate name target job_id ∷ s.alerts }
      ]

  -- `_maybe_auto_migrate_pulsar`
  unfoldable pub maybe_auto_migrate_pulsar : Text → PeerState → PeerState
  maybe_auto_migrate_pulsar name s =
      if not (runs_pulsar w.env_files)
      then s
      else if not
          (same name (read_cluster_env_value w.env_files (str "PULSAR_HOST") (str "node-1")))
      then s
      else elim (survivors name w.peers) [ [] ↦ s | target ∷ _ ↦ submit_migration name target s ]

  -- A probe that went through.
  unfoldable pub on_reachable : Text → Text → PeerState → PeerState
  on_reachable name ip s =
      let since : ℕ = elim (lookup name s.down_since) [ none ↦ w.now | some t ↦ t ] in
      let up =
        if leb config.watchdog_peer_failure_threshold (misses name s)
        then record s {
          down_since = erase name s.down_since;
          alerts = peer_up name ip (w.now - since) ∷ s.alerts;
        }
        else s in
      record up {
        consecutive_misses = insert name 0 s.consecutive_misses;
        migrated_while_down = discard name s.migrated_while_down;
      }

  -- A probe that did not, up to the alert.
  unfoldable pub count_miss : Text → Text → PeerState → PeerState
  count_miss name ip s =
      let count = misses name s + 1 in
      let counted = record s { consecutive_misses = insert name count s.consecutive_misses } in
      if count == config.watchdog_peer_failure_threshold
      then record counted {
        down_since = insert name w.now s.down_since;
        alerts = peer_down name ip count ∷ s.alerts;
      }
      else counted

  -- The conditions before `_maybe_auto_migrate_pulsar`.
  unfoldable pub may_migrate : Text → PeerState → Bool
  may_migrate name s =
      config.auto_migrate_pulsar_on_host_failure
      && (w.leads
          && (not (member name s.migrated_while_down)
              && leb config.auto_migrate_pulsar_threshold (misses name s)))

  unfoldable pub on_unreachable : Text → Text → PeerState → PeerState
  on_unreachable name ip s =
      let counted = count_miss name ip s in
      if may_migrate name counted then maybe_auto_migrate_pulsar name counted else counted

  -- The body of the loop over the peers.
  unfoldable pub observe_peer : Text → Info → PeerState → PeerState
  observe_peer name info s =
      if not (has_ip info) || same (ip_of info) config.local_ip
      then s
      else if w.probe (ip_of info)
      then on_reachable name (ip_of info) s
      else on_unreachable name (ip_of info) s

  unfoldable pub observe_peers : Dict Info → PeerState → PeerState
  observe_peers [] s = s
  observe_peers ((name, info) ∷ peers) s = observe_peers peers (observe_peer name info s)

-- `_tick`
unfoldable pub peer_tick : DaemonConfig → World → PeerState → PeerState
unfolding observe_peers
peer_tick config w s = observe_peers config w w.peers s

unfoldable pub peer_run : DaemonConfig → List World → PeerState → PeerState
unfolding peer_tick
peer_run config [] s = s
peer_run config (w ∷ ws) s = peer_run config ws (peer_tick config w s)
