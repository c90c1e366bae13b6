-- ===== src/Api/Status.antt =====
-- daemon/api.py: the routes that show what a daemon knows.
use milvus_onprem.Base.{
  ℕ, Text, str, Dict, Bool, Option, none, some, List, [], ◌∷◌, length, sort_by, text_leb, Exec,
  pure, ◌>>=◌,
}
use milvus_onprem.Host.{Host}
use milvus_onprem.Config.{DaemonConfig}
use milvus_onprem.Topology.{Info}
use milvus_onprem.Jobs.Registry.{known_types}
use milvus_onprem.Api.Replies.{LeaderJson, Reply, answered, leader_key}
use milvus_onprem.Api.Cluster.{LeaderView, no_leader, leader_view, name_order}

-- `DAEMON_VERSION`
abbrev pub daemon_version : Text
daemon_version = str "0.1.0"

-- `version`
abbrev pub version : Reply Text
version = answered daemon_version

-- `get_peer_clock`, of the time
abbrev pub get_peer_clock : ℕ → Reply ℕ
get_peer_clock now = answered now

-- `list_job_types`
unfoldable pub list_job_types : {Worker : Type 0} → Dict Worker → Reply (List Text)
unfolding known_types
list_job_types handlers = answered (known_types handlers)

-- `get_topology`
unfoldable pub get_topology : Dict Info → Reply (ℕ × Dict Info)
get_topology peers = answered (length peers, peers)

pub record PeerStatus : Type 0 where
  pub name : Text
  pub ip : Option Text
  pub joined_at : Option ℕ
  pub role : Text

pub record Status : Type 0 where
  pub cluster_name : Text
  pub node : Text
  pub local_ip : Text
  pub is_leader : Bool
  pub leader : LeaderView
  pub peer_count : ℕ
  pub peers : List PeerStatus

unfoldable pub statuses : List (Text × Info) → List PeerStatus
statuses [] = []
statuses ((name, info) ∷ peers) =
    record {
      name = name;
      ip = info.ip;
      joined_at = info.joined_at;
      role = elim info.role [ none ↦ str "peer" | some role ↦ role ];
    }
    ∷ statuses peers

-- `leader_info`: an empty entry is none.
unfoldable pub leader_info : (Text → LeaderJson) → Option Text → LeaderView
unfolding leader_view
leader_info loads none = no_leader
leader_info loads (some []) = no_leader
leader_info loads (some (c ∷ raw)) = leader_view loads (some (c ∷ raw))

-- `get_status`
unfoldable pub get_status :
    (host : Host)
    → DaemonConfig
    → Bool
    → (Text → LeaderJson)
    → Dict Info
    → Exec host.etcd.State (Reply Status)
unfolding leader_info statuses sort_by text_leb
get_status host config is_leader loads peers = do
  leader_info_raw ← host.etcd.get leader_key
  pure (
      answered (record {
        cluster_name = config.cluster_name;
        node = config.node_name;
        local_ip = config.local_ip;
        is_leader = is_leader;
        leader = leader_info loads leader_info_raw;
        peer_count = length peers;
        peers = statuses (sort_by name_order peers);
      }))
