-- ===== src/Tests/Handlers.antt =====
-- Handlers: the theorems on daemon/handlers.py, daemon/api.py and daemon/main.py at concrete inputs.
use milvus_onprem.Base.{
  Text, str, Dict, lookup, same, true, false, none, some, List, [], ◌∷◌, ◌≡◌, refl, inl, arith,
  AllLines, IsLine-of_is_line, is_line, is_break, is_space, lstrip, rstrip, strip_by, unquote, join,
  ◌↔◌, IsOrdered, Elem,
}
use milvus_onprem.Host.Shell.{cluster_env_path}
use milvus_onprem.Config.{DaemonConfig, default_config}
use milvus_onprem.Topology.{Info}
use milvus_onprem.Topology.Watcher.{added}
use milvus_onprem.Joining.Env.{comma, parse_line}
use milvus_onprem.Joining.EnvReading.{IsValue}
use milvus_onprem.Joining.Peers.{pair_leb, ips_of, names_of}
use milvus_onprem.Joining.Settings.{read_cluster_env_value}
use milvus_onprem.Handlers.EnvLines.{unlines}
use milvus_onprem.Handlers.EnvUpsert.{Opens}
use milvus_onprem.Handlers.EnvPeers.{edited, write_peers-read}
use milvus_onprem.Handlers.Render.{write_peers}
use milvus_onprem.Handlers.Peers.{followers}
use milvus_onprem.Handlers.PeerLists.{other_address, followers_correct}
use milvus_onprem.Handlers.Dispatch.{Handlers, dispatch}
use milvus_onprem.Handlers.Effects.{dispatch-Preserves}
use milvus_onprem.Api.Replies.{answered}
use milvus_onprem.Api.Internal.{get_admin_pulsar_host, post_admin_sync_pulsar_host}
use milvus_onprem.Api.Reading.{sync-get}
use milvus_onprem.Main.Startup.{register_all}
use milvus_onprem.Main.Registered.{register_all-keeps}
use milvus_onprem.Tests.Memory.{Content, memory-EtcdLaws}
use milvus_onprem.Tests.Machine.{machine, machine-HostLaws, quiet, silent}

abbrev pub config : DaemonConfig
config = default_config (str "c") (str "node-1") (str "10.0.0.1") (str "secret") []

abbrev pub info_at : Text → Info
info_at ip = record { ip = some ip; hostname = none; joined_at = none; role = none }

abbrev pub peers : Dict Info
peers = (str "node-2", info_at (str "10.0.0.2")) ∷ (str "node-1", info_at (str "10.0.0.1")) ∷ []

abbrev pairs : List (Text × Text)
pairs = (str "node-1", str "10.0.0.1") ∷ (str "node-2", str "10.0.0.2") ∷ []

abbrev lines : List Text
lines = str "# peers" ∷ []

abbrev machine_state : Content
machine_state = record {
  keys = (str "k", str "v") ∷ [];
  members = [];
  clock = 0;
  files = (cluster_env_path, unlines lines) ∷ [];
}

ips-IsValue : IsValue (join comma (ips_of pairs))
unfolding join is_line is_break is_space lstrip rstrip unquote strip_by
ips-IsValue = record {
  line = IsLine-of_is_line (str "10.0.0.1,10.0.0.2") refl;
  left = refl;
  right = refl;
  bare = refl;
}

names-IsValue : IsValue (join comma (names_of pairs))
unfolding join is_line is_break is_space lstrip rstrip unquote strip_by
names-IsValue = record {
  line = IsLine-of_is_line (str "node-1,node-2") refl;
  left = refl;
  right = refl;
  bare = refl;
}

lines_all : AllLines lines
unfolding is_line
lines_all = (IsLine-of_is_line (str "# peers") refl, tt)

comment : parse_line (str "# peers") ≡ none
unfolding parse_line
comment = refl

opens : (k : Text) → Opens k lines
opens k = ((λ w h. absurd (ground (arith, h, comment))), tt)

write_peers-read_example :
    (text : Text) × ((lookup cluster_env_path
          (write_peers (machine quiet silent) config pairs machine_state).1.files
        ≡ some text)
      × ((j d : Text)
          → read_cluster_env_value (some text ∷ []) j d
            ≡ edited
                (machine quiet silent)
                (machine-HostLaws quiet silent)
                config
                pairs
                j
                (read_cluster_env_value (some (unlines lines) ∷ []) j d)))
unfolding lookup same
write_peers-read_example =
    write_peers-read (machine quiet silent) (machine-HostLaws quiet silent) config pairs lines
      machine_state ips-IsValue names-IsValue lines_all (opens (str "PEER_IPS"))
      (opens (str "PEER_NAMES")) refl

followers_example :
    IsOrdered pair_leb (followers peers (str "10.0.0.1"))
    × ((n x : Text)
        → Elem (n, x) (followers peers (str "10.0.0.1"))
          ↔ (other_address (str "10.0.0.1") (lookup n peers) ≡ some x))
followers_example = followers_correct peers (str "10.0.0.1")

abbrev handlers : Handlers
handlers = record {
  config = config;
  peers = peers;
  is_leader = false;
  loads = λ t. none;
  gathered = λ pairs. pairs;
}

abbrev KeepsKey : Content → Type 0
KeepsKey s = lookup (str "k") s.keys ≡ some (str "v")

dispatch_example : KeepsKey (dispatch (machine quiet silent) handlers added machine_state).1
unfolding lookup same
dispatch_example =
    dispatch-Preserves (machine quiet silent) KeepsKey (λ c s h. h) (λ p v s h. h) handlers added
      machine_state (inl refl) refl

host-IsValue : IsValue (str "node-2")
unfolding is_line is_break is_space lstrip rstrip unquote strip_by
host-IsValue = record {
  line = IsLine-of_is_line (str "node-2") refl;
  left = refl;
  right = refl;
  bare = refl;
}

sync-get_example :
    get_admin_pulsar_host
      (machine quiet silent)
      config
      (post_admin_sync_pulsar_host (machine quiet silent) config (str "node-2") machine_state).1
    ≡ answered (str "node-2")
unfolding lookup same
sync-get_example =
    sync-get (machine quiet silent) (machine-HostLaws quiet silent) (λ c s. refl) config
      (str "node-2") lines machine_state host-IsValue lines_all (opens (str "PULSAR_HOST")) refl

register_all_example :
    lookup
      (str "k")
      (register_all (machine quiet silent) config (λ name info. str "{}") 7 machine_state).1.keys
    ≡ some (str "v")
unfolding lookup same
register_all_example =
    register_all-keeps (machine quiet silent) (memory-EtcdLaws true) config (λ name info. str "{}")
      7 (str "k") (str "v") machine_state refl
