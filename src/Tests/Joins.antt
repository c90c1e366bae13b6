-- ===== src/Tests/Joins.antt =====
-- Joins: the theorems on daemon/joining.py at concrete inputs.
use milvus_onprem.Base.{
  ℕ, ◌≤◌, ◌<◌, Text, str, Dict, lookup, same, member, is_line, IsLine-of_is_line, join, true,
  Option, none, some, List, [], ◌∷◌, if◌then◌else◌, ok, err, join_error, ◌≡◌, refl, ◌⊎◌, ◌↔◌, Elem,
  IsOrdered, lstrip, rstrip, unquote, is_break, is_space, strip_by, has_char,
}
use milvus_onprem.Tests.Memory.{Content, scan, memory, memory-EtcdLaws}
use milvus_onprem.Topology.{topology_key, Info, decode_entries, find_node_name_by_ip}
use milvus_onprem.Joining.Names.{node_suffix, node_name, allocate_next_name}
use milvus_onprem.Joining.Allocation.{allocate_next_name-least}
use milvus_onprem.Joining.Peers.{pair_leb, ordered_peer_names_and_ips_after_join}
use milvus_onprem.Joining.PeerOrder.{address_or, peer_order_correct}
use milvus_onprem.Joining.Env.{
  build_joiner_cluster_env, read_cluster_env, comma, newline, joiner_lines,
}
use milvus_onprem.Joining.EnvReading.{IsKey}
use milvus_onprem.Joining.EnvRoundtrip.{IsJoiner, expected, joiner_env-roundtrip}
use milvus_onprem.Joining.Join.{JoinContext, all_started, wait_cluster_healthy, new_info, do_join}
use milvus_onprem.Joining.JoinSafety.{IsRegistered}
use milvus_onprem.Joining.JoinEffects.{registered-do_join, do_join-one_key, unreadable_env_strands}

abbrev names : List Text
names = str "node-1" ∷ str "node-3" ∷ []

allocate_next_name-least_example :
    (m : ℕ) × (allocate_next_name names ≡ node_name m)
    × (1 ≤ m)
    × ((name : Text) → node_suffix name ≡ some m → ¬ Elem name names)
    × ((k : ℕ) → 1 ≤ k → k < m → (name : Text) × Elem name names × (node_suffix name ≡ some k))
allocate_next_name-least_example = allocate_next_name-least names

abbrev info : Info
info = record { ip = some (str "10.0.0.2"); hostname = none; joined_at = none; role = none }

abbrev topology : Dict Info
topology = (str "node-2", info) ∷ []

peer_order_example :
    IsOrdered pair_leb
      (ordered_peer_names_and_ips_after_join topology (str "node-3") (str "10.0.0.3"))
    × ((n x : Text)
        → Elem
            (n, x)
            (ordered_peer_names_and_ips_after_join topology (str "node-3") (str "10.0.0.3"))
          ↔ ((if same (str "node-3") n
                then some (str "10.0.0.3")
                else address_or (lookup n topology) none)
              ≡ some x))
peer_order_example =
    peer_order_correct topology (str "node-3") (str "10.0.0.3") (unfold lookup in (refl, tt))

abbrev context : Option Text → JoinContext
context env = record {
  local_ip = str "10.0.0.1";
  etcd_peer_port = 2_380;
  env_file = env;
  issued_at = str "now";
  now = 5;
  rounds = 1;
  loads = λ t. some info;
  dumps = λ name i. str "{}";
}

abbrev known : Content
known = record {
  keys = (topology_key (str "node-2"), str "{}") ∷ [];
  members = [];
  clock = 0;
  files = [];
}

known-IsRegistered : IsRegistered (memory true) (context none).loads (str "10.0.0.2") known
unfolding lookup topology_key same
known-IsRegistered = record {
  name = str "node-2";
  info = info;
  value = str "{}";
  found = refl;
  decodes = refl;
  address = refl;
}

registered-do_join_example :
    ((j : Text)
      → lookup j (do_join (memory true) (context none) (str "10.0.0.2") none known).1.keys
        ≡ lookup j known.keys)
    × ((do_join (memory true) (context none) (str "10.0.0.2") none known).1.members ≡ [])
registered-do_join_example =
    registered-do_join (memory true) (memory-EtcdLaws true) (context none) (str "10.0.0.2") none
      known known-IsRegistered

do_join-one_key_example :
    (name : Text) × ((j : Text)
      → (j ≡ topology_key name)
        ⊎ (lookup j (do_join (memory true) (context none) (str "10.0.0.9") none known).1.keys
            ≡ lookup j known.keys))
do_join-one_key_example =
    do_join-one_key (memory true) (memory-EtcdLaws true) (context none) (str "10.0.0.9") none known

abbrev nothing : Content
nothing = record { keys = []; members = []; clock = 0; files = [] }

-- The entry of 10.0.0.2 reads back.
abbrev reading : Option Text → JoinContext
reading env = record (context env) {
  loads = λ t. some (new_info (memory true) (context env) (str "10.0.0.2") none);
}

unreadable_env_example :
    ((do_join (memory true) (reading none) (str "10.0.0.2") none nothing).0 ≡ err join_error)
    × ((do_join
          (memory true)
          (reading (some []))
          (str "10.0.0.2")
          none
          (do_join (memory true) (reading none) (str "10.0.0.2") none nothing).1).1.members
        ≡ (do_join (memory true) (reading none) (str "10.0.0.2") none nothing).1.members)
unfolding wait_cluster_healthy all_started scan decode_entries find_node_name_by_ip lookup same
unreadable_env_example =
    unreadable_env_strands (memory true) (memory-EtcdLaws true) (reading none) (str "10.0.0.2") none
      nothing (reading (some [])) none (λ name. refl) refl refl refl refl refl refl

-- A leader's settings with one shared key.
abbrev leader_env : Dict Text
leader_env = (str "CLUSTER_NAME", str "demo") ∷ []

abbrev ips : List Text
ips = str "10.0.0.1" ∷ str "10.0.0.2" ∷ []

abbrev both : List Text
both = str "node-1" ∷ str "node-2" ∷ []

good : IsJoiner (str "node-2") (str "10.0.0.2") ips both (str "now") leader_env
unfolding is_line is_break lstrip rstrip is_space unquote strip_by join has_char lookup same
good = record {
  issued_line = IsLine-of_is_line (str "now") refl;
  name_value = record {
    line = IsLine-of_is_line (str "node-2") refl;
    left = refl;
    right = refl;
    bare = refl;
  };
  ip_value = record {
    line = IsLine-of_is_line (str "10.0.0.2") refl;
    left = refl;
    right = refl;
    bare = refl;
  };
  ips-IsValue = record {
    line = IsLine-of_is_line (join comma ips) refl;
    left = refl;
    right = refl;
    bare = refl;
  };
  names-IsValue = record {
    line = IsLine-of_is_line (join comma both) refl;
    left = refl;
    right = refl;
    bare = refl;
  };
  leader_dict = (refl, tt);
  leader_settings = (
    IsKey.key 67 (str "LUSTER_NAME") (IsLine-of_is_line (str "CLUSTER_NAME") refl) refl refl refl
        refl,
    record { line = IsLine-of_is_line (str "demo") refl; left = refl; right = refl; bare = refl },
    tt,
  );
}

abbrev made : Text
made = join newline (joiner_lines (str "now") leader_env (str "node-2") (str "10.0.0.2") ips both)

was_made :
    build_joiner_cluster_env (str "now") leader_env (str "node-2") (str "10.0.0.2") ips both
    ≡ ok made
unfolding build_joiner_cluster_env member same
was_made = refl

joiner_env-roundtrip_example :
    (env : Dict Text) × (read_cluster_env (some made) ≡ ok env)
    × ((k : Text) → lookup k env ≡ expected (str "node-2") (str "10.0.0.2") ips both leader_env k)
joiner_env-roundtrip_example =
    joiner_env-roundtrip (str "now") leader_env (str "node-2") (str "10.0.0.2") ips both good
      was_made
