-- ===== src/Tests/Cluster.antt =====
-- Cluster: the theorems on daemon/etcd_client.py, daemon/topology.py, daemon/leader.py and
-- daemon/workers/remove_node.py at concrete inputs.
use milvus_onprem.Base.{
  All, Bool, false, ◌++◌, lower, cut, strip, strip_by, lstrip, rstrip, is_space, ℕ, insert,
  remove_prefix, ◌<◌, Text, str, lookup, same, starts_with, true, Option, none, some, List, [], ◌∷◌,
  if◌then◌else◌, Result, ok, err, unavailable, ltb, ◌≡◌, refl, arith,
}
use milvus_onprem.Tests.Memory.{Content, scan, memory, memory-EtcdLaws}
use milvus_onprem.Topology.{topology_key, Info, decode_entries, find_node_name_by_ip}
use milvus_onprem.Topology.Decoding.{decoded}
use milvus_onprem.Topology.Watcher.{WatchEvent, put, delete, seed, apply_events}
use milvus_onprem.Topology.Following.{write_events, all_writes, delivered, mirror-follows}
use milvus_onprem.Auth.{passed, is_ascii, presented_token, require_token, require_token-passed}
use milvus_onprem.EtcdClient.Prefix.{prefix_end, in_range, prefix_end-range}
use milvus_onprem.EtcdClient.Post.{Reply, response, settle, post}
use milvus_onprem.EtcdClient.Retry.{is_transient, reply_at, post-first_lasting}
use milvus_onprem.Leader.Elector.{
  Elector, Call, grant, race, keepalive, follower, watch, Round, cycle, run_race, lead, step_down,
}
use milvus_onprem.Leader.Terms.{Wins, cycle-term, run_calls, step_down-abstains}
use milvus_onprem.RemoveNode.Guards.{RemoveContext, hosts_pulsar, names_target, check_removal}
use milvus_onprem.RemoveNode.Refusals.{Passes, check_removal-Passes}

prefix_end_example :
    in_range (str "/a/") (str "/a0") (str "/a/x") ≡ starts_with (str "/a/") (str "/a/x")
unfolding prefix_end
prefix_end_example = prefix_end-range b'/' (str "a/") (str "/a/x")

-- An endpoint that answers 503 to the first two requests.
abbrev busy_twice : ℕ → Text → Reply
busy_twice n url = if ltb n 2 then response 503 [] else response 200 (str "{}")

abbrev endpoints : List Text
endpoints = str "http://10.0.0.1:2379" ∷ str "http://10.0.0.2:2379" ∷ []

busy_first :
    (m : ℕ) → m < 2 → is_transient (reply_at endpoints (str "/v3/kv/put") busy_twice 0 m) ≡ true
busy_first m h = ground (arith, h)

post_example :
    post endpoints (str "/v3/kv/put") busy_twice 0
    ≡ record { result = ok (str "{}"); idx = 2; slept = 3 }
unfolding settle
post_example =
    post-first_lasting endpoints (str "/v3/kv/put") busy_twice 0 2 (omega arith) busy_first refl

abbrev info : Info
info = record { ip = some (str "10.0.0.2"); hostname = none; joined_at = none; role = none }

abbrev loads : Text → Option Info
loads t = some info

-- A delete that is missed, a later put of the same name, and writes of other names.
abbrev writes : List (Bool × WatchEvent)
writes =
    (false, record { type = delete; key = topology_key (str "node-2"); value = none })
    ∷ (true, record { type = put; key = topology_key (str "node-2"); value = some (str "{}") })
    ∷ (false, record { type = put; key = topology_key (str "node-3"); value = some (str "{}") })
    ∷ (true, record { type = delete; key = topology_key (str "node-1"); value = none })
    ∷ []

mirror_example :
    lookup (str "node-2") (apply_events loads (delivered loads writes) (seed loads [])).peers
    ≡ decoded loads
        (lookup (topology_key (str "node-2")) (write_events (all_writes loads writes) []))
        none
unfolding topology_key same
mirror_example =
    mirror-follows loads [] writes (str "node-2") tt tt ((str "{}", info, (refl, refl)), (tt, tt))
      refl

abbrev round : Round
round = record {
  now = 100;
  granted = ok 7;
  won = ok true;
  keepalives = ok 15 ∷ err unavailable ∷ [];
  current = ok tt;
}

abbrev led : Elector
led = record follower { is_leader = true; lease_id = some 7; term_started_at = some 100 }

cycle_example :
    (lease : ℕ) × (Wins round follower lease
      × ((led ≡ record follower {
        is_leader = true;
        lease_id = some lease;
        term_started_at = some 100;
      })
          × ((kept : List Call) × (((cycle round follower).calls ≡ grant ∷ race lease ∷ kept)
                × All (λ c. c ≡ keepalive lease) kept))))
unfolding cycle run_race lead
cycle_example = cycle-term round follower led refl

abbrev leading : Elector
leading = record follower { is_leader = true; lease_id = some 7; term_started_at = some 90 }

abbrev revoked : Result (Unit {0})
revoked = ok tt

-- Two rounds in the cooldown.
step_down_example :
    All
      (λ c. c ≡ watch)
      (run_calls
        (round ∷ record round { now = 109 } ∷ [])
        (record { elector = (step_down 95 15 revoked leading).1; backoff = 1; sleeps = [] }))
    × ((leading.is_leader ≡ true) × (revoked ≡ ok tt))
step_down_example =
    step_down-abstains 95 15 1 [] revoked leading (round ∷ record round { now = 109 } ∷ [])
      (unfold step_down in refl) (omega arith, (omega arith, tt))

abbrev context : RemoveContext
context = record {
  loads = λ t. some (if same t (str "2") then info else record info { ip = some (str "10.0.0.1") });
  loads_leader = λ t. some (record { ip = some (str "10.0.0.1"); node_name = some (str "node-1") });
  env_files = [];
  is_leader = true;
  peer_port = 2_380;
}

abbrev two_peers : Content
two_peers = record {
  keys =
      (str "/cluster/leader", str "{}")
      ∷ (topology_key (str "node-1"), str "1")
      ∷ (topology_key (str "node-2"), str "2")
      ∷ [];
  members = [];
  clock = 0;
  files = [];
}

check_passes :
    (check_removal (memory true) context (str "10.0.0.2") two_peers).0 ≡ ok (str "node-2")
unfolding check_removal scan topology_key insert find_node_name_by_ip decode_entries remove_prefix
    starts_with hosts_pulsar names_target lookup same
check_passes = refl

check_removal-Passes_example :
    Passes (memory true) (memory-EtcdLaws true) context (str "10.0.0.2") (str "node-2") two_peers
check_removal-Passes_example =
    check_removal-Passes (memory true) (memory-EtcdLaws true) context (str "10.0.0.2")
      (str "node-2") two_peers check_passes

abbrev header : Text
header = str "Bearer secret"

accepted : require_token (some header) (str "secret") ≡ passed
unfolding require_token presented_token starts_with lower cut strip strip_by lstrip rstrip is_space
    is_ascii same
accepted = refl

require_token-passed_example :
    (scheme : Text) × ((rest : Text) × ((some header ≡ some (scheme ++ (b' ' ∷ rest)))
        × ((lower scheme ≡ str "bearer") × (strip rest ≡ str "secret"))))
require_token-passed_example = require_token-passed (some header) (str "secret") accepted
