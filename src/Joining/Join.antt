-- ===== src/Joining/Join.antt =====
-- daemon/joining.py: `handle_join` on the leader.
use milvus_onprem.Base.{
  ℕ, zero, suc, Text, str, Dict, erase, keys, Bool, true, false, Option, none, some, List, [], ◌∷◌,
  ◌++◌, decimal, if◌then◌else◌, not, Exec, ok, err, join_error, pure, raise, lift, raise_if, ◌>>=◌,
  ◌>>◌, try_else,
}
use milvus_onprem.Etcd.{Etcd, Member}
use milvus_onprem.Topology.{
  topology_prefix, topology_key, Info, find_node_name_by_ip, decode_entries,
}
use milvus_onprem.Joining.Names.{allocate_next_name, is_valid_ipv4}
use milvus_onprem.Joining.Peers.{ordered_peer_names_and_ips_after_join, names_of, ips_of}
use milvus_onprem.Joining.Env.{read_cluster_env, build_joiner_cluster_env}

pub record JoinResult : Type 0 where
  pub node_name : Text
  pub local_ip : Text
  pub cluster_env : Text
  pub leader_ip : Text

-- What a join reads beside etcd: the leader's settings and clocks, its cluster.env, the rounds of
-- `_wait_cluster_healthy` that fit before its deadline (one each 2 s at least, so 90 at most), and the
-- JSON library.
pub record JoinContext : Type 0 where
  pub local_ip : Text
  pub etcd_peer_port : ℕ
  pub env_file : Option Text
  pub issued_at : Text
  pub now : ℕ
  pub rounds : ℕ
  pub loads : Text → Option Info
  pub dumps : Text → Info → Text

-- `[m for m in members if not m.get("name")]` is empty.
unfoldable pub all_started : List Member → Bool
all_started [] = true
all_started (m ∷ members) = elim m.name [ [] ↦ false | _ ↦ all_started members ]

module _ (etcd : Etcd) (ctx : JoinContext) where
  open etcd use {State}

  -- `_wait_cluster_healthy`: a raise of `member_list` is a round that is lost.
  unfoldable pub wait_cluster_healthy : ℕ → Exec State (Unit {0})
  wait_cluster_healthy zero s = (err join_error, s)
  wait_cluster_healthy (suc rounds) s =
      let (r, t) = etcd.member_list s in
      let again = wait_cluster_healthy rounds t in
      elim r [ ok members ↦ if all_started members then (ok tt, t) else again | err _ ↦ again ]

  -- The cluster.env for a name and an address among the peers.
  unfoldable pub cluster_env_for : Dict Info → Text → Text → Exec State JoinResult
  cluster_env_for peers name joiner_ip = do
    leader_env ← lift (read_cluster_env ctx.env_file)
    let pairs = ordered_peer_names_and_ips_after_join peers name joiner_ip
    text ← lift (
        build_joiner_cluster_env ctx.issued_at leader_env name joiner_ip (ips_of pairs)
          (names_of pairs))
    pure (record {
      node_name = name;
      local_ip = joiner_ip;
      cluster_env = text;
      leader_ip = ctx.local_ip;
    })

  -- The value that is written for a new peer.
  abbrev pub new_info : Text → Option Text → Info
  new_info joiner_ip hostname = record {
    ip = some joiner_ip;
    hostname = hostname;
    joined_at = some ctx.now;
    role = some (str "peer");
  }

  abbrev pub peer_url : Text → Text
  peer_url joiner_ip = str "http://" ++ (joiner_ip ++ (b':' ∷ decimal ctx.etcd_peer_port))

  -- The `except` branch of the member-add: the delete of the topology entry may fail too.
  unfoldable pub roll_back : Text → Exec State JoinResult
  roll_back name =
      try_else (etcd.delete (topology_key name)) (λ _. raise join_error) (λ _. raise join_error)

  -- Steps 1 to 3 for a new name. Whether the topology entry was written is only logged.
  unfoldable pub admit : Dict Info → Text → Text → Option Text → Exec State JoinResult
  admit parsed name joiner_ip hostname = do
    etcd.put_if_absent (topology_key name) (ctx.dumps name (new_info joiner_ip hostname))
    result ← cluster_env_for parsed name joiner_ip
    try_else (etcd.member_add (peer_url joiner_ip)) (λ _. pure result) (λ _. roll_back name)

  -- What follows the read of the topology: a known address gets its name again.
  unfoldable pub join_parsed : Dict Info → Text → Option Text → Exec State JoinResult
  join_parsed parsed joiner_ip hostname = elim (find_node_name_by_ip parsed joiner_ip) [
    | some name ↦ cluster_env_for (erase name parsed) name joiner_ip
    | none ↦ admit parsed (allocate_next_name (keys parsed)) joiner_ip hostname
  ]

  -- `_do_join`
  unfoldable pub do_join : Text → Option Text → Exec State JoinResult
  do_join joiner_ip hostname = do
    wait_cluster_healthy ctx.rounds
    existing ← etcd.get_prefix topology_prefix
    join_parsed (decode_entries ctx.loads existing) joiner_ip hostname

  -- `handle_join`; the lock makes one call run after the other.
  unfoldable pub handle_join : Text → Option Text → Exec State JoinResult
  handle_join joiner_ip hostname = do
    raise_if (not (is_valid_ipv4 joiner_ip)) join_error
    do_join joiner_ip hostname
