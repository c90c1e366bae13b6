-- ===== src/RemoveNode/Guards.antt =====
-- daemon/workers/remove_node.py: the checks before a peer is removed.
use milvus_onprem.Base.{
  lower, ℕ, Text, str, strip, lstrip, split_on, same, decimal, member, Bool, false, not, ◌&&◌, ◌||◌,
  Option, none, some, List, [], ◌∷◌, ◌++◌, length, leb, ◌==◌, if◌then◌else◌, Exec, value_error,
  permission_error, pure, raise_if, or_raise, ◌>>=◌, ◌>>◌,
}
use milvus_onprem.Etcd.{Etcd, Member}
use milvus_onprem.Topology.{topology_prefix, Info, decode_entries, find_node_name_by_ip}
use milvus_onprem.Joining.Settings.{read_cluster_env_value}

abbrev pub is_2_5 : List Text → Bool
is_2_5 (major ∷ minor ∷ _) = same major (str "2") && same minor (str "5")
is_2_5 _ = false

-- `_is_pulsar_deploy`
unfoldable pub is_pulsar_deploy : List (Option Text) → Bool
unfolding lower strip lstrip split_on same read_cluster_env_value
is_pulsar_deploy files =
    let tag = lstrip (λ c. c == b'v') (read_cluster_env_value files (str "MILVUS_IMAGE_TAG") []) in
    elim (lower (strip (read_cluster_env_value files (str "MQ_TYPE") []))) [
      | [] ↦ is_2_5 (split_on b'.' tag)
      | c ∷ explicit ↦ same (c ∷ explicit) (str "pulsar")
    ]

-- The part of the leader's entry that is read.
pub record LeaderInfo : Type 0 where
  pub ip : Option Text
  pub node_name : Option Text

abbrev pub is_text : Text → Option Text → Bool
is_text t none = false
is_text t (some u) = same u t

-- The leader's entry names the target: an entry that is empty or no JSON names nobody.
unfoldable pub names_target : (Text → Option LeaderInfo) → Text → Text → Option Text → Bool
unfolding same
names_target loads_leader ip name none = false
names_target loads_leader ip name (some []) = false
names_target loads_leader ip name (some (c ∷ raw)) = elim (loads_leader (c ∷ raw)) [
  | none ↦ false
  | some info ↦ is_text ip info.ip || is_text name info.node_name
]

-- `f"http://{ip}:{peer_port}"` among a member's peer URLs.
unfoldable pub find_member_id : List Member → Text → Option ℕ
unfolding member
find_member_id [] needle = none
find_member_id (m ∷ members) needle =
    let rest = find_member_id members needle in
    if member needle m.peer_urls then some m.id else rest

-- What the checks read beside etcd.
pub record RemoveContext : Type 0 where
  pub loads : Text → Option Info
  pub loads_leader : Text → Option LeaderInfo
  pub env_files : List (Option Text)
  pub is_leader : Bool
  pub peer_port : ℕ

module _ (etcd : Etcd) (ctx : RemoveContext) where
  open etcd use {State}

  -- `target_name == pulsar_host` in a deploy with Pulsar.
  unfoldable pub hosts_pulsar : Text → Bool
  unfolding is_pulsar_deploy read_cluster_env_value same
  hosts_pulsar name =
      is_pulsar_deploy ctx.env_files
      && same name (read_cluster_env_value ctx.env_files (str "PULSAR_HOST") (str "node-1"))

  -- `run_remove_node`, up to the first line that does something: the name of the peer. The
  -- address is empty where the parameter is missing.
  unfoldable pub check_removal : Text → Exec State Text
  unfolding same find_node_name_by_ip decode_entries hosts_pulsar names_target
  check_removal ip = do
    raise_if (same ip []) value_error
    raw ← etcd.get_prefix topology_prefix
    let peers = decode_entries ctx.loads raw
    name ← or_raise (find_node_name_by_ip peers ip) value_error
    raise_if (leb (length peers) 1) value_error
    raise_if (not ctx.is_leader) permission_error
    raise_if (hosts_pulsar name) permission_error
    leader_info_raw ← etcd.get (str "/cluster/leader")
    raise_if (names_target ctx.loads_leader ip name leader_info_raw) permission_error
    pure name

  -- `_find_etcd_member_id_by_peer_url`
  unfoldable pub find_etcd_member_id_by_peer_url : Text → Exec State (Option ℕ)
  unfolding find_member_id decimal
  find_etcd_member_id_by_peer_url ip = do
    members ← etcd.member_list
    pure (find_member_id members (str "http://" ++ (ip ++ (b':' ∷ decimal ctx.peer_port))))
