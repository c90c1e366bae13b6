-- ===== src/Joining/JoinSafety.antt =====
-- daemon/joining.py: what a join does to the keys and the members that etcd holds.
use milvus_onprem.Base.{
  ℕ, zero, suc, Text, Dict, lookup, true, Option, none, some, ◌≡◌, ◌≢◌, refl, ap, ◌∙◌, arith,
  starts_with-append, ok,
}
use milvus_onprem.Etcd.{Etcd, EtcdLaws}
use milvus_onprem.Topology.{
  topology_prefix, topology_key, Info, ip_is, find_node_name_by_ip, decode_entries,
}
use milvus_onprem.Topology.Decoding.{
  AllUnder, AllUnder-of_lookup, decoded, lookup-decode_entries, find_node_name_by_ip-some,
}
use milvus_onprem.Joining.Join.{
  JoinResult, JoinContext, wait_cluster_healthy, cluster_env_for, new_info, peer_url, roll_back,
  admit,
}

-- Some key of the topology decodes to an entry with the address.
pub record IsRegistered (etcd : Etcd) (loads : Text → Option Info) (ip : Text) (s : etcd.State)
    : Type 0 where
  pub name : Text
  pub info : Info
  pub value : Text
  pub found : etcd.find s (topology_key name) ≡ some value
  pub decodes : loads value ≡ some info
  pub address : ip_is ip info ≡ true

module _ (etcd : Etcd) (laws : EtcdLaws etcd) (ctx : JoinContext) where
  open etcd use {State, find, members}

  pub wait-find :
      (n : ℕ) (j : Text) (s : State) → find (wait_cluster_healthy etcd ctx n s).1 j ≡ find s j
  unfolding wait_cluster_healthy
  wait-find zero j s = refl
  wait-find (suc n) j s =
      ground (arith, laws.member_list_keeps j s, wait-find n j (etcd.member_list s).1)

  pub wait-members : (n : ℕ) (s : State) → members (wait_cluster_healthy etcd ctx n s).1 ≡ members s
  unfolding wait_cluster_healthy
  wait-members zero s = refl
  wait-members (suc n) s =
      ground (arith, laws.member_list_members s, wait-members n (etcd.member_list s).1)

  -- The text of cluster.env is made without a call of etcd.
  pub cluster_env_for-state :
      (peers : Dict Info) (name ip : Text) (s : State)
      → (cluster_env_for etcd ctx peers name ip s).1 ≡ s
  unfolding cluster_env_for
  cluster_env_for-state peers name ip s = ground arith

  pub cluster_env_for-name :
      (peers : Dict Info) (name ip : Text) (s : State) {r : JoinResult}
      → (cluster_env_for etcd ctx peers name ip s).0 ≡ ok r
      → (r.node_name ≡ name) × (r.local_ip ≡ ip)
  unfolding cluster_env_for
  cluster_env_for-name peers name ip s h = ground arith

  pub roll_back-other :
      (name j : Text) (s : State)
      → j ≢ topology_key name
      → find (roll_back etcd ctx name s).1 j ≡ find s j
  unfolding roll_back
  roll_back-other name j s ne = ground (arith, laws.delete_other (topology_key name) j s ne)

  -- The value that a join writes for a new peer, and the states between its calls.
  abbrev pub entry_value : Text → Text → Option Text → Text
  entry_value name ip host = ctx.dumps name (new_info etcd ctx ip host)

  abbrev pub after_put : Text → Text → Option Text → State → State
  after_put name ip host s = (etcd.put_if_absent (topology_key name) (entry_value name ip host) s).1

  abbrev pub after_add : Dict Info → Text → Text → Option Text → State → State
  after_add parsed name ip host s =
      (etcd.member_add (peer_url etcd ctx ip)
        (cluster_env_for etcd ctx parsed name ip (after_put name ip host s)).1).1

  pub admit-other :
      (parsed : Dict Info) (name ip : Text) (host : Option Text) (j : Text) (s : State)
      → j ≢ topology_key name
      → find (admit etcd ctx parsed name ip host s).1 j ≡ find s j
  unfolding admit
  admit-other parsed name ip host j s ne = ground (
    arith,
    laws.put_if_absent_other (topology_key name) (entry_value name ip host) j s ne,
    ap (λ t. find t j) (cluster_env_for-state parsed name ip (after_put name ip host s)),
    laws.member_add_keeps (peer_url etcd ctx ip) j
        (cluster_env_for etcd ctx parsed name ip (after_put name ip host s)).1,
    roll_back-other name j (after_add parsed name ip host s) ne,
  )

  -- Under a decoded name stands what etcd holds at its key.
  pub scan_lookup :
      (s : State) {d : Dict Text}
      → (etcd.get_prefix topology_prefix s).0 ≡ ok d
      → (n : Text)
      → lookup n (decode_entries ctx.loads d) ≡ decoded ctx.loads (find s (topology_key n)) none
  scan_lookup s {d} h n =
      let (good, at) = laws.get_prefix_ok topology_prefix s h in
      let under : AllUnder topology_prefix d =
        AllUnder-of_lookup topology_prefix d (λ k e. ground (arith, at k)) in
      lookup-decode_entries ctx.loads n d good under
      ∙ ap (λ o. decoded ctx.loads o none)
          (at (topology_key n) ∙ (unfold topology_key in rw (starts_with-append topology_prefix n)))

  pub registered_found :
      (ip : Text) (s : State) {d : Dict Text}
      → (etcd.get_prefix topology_prefix s).0 ≡ ok d
      → IsRegistered etcd ctx.loads ip s
      → (m : Text) × (find_node_name_by_ip (decode_entries ctx.loads d) ip ≡ some m)
  registered_found ip s {d} h reg =
      find_node_name_by_ip-some reg.name ip {info = reg.info} (decode_entries ctx.loads d)
        (scan_lookup s h reg.name
          ∙ ap (λ o. decoded ctx.loads o none) reg.found
          ∙ ground (arith, reg.decodes))
        reg.address
