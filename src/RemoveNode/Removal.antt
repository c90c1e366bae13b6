-- ===== src/RemoveNode/Removal.antt =====
-- daemon/workers/remove_node.py: the whole of `run_remove_node`. cluster.env is read as it stands when
-- the job begins.
use milvus_onprem.Base.{
  ℕ, Text, Option, none, some, List, [], ◌∷◌, Exec, runtime_error, pure, raise, try_else, ◌>>=◌,
  ◌>>◌,
}
use milvus_onprem.Host.{Host, call}
use milvus_onprem.Config.{DaemonConfig}
use milvus_onprem.Topology.{topology_prefix, topology_key, decode_entries}
use milvus_onprem.RemoveNode.Decommission.{PoolState, Parsed}
use milvus_onprem.RemoveNode.Guards.{RemoveContext, check_removal, find_etcd_member_id_by_peer_url}
use milvus_onprem.RemoveNode.Polling.{start_decommission, wait_decommissioned}
use milvus_onprem.RemoveNode.Settling.{surviving, wait_minio_settled, wait_milvus_proxy_settled}

-- The rounds of the poll: every 5 seconds, up to 1800.
abbrev pub poll_rounds : ℕ
poll_rounds = 361

module _ (host : Host) (ctx : RemoveContext) (config : DaemonConfig) (loads : Text → Parsed)
    (port : ℕ) where
  open host.etcd use {State}

  unfoldable pub remove_by_id : Option ℕ → Exec State (Unit {0})
  remove_by_id none = pure tt
  remove_by_id (some id) =
      try_else (host.etcd.member_remove id) (λ _. pure tt) (λ _. raise runtime_error)

  -- Step 5.
  unfoldable pub remove_member : Text → Exec State (Unit {0})
  unfolding find_etcd_member_id_by_peer_url remove_by_id
  remove_member ip = do
    member_id ← find_etcd_member_id_by_peer_url host.etcd ctx ip
    remove_by_id member_id

  -- The wait of step 4, with the read of the survivors.
  unfoldable pub settle_minio : Text → Exec State (Unit {0})
  unfolding surviving decode_entries wait_minio_settled
  settle_minio ip = do
    raw ← host.etcd.get_prefix topology_prefix
    call (wait_minio_settled host config (surviving ip (decode_entries ctx.loads raw)))
    pure tt

  unfoldable pub settle_survivors : List (Text × Text) → Exec State (Unit {0})
  unfolding wait_milvus_proxy_settled
  settle_survivors [] = pure tt
  settle_survivors (pair ∷ pairs) = do
    call (wait_milvus_proxy_settled host config port (pair ∷ pairs))
    pure tt

  -- Step 6.
  unfoldable pub settle_proxies : Text → Exec State (Unit {0})
  unfolding surviving decode_entries settle_survivors
  settle_proxies ip = do
    raw ← host.etcd.get_prefix topology_prefix
    settle_survivors (surviving ip (decode_entries ctx.loads raw))

  -- What follows the delete of the topology entry.
  unfoldable pub after_delete : Text → Exec State (Unit {0})
  unfolding settle_minio remove_member settle_proxies
  after_delete ip = do settle_minio ip; remove_member ip; settle_proxies ip

  -- What follows the poll.
  unfoldable pub delete_entry : Text → Text → Option PoolState → Exec State (Unit {0})
  unfolding topology_key after_delete
  delete_entry ip name none = raise runtime_error
  delete_entry ip name (some state) = do host.etcd.delete (topology_key name); after_delete ip

  unfoldable pub drain : Text → Exec State (Option PoolState)
  unfolding start_decommission wait_decommissioned
  drain ip = do
    start_decommission host ctx.env_files loads ip
    wait_decommissioned host ctx.env_files loads ip poll_rounds 0

  -- What follows the checks.
  unfoldable pub drain_and_remove : Text → Text → Exec State (Unit {0})
  unfolding drain delete_entry
  drain_and_remove ip name = do state ← drain ip; delete_entry ip name state

  -- `run_remove_node`
  unfoldable pub run_remove_node : Text → Exec State (Unit {0})
  unfolding check_removal drain_and_remove
  run_remove_node ip = do name ← check_removal host.etcd ctx ip; drain_and_remove ip name
