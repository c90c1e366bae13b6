-- ===== src/Joining/Admission.antt =====
-- daemon/joining.py: how the admission of a new peer, steps 1 to 3 of `_do_join`, may end.
use milvus_onprem.Base.{
  Text, Dict, Bool, Option, none, ◌≡◌, ◌≢◌, ◌⊎◌, Result, ok, err, Error, join_error,
}
use milvus_onprem.Etcd.{Etcd, EtcdLaws}
use milvus_onprem.Topology.{topology_key, Info}
use milvus_onprem.Joining.Join.{JoinResult, JoinContext, cluster_env_for, peer_url}
use milvus_onprem.Joining.JoinSafety.{entry_value, after_put, after_add}

module _ (etcd : Etcd) (laws : EtcdLaws etcd) (ctx : JoinContext) where
  open etcd use {State, find}

  -- The steps of an admission, each in the state that the ones before it leave.
  module _ (parsed : Dict Info) (name ip : Text) (host : Option Text) (s : State) where
    abbrev put_step : Result Bool
    put_step = (etcd.put_if_absent (topology_key name) (entry_value etcd laws ctx name ip host) s).0

    abbrev env_step : Result JoinResult × State
    env_step = cluster_env_for etcd ctx parsed name ip (after_put etcd laws ctx name ip host s)

    abbrev add_step : Result (Unit {0})
    add_step = (etcd.member_add (peer_url etcd ctx ip) env_step.1).0

    abbrev delete_step : Result (Unit {0})
    delete_step =
        (etcd.delete (topology_key name) (after_add etcd laws ctx parsed name ip host s)).0

    -- How an admission may end.
    abbrev pub Admitted : Result JoinResult × State → Type 0
    Admitted p =
        ((made : JoinResult) × ((p.0 ≡ ok made)
            × ((add_step ≡ ok tt) × (find p.1 (topology_key name) ≢ none))))
        ⊎ (((p.0 ≡ err join_error) × (find p.1 (topology_key name) ≡ none))
            ⊎ (((p.0 ≡ err join_error) × ((x : Error) × (delete_step ≡ err x)))
                ⊎ ((x : Error) × ((p.0 ≡ err x) × ((put_step ≡ err x) ⊎ (env_step.0 ≡ err x))))))
