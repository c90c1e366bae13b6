-- ===== src/RemoveNode/Waits.antt =====
-- daemon/handlers.py and daemon/workers/remove_node.py: the waits against a deadline end.
use milvus_onprem.Base.{ℕ, ◌+◌, ◌*◌, ◌≤◌, Text, Dict, List, [], ◌∷◌, ◌≢◌, arith}
use milvus_onprem.Host.{Host, HostLaws}
use milvus_onprem.Host.Waiting.{out_of_fuel, wait_until-ends}
use milvus_onprem.Config.{DaemonConfig}
use milvus_onprem.Handlers.Minio.{inspect_minio, wait_minio_healthy}
use milvus_onprem.RemoveNode.Settling.{
  settle_round, settle_step, wait_minio_settled, no_streaks, streak_round, streak_step,
  wait_milvus_proxy_settled,
}

le_trans : (l m n : ℕ) → l ≤ m → m ≤ n → l ≤ n
le_trans l m n h k = omega (arith, h, k)

module _ (host : Host) (laws : HostLaws host) (config : DaemonConfig) where
  open host.etcd use {State}

  inspect-later :
      (u : Unit {0}) (s : State) → host.time s ≤ host.time (inspect_minio host config u s).1
  unfolding inspect_minio
  inspect-later u s = laws.run_later _ s

  settle-later :
      (pairs : List (Text × Text)) (s : State)
      → host.time s ≤ host.time (settle_round host config pairs s).1
  unfolding settle_round
  settle-later [] s = omega arith
  settle-later ((name, ip) ∷ pairs) s = le_trans _ _ _ (laws.get_later _ _ s) (settle-later pairs _)

  streak-later :
      (port : ℕ) (streaks : Dict ℕ) (s : State)
      → host.time s ≤ host.time (streak_round host config port streaks s).1
  unfolding streak_round
  streak-later port [] s = omega arith
  streak-later port ((ip, n) ∷ streaks) s =
      le_trans _ _ _ (laws.probe_later _ _ s) (streak-later port streaks _)

  -- Time goes on, so that the waits for MinIO's health, for the survivors' daemons and for their proxies
  -- all return or meet their deadlines, whatever the commands, requests and probes find.
  pub waits-end :
      (timeout_s port : ℕ) (survivors : List (Text × Text)) (s : State)
      → ((wait_minio_healthy host config timeout_s s).0 ≢ out_of_fuel)
        × (((wait_minio_settled host config survivors s).0 ≢ out_of_fuel)
            × ((wait_milvus_proxy_settled host config port survivors s).0 ≢ out_of_fuel))
  unfolding wait_minio_healthy wait_minio_settled wait_milvus_proxy_settled
  waits-end timeout_s port survivors s = (
    wait_until-ends host (Unit {0}) (host.time s + timeout_s * 1000) 2000 laws timeout_s
        (inspect_minio host config) tt s inspect-later (omega arith),
    (
      wait_until-ends host (List (Text × Text)) (host.time s + 180_000) 3000 laws 60
          (settle_step host config) survivors s settle-later (omega arith),
      wait_until-ends host (Dict ℕ) (host.time s + 60_000) 2000 laws 30
          (streak_step host config port) (no_streaks [] survivors) s (streak-later port)
          (omega arith),
    ),
  )
