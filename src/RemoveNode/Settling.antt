-- ===== src/RemoveNode/Settling.antt =====
-- daemon/workers/remove_node.py: the waits for the surviving peers, which go on at their deadlines.
use milvus_onprem.Base.{
  ℕ, ◌+◌, Text, str, Dict, insert, Bool, false, not, ◌&&◌, Option, none, some, List, [], ◌∷◌, ◌==◌,
  leb, same, if◌then◌else◌,
}
use milvus_onprem.Host.{Host, Response}
use milvus_onprem.Host.Waiting.{Waited, wait_until}
use milvus_onprem.Config.{DaemonConfig}
use milvus_onprem.Topology.{Info, ip_of, has_ip}
use milvus_onprem.Handlers.Dispatch.{daemon_url}

-- The loop that collects `survivors`.
unfoldable pub surviving : Text → Dict Info → List (Text × Text)
unfolding same
surviving target_ip [] = []
surviving target_ip ((name, info) ∷ peers) =
    let rest = surviving target_ip peers in
    if has_ip info && not (same (ip_of info) target_ip) then (name, ip_of info) ∷ rest else rest

abbrev pub is_200 : Option Response → Bool
is_200 none = false
is_200 (some r) = r.status_code == 200

-- What is left to wait for, or `none` to return.
abbrev pub or_return {ℓ} : {X : Type ℓ} → List X → Option (List X)
or_return [] = none
or_return (x ∷ xs) = some (x ∷ xs)

-- `{ip: 0 for ip in survivor_ips}`
unfoldable pub no_streaks : Dict ℕ → List (Text × Text) → Dict ℕ
unfolding insert
no_streaks streaks [] = streaks
no_streaks streaks ((name, ip) ∷ pairs) = no_streaks (insert ip 0 streaks) pairs

module _ (host : Host) (config : DaemonConfig) where
  open host.etcd use {State}

  -- One round over the peers that are pending, each asked for its health.
  unfoldable pub settle_round : List (Text × Text) → State → List (Text × Text) × State
  unfolding daemon_url
  settle_round [] s = ([], s)
  settle_round ((name, ip) ∷ pairs) s =
      let (reply, t) =
        host.http_get (daemon_url config ip (str "/health")) config.cluster_token s in
      let (rest, u) = settle_round pairs t in (if is_200 reply then rest else (name, ip) ∷ rest, u)

  abbrev pub settle_step : List (Text × Text) → State → Option (List (Text × Text)) × State
  settle_step pending s = let (left, t) = settle_round pending s in (or_return left, t)

  -- `_wait_minio_settled_after_remove`, from the survivors on.
  unfoldable pub wait_minio_settled :
      List (Text × Text) → State → Waited (List (Text × Text)) × State
  unfolding wait_until settle_round
  wait_minio_settled survivors s =
      wait_until host (List (Text × Text)) (host.time s + 180_000) 3000 61 settle_step survivors s

  -- One round over the streaks of successful probes, of which three settle a peer.
  unfoldable pub streak_round : ℕ → Dict ℕ → State → Dict ℕ × State
  streak_round port [] s = ([], s)
  streak_round port ((ip, n) ∷ streaks) s =
      let (ok_now, t) = host.probe ip port s in
      let (rest, u) = streak_round port streaks t in
      (if ok_now then (if leb 3 (n + 1) then rest else (ip, n + 1) ∷ rest) else (ip, 0) ∷ rest, u)

  abbrev pub streak_step : ℕ → Dict ℕ → State → Option (Dict ℕ) × State
  streak_step port pending s = let (left, t) = streak_round port pending s in (or_return left, t)

  -- `_wait_milvus_proxy_settled`
  unfoldable pub wait_milvus_proxy_settled :
      ℕ → List (Text × Text) → State → Waited (Dict ℕ) × State
  unfolding wait_until streak_round no_streaks
  wait_milvus_proxy_settled port survivors s =
      wait_until host (Dict ℕ) (host.time s + 60_000) 2000 31 (streak_step port)
        (no_streaks [] survivors) s
