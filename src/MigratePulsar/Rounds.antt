-- ===== src/MigratePulsar/Rounds.antt =====
-- daemon/workers/migrate_pulsar.py: the requests to the peers. What runs in one `asyncio.gather` is taken
-- one after the other.
use milvus_onprem.Base.{
  Text, str, Dict, Bool, true, false, not, ◌&&◌, Option, none, some, List, [], ◌∷◌, ◌++◌, ◌==◌, leb,
  same, cut, if◌then◌else◌, Exec, runtime_error, pure, raise, ◌>>=◌, ◌>>◌,
}
use milvus_onprem.Host.{Host, Response, call}
use milvus_onprem.Config.{DaemonConfig}
use milvus_onprem.Topology.{Info, ip_of, has_ip}
use milvus_onprem.Handlers.Dispatch.{daemon_url}
use milvus_onprem.RemoveNode.Settling.{is_200}

-- `f"{name}@{ip}"`
unfoldable pub label : Text → Text → Text
label name ip = name ++ (b'@' ∷ ip)

-- `u.split("@", 1)[0]`
unfoldable pub label_name : Text → Text
unfolding cut
label_name u = elim (cut b'@' u) [ none ↦ u | some (name, ip) ↦ name ]

unfoldable pub label_names : List Text → List Text
unfolding label_name
label_names [] = []
label_names (u ∷ us) = label_name u ∷ label_names us

-- `raise_for_status()`, `resp.json()` and the test of `applied`.
unfoldable pub sync_reply : Option Response → Bool
sync_reply none = false
sync_reply (some r) =
    leb 200 r.status_code
    && (leb r.status_code 299 && elim r.body [ none ↦ false | some b ↦ b.applied ])

-- What `fetch` makes of a reply.
unfoldable pub reported_host : Option Response → Option Text
reported_host none = none
reported_host (some r) =
    if r.status_code == 200 then elim r.body [ none ↦ none | some b ↦ b.pulsar_host ] else none

module _ (host : Host) (config : DaemonConfig) where
  open host.etcd use {State}

  -- `_preflight_peers_reachable`
  unfoldable pub preflight_peers_reachable : Dict Info → State → List Text × State
  unfolding daemon_url label
  preflight_peers_reachable [] s = ([], s)
  preflight_peers_reachable ((name, info) ∷ peers) s = elim (has_ip info) [
    | false ↦ preflight_peers_reachable peers s
    | true ↦
        let (reply, t) =
          host.http_get (daemon_url config (ip_of info) (str "/health")) config.cluster_token s in
        let (rest, u) = preflight_peers_reachable peers t in
        (if is_200 reply then rest else label name (ip_of info) ∷ rest, u)
  ]

  -- `_rpc_sync_pulsar_host`, whose exceptions the caller turns into one class.
  unfoldable pub rpc_sync_pulsar_host : Text → Text → Exec State (Unit {0})
  unfolding daemon_url sync_reply
  rpc_sync_pulsar_host ip new_pulsar_host = do
    reply ← call (
        host.http_post (daemon_url config ip (str "/admin/sync-pulsar-host")) config.cluster_token
          ((str "pulsar_host", new_pulsar_host) ∷ []))
    if sync_reply reply then pure tt else raise runtime_error

  -- The loop over `sequenced`.
  unfoldable pub sync_all : Text → List (Text × Text) → Exec State (Unit {0})
  unfolding rpc_sync_pulsar_host
  sync_all to_node [] = pure tt
  sync_all to_node ((name, ip) ∷ pairs) = do rpc_sync_pulsar_host ip to_node; sync_all to_node pairs

  -- The results of `_verify_pulsar_host_everywhere`: what each peer with an address reports.
  unfoldable pub fetch_pulsar_hosts : Dict Info → State → List (Text × Option Text) × State
  unfolding daemon_url reported_host
  fetch_pulsar_hosts [] s = ([], s)
  fetch_pulsar_hosts ((name, info) ∷ peers) s = elim (has_ip info) [
    | false ↦ fetch_pulsar_hosts peers s
    | true ↦
        let (reply, t) =
          host.http_get (daemon_url config (ip_of info) (str "/admin/get-pulsar-host"))
            config.cluster_token s in
        let (rest, u) = fetch_pulsar_hosts peers t in ((name, reported_host reply) ∷ rest, u)
  ]

-- `got != expected_host`
abbrev pub differs : Text → Option Text → Bool
differs expected none = true
differs expected (some got) = not (same got expected)

-- The mismatches among the results, by their names.
unfoldable pub mismatches : Text → List (Text × Option Text) → List Text
unfolding same
mismatches expected [] = []
mismatches expected ((name, got) ∷ results) =
    let rest = mismatches expected results in if differs expected got then name ∷ rest else rest
