-- ===== src/Handlers/Peers.antt =====
-- daemon/handlers.py: the peers that the handlers write to cluster.env and ask to recreate their MinIO.
-- daemon/workers/version_upgrade.py and rotate_token.py list the peers the same way.
use milvus_onprem.Base.{
  Text, Dict, keys, lookup, none, some, List, [], ◌∷◌, ◌||◌, not, if◌then◌else◌, same, sort_by,
}
use milvus_onprem.Topology.{Info, ip_of, has_ip}
use milvus_onprem.Joining.Names.{name_leb}
use milvus_onprem.Joining.Peers.{ips_of}

-- `[(name, peers[name].get("ip", "")) for name in names if peers[name].get("ip")]`
unfoldable pub with_addresses : Dict Info → List Text → List (Text × Text)
unfolding lookup
with_addresses peers [] = []
with_addresses peers (name ∷ names) =
    let rest = with_addresses peers names in
    elim (lookup name peers) [
      | none ↦ rest
      | some info ↦ if has_ip info then (name, ip_of info) ∷ rest else rest
    ]

-- `_current_peer_ips_and_names`
unfoldable pub current_peer_ips_and_names : Dict Info → List (Text × Text)
unfolding with_addresses sort_by name_leb
current_peer_ips_and_names peers = with_addresses peers (sort_by name_leb (keys peers))

-- `_current_peer_ips`
unfoldable pub current_peer_ips : Dict Info → List Text
unfolding current_peer_ips_and_names
current_peer_ips peers = ips_of (current_peer_ips_and_names peers)

-- The loop that collects `followers`.
unfoldable pub followers_among : Dict Info → Text → List Text → List (Text × Text)
unfolding lookup same
followers_among peers local_ip [] = []
followers_among peers local_ip (name ∷ names) =
    let rest = followers_among peers local_ip names in
    elim (lookup name peers) [
      | none ↦ rest
      | some info ↦
          if not (has_ip info) || same (ip_of info) local_ip
          then rest
          else (name, ip_of info) ∷ rest
    ]

unfoldable pub followers : Dict Info → Text → List (Text × Text)
unfolding followers_among sort_by name_leb
followers peers local_ip = followers_among peers local_ip (sort_by name_leb (keys peers))
