-- ===== src/Joining/Peers.antt =====
-- daemon/joining.py: the ordered peer list after a join.
use milvus_onprem.Base.{Text, Dict, insert, Bool, List, [], ◌∷◌, if◌then◌else◌, sort_by}
use milvus_onprem.Topology.{Info, ip_of, has_ip}
use milvus_onprem.Joining.Names.{name_leb}

abbrev pub pair_leb : Text × Text → Text × Text → Bool
pair_leb a b = name_leb a.0 b.0

-- `for name, info in existing_topology.items(): if ip: combined[name] = ip`
unfoldable pub combine_into : Dict Text → Dict Info → Dict Text
combine_into combined [] = combined
combine_into combined ((name, info) ∷ rest) =
    combine_into (if has_ip info then insert name (ip_of info) combined else combined) rest

-- `_ordered_peer_names_and_ips_after_join`: the items of `combined` in the order of their names.
unfoldable pub ordered_peer_names_and_ips_after_join : Dict Info → Text → Text → List (Text × Text)
ordered_peer_names_and_ips_after_join existing_topology new_name joiner_ip =
    sort_by pair_leb (insert new_name joiner_ip (combine_into [] existing_topology))

abbrev pub names_of : List (Text × Text) → List Text
names_of [] = []
names_of ((name, _) ∷ pairs) = name ∷ names_of pairs

abbrev pub ips_of : List (Text × Text) → List Text
ips_of [] = []
ips_of ((_, ip) ∷ pairs) = ip ∷ ips_of pairs

-- `_ordered_peer_ips_after_join`
unfoldable pub ordered_peer_ips_after_join : Dict Info → Text → Text → List Text
unfolding ordered_peer_names_and_ips_after_join
ordered_peer_ips_after_join existing_topology new_name joiner_ip =
    ips_of (ordered_peer_names_and_ips_after_join existing_topology new_name joiner_ip)
