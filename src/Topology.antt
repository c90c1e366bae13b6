-- ===== src/Topology.antt =====
-- daemon/topology.py: the entries under the topology prefix, and their decoding.
pub mod Decoding
pub mod Watcher
pub mod Following
use milvus_onprem.Base.{
  ℕ, Text, str, Dict, lookup, insert, remove_prefix, Bool, true, false, Option, none, some, [], ◌∷◌,
  ◌++◌, same, if◌then◌else◌,
}

abbrev pub topology_prefix : Text
topology_prefix = str "/cluster/topology/peers/"

-- `TOPOLOGY_PREFIX + name`
unfoldable pub topology_key : Text → Text
topology_key name = topology_prefix ++ name

-- The decoded value of a peer's key: a JSON object with these fields, where it has them.
pub record Info : Type 0 where
  pub ip : Option Text
  pub hostname : Option Text
  pub joined_at : Option ℕ
  pub role : Option Text

-- `info.get("ip", "")`
abbrev pub ip_of : Info → Text
ip_of info = elim info.ip [ none ↦ [] | some t ↦ t ]

-- The truth of `info.get("ip")`.
abbrev pub has_ip : Info → Bool
has_ip info = elim (ip_of info) [ [] ↦ false | _ ↦ true ]

-- `info.get("ip") == ip`
abbrev pub ip_is : Text → Info → Bool
ip_is ip info = elim info.ip [ none ↦ false | some t ↦ same t ip ]

-- The first name with the address: the search loop of `_do_join`, and `_find_node_name_by_ip` of
-- daemon/workers/remove_node.py.
unfoldable pub find_node_name_by_ip : Dict Info → Text → Option Text
find_node_name_by_ip [] ip = none
find_node_name_by_ip ((name, info) ∷ peers) ip =
    if ip_is ip info then some name else find_node_name_by_ip peers ip

-- `json` is a library: `loads` is `none` where `json.loads` raises `JSONDecodeError`.
module _ (loads : Text → Option Info) where
  decode_into : Dict Info → Dict Text → Dict Info
  decode_into out [] = out
  decode_into out ((key, val) ∷ raw) =
      decode_into
        (elim (loads val) [
          | none ↦ out
          | some info ↦ insert (remove_prefix topology_prefix key) info out
        ])
        raw

  -- The loop of `authoritative_peers`, of `_seed` and of `_do_join` over what `get_prefix` returned. The
  -- entries are JSON objects, as all that the daemons write are: of a value that is JSON but no object,
  -- the source's readers raise AttributeError later on, and here it is taken for no JSON.
  unfoldable pub decode_entries : Dict Text → Dict Info
  unfolding decode_into
  decode_entries raw = decode_into [] raw
