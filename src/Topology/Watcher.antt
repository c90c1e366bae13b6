-- ===== src/Topology/Watcher.antt =====
-- daemon/topology.py: `TopologyWatcher`, its mirror of etcd's topology and the notices to its handlers.
use milvus_onprem.Base.{
  Text, Dict, lookup, insert, erase, starts_with, remove_prefix, not, Option, none, some, List, [],
  ◌∷◌, if◌then◌else◌,
}
use milvus_onprem.Topology.{topology_prefix, Info, ip_of, has_ip, decode_entries}

-- The `type` of an event of a watch.
pub data EventType : Type 0 where
  put delete : EventType

pub record WatchEvent : Type 0 where
  pub type : EventType
  pub key : Text
  pub value : Option Text

pub data Kind : Type 0 where
  added updated removed : Kind

-- The arguments of one call of a handler.
pub record Notice : Type 0 where
  pub kind : Kind
  pub old : Option Info
  pub new : Option Info

-- `{}`
abbrev pub no_info : Info
no_info = record { ip = none; hostname = none; joined_at = none; role = none }

-- The mirror, and the notices that every handler was called with, the latest first.
pub record Mirror : Type 0 where
  pub peers : Dict Info
  pub notices : List Notice

-- `_notify`: a handler that raises keeps no other from being called.
abbrev pub notify : Notice → Mirror → Mirror
notify n s = record s { notices = n ∷ s.notices }

-- `peer_ips`
unfoldable pub peer_ips : Dict Info → List Text
peer_ips [] = []
peer_ips ((name, info) ∷ peers) =
    let rest = peer_ips peers in if has_ip info then ip_of info ∷ rest else rest

module _ (loads : Text → Option Info) where
  -- `_seed`, on an empty mirror.
  unfoldable pub seed : Dict Text → Mirror
  unfolding decode_entries
  seed existing = record { peers = decode_entries loads existing; notices = [] }

  -- `json.loads(ev["value"]) if ev["value"] is not None else {}`
  abbrev pub new_value : Option Text → Option Info
  new_value none = some no_info
  new_value (some v) = loads v

  -- A PUT.
  unfoldable pub apply_put : Text → Option Text → Mirror → Mirror
  apply_put name value s = elim (new_value value) [
    | none ↦ s
    | some new ↦
        let old = lookup name s.peers in
        notify
          (record {
            kind = elim old [ none ↦ added | some _ ↦ updated ];
            old = old;
            new = some new;
          })
          (record s { peers = insert name new s.peers })
  ]

  -- `_apply_event`
  unfoldable pub apply_event : WatchEvent → Mirror → Mirror
  unfolding apply_put remove_prefix starts_with
  apply_event ev s =
      let name = remove_prefix topology_prefix ev.key in
      if not (starts_with topology_prefix ev.key) then s else elim ev.type [
        | delete ↦
            notify (record { kind = removed; old = lookup name s.peers; new = none })
              (record s { peers = erase name s.peers })
        | put ↦ apply_put name ev.value s
      ]

  -- The loop of `run` over the events that the watch delivers until it is stopped. The watch starts after
  -- the seed, and again after each lost connection, from the present: the events in between are not
  -- among them.
  unfoldable pub apply_events : List WatchEvent → Mirror → Mirror
  unfolding apply_event
  apply_events [] s = s
  apply_events (ev ∷ evs) s = apply_events evs (apply_event ev s)
