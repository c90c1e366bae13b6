-- ===== src/Topology/Following.antt =====
-- daemon/topology.py: the mirror follows etcd.
use milvus_onprem.Base.{
  Text, Dict, IsDict, lookup, insert, erase, lookup-insert, lookup-erase, starts_with, Bool, true,
  Bool-cases, if◌then◌else◌, starts_with-append, remove_prefix, same, same_iff, false, Option, none,
  some, List, [], ◌∷◌, All, ◌≡◌, refl, ap, arith, inl, inr, ◌⊎◌, ◌++◌,
}
use milvus_onprem.Topology.{topology_prefix, topology_key, Info}
use milvus_onprem.Topology.Decoding.{AllUnder, decoded, same_key, lookup-decode_entries}
use milvus_onprem.Topology.Watcher.{
  EventType, put, delete, WatchEvent, Mirror, seed, apply_put, apply_event, apply_events,
}

-- What etcd holds after the writes that a watch reports, oldest first.
abbrev pub stored_value : Option Text → Text
stored_value none = []
stored_value (some v) = v

abbrev pub write_event : WatchEvent → Dict Text → Dict Text
write_event ev d = elim ev.type [
  | put ↦ insert ev.key (stored_value ev.value) d
  | delete ↦ erase ev.key d
]

abbrev pub write_events : List WatchEvent → Dict Text → Dict Text
write_events [] d = d
write_events (ev ∷ evs) d = write_events evs (write_event ev d)

type-cases : (t : EventType) → (t ≡ put) ⊎ (t ≡ delete)
type-cases put = inl refl
type-cases delete = inr refl

-- A key outside the prefix is no peer's key.
outside : (k n : Text) → starts_with topology_prefix k ≡ false → same k (topology_key n) ≡ false
unfolding topology_key
outside k n h = ground (
  arith,
  h,
  same_iff k (topology_prefix ++ n),
  starts_with-append topology_prefix n,
  ap (starts_with topology_prefix) {x = k} {y = topology_prefix ++ n},
)

module _ (loads : Text → Option Info) where
  -- A DELETE, or a PUT of a value that decodes.
  abbrev pub IsReadable : WatchEvent → Type 0
  IsReadable ev = elim ev.type [
    | delete ↦ Unit
    | put ↦ (v : Text) × (i : Info) × ((ev.value ≡ some v) × (loads v ≡ some i))
  ]

  put-Follows :
      (ev : WatchEvent) (s : Mirror) (d : Dict Text) (v : Text) (i : Info) (n : Text)
      → ev.type ≡ put
      → ev.value ≡ some v
      → loads v ≡ some i
      → (same ev.key (topology_key n) ≡ true)
        ⊎ (lookup n s.peers ≡ decoded loads (lookup (topology_key n) d) none)
      → lookup n (apply_event loads ev s).peers
        ≡ decoded loads (lookup (topology_key n) (write_event ev d)) none
  unfolding apply_event apply_put
  put-Follows ev s d v i n p valued decodes f = ground (
    arith,
    p,
    valued,
    decodes,
    f,
    outside ev.key n,
    same_key ev.key n,
    lookup-insert (remove_prefix topology_prefix ev.key) n i s.peers,
    lookup-insert ev.key (topology_key n) v d,
  )

  delete-Follows :
      (ev : WatchEvent) (s : Mirror) (d : Dict Text) (n : Text)
      → ev.type ≡ delete
      → (same ev.key (topology_key n) ≡ true)
        ⊎ (lookup n s.peers ≡ decoded loads (lookup (topology_key n) d) none)
      → lookup n (apply_event loads ev s).peers
        ≡ decoded loads (lookup (topology_key n) (write_event ev d)) none
  unfolding apply_event
  delete-Follows ev s d n p f = ground (
    arith,
    p,
    f,
    outside ev.key n,
    same_key ev.key n,
    lookup-erase (remove_prefix topology_prefix ev.key) n s.peers,
    lookup-erase ev.key (topology_key n) d,
  )

  -- A write to etcd under the prefix, and whether the watch delivers it: what is written between the seed
  -- and the start of the watch, or while the stream is broken, is not delivered.
  abbrev pub Write : Type 0
  Write = Bool × WatchEvent

  abbrev pub all_writes : List Write → List WatchEvent
  all_writes [] = []
  all_writes ((b, ev) ∷ ws) = ev ∷ all_writes ws

  abbrev pub delivered : List Write → List WatchEvent
  delivered [] = []
  delivered ((b, ev) ∷ ws) = if b then ev ∷ delivered ws else delivered ws

  -- Whether the last write to the key of a name, if there is one, has been delivered; `so_far` is what
  -- holds before these writes.
  abbrev pub last_delivered : Text → Bool → List Write → Bool
  last_delivered n so_far [] = so_far
  last_delivered n so_far ((b, ev) ∷ ws) =
      last_delivered n (if same ev.key (topology_key n) then b else so_far) ws

  abbrev Fresh : Text → Mirror → Dict Text → Type 0
  Fresh n s d = lookup n s.peers ≡ decoded loads (lookup (topology_key n) d) none

  -- A write of another key leaves what etcd has for a name.
  write_event-other :
      (ev : WatchEvent) (n : Text) (d : Dict Text)
      → same ev.key (topology_key n) ≡ false
      → lookup (topology_key n) (write_event ev d) ≡ lookup (topology_key n) d
  write_event-other ev n d ne = elim (type-cases ev.type) [
    | inl p ↦
        rw p (ground (arith, ne, lookup-insert ev.key (topology_key n) (stored_value ev.value) d))
    | inr p ↦ rw p (ground (arith, ne, lookup-erase ev.key (topology_key n) d))
  ]

  -- A write that is delivered, of this key or of another.
  read-Fresh :
      (n : Text) (so_far : Bool) (ev : WatchEvent) (s : Mirror) (d : Dict Text)
      → IsReadable ev
      → (so_far ≡ true → Fresh n s d)
      → (if same ev.key (topology_key n) then true else so_far) ≡ true
      → Fresh n (apply_event loads ev s) (write_event ev d)
  read-Fresh n so_far ev s d r f h = elim (type-cases ev.type) [
    | inl p ↦
        let readable : (v : Text) × (i : Info) × ((ev.value ≡ some v) × (loads v ≡ some i)) =
          rw p at r in
        let (v, i, (valued, decodes)) = readable in put-Follows ev s d v i n p valued decodes before
    | inr p ↦ delete-Follows ev s d n p before
  ]
    where
      before : (same ev.key (topology_key n) ≡ true) ⊎ Fresh n s d
      before = elim (Bool-cases (same ev.key (topology_key n))) [
        | inl e ↦ inl e
        | inr e ↦ inr (f (rw e at h))
      ]

  -- A write that is missed, of another key.
  missed-Fresh :
      (n : Text) (so_far : Bool) (ev : WatchEvent) (s : Mirror) (d : Dict Text)
      → (so_far ≡ true → Fresh n s d)
      → (if same ev.key (topology_key n) then false else so_far) ≡ true
      → Fresh n s (write_event ev d)
  missed-Fresh n so_far ev s d f h = elim (Bool-cases (same ev.key (topology_key n))) [
    | inl e ↦ absurd (ground (arith, e, h))
    | inr e ↦ rw (write_event-other ev n d e) (f (rw e at h))
  ]

  writes-Fresh :
      (n : Text) (so_far : Bool) (ws : List Write) (s : Mirror) (d : Dict Text)
      → All IsReadable (delivered ws)
      → (so_far ≡ true → Fresh n s d)
      → last_delivered n so_far ws ≡ true
      → Fresh n (apply_events loads (delivered ws) s) (write_events (all_writes ws) d)
  unfolding apply_events
  writes-Fresh n so_far [] s d r f h = f h
  writes-Fresh n so_far ((true, ev) ∷ ws) s d r f h =
      writes-Fresh n (if same ev.key (topology_key n) then true else so_far) ws
        (apply_event loads ev s) (write_event ev d) r.1 (read-Fresh n so_far ev s d r.0 f) h
  writes-Fresh n so_far ((false, ev) ∷ ws) s d r f h =
      writes-Fresh n (if same ev.key (topology_key n) then false else so_far) ws s
        (write_event ev d) r (missed-Fresh n so_far ev s d f) h

  -- Of all that is written to etcd after the mirror was seeded, the watch may miss any writes. For each
  -- name of which the last write was delivered, or that was not written, the mirror holds exactly what a
  -- fresh read of its key decodes to, whatever was missed before or of other names, provided that each
  -- value that is delivered decodes.
  pub mirror-follows :
      (existing : Dict Text) (ws : List Write) (n : Text)
      → IsDict existing
      → AllUnder topology_prefix existing
      → All IsReadable (delivered ws)
      → last_delivered n true ws ≡ true
      → lookup n (apply_events loads (delivered ws) (seed loads existing)).peers
        ≡ decoded loads (lookup (topology_key n) (write_events (all_writes ws) existing)) none
  mirror-follows existing ws n good under r last =
      writes-Fresh n true ws (seed loads existing) existing r (λ e. start) last
    where
      start : Fresh n (seed loads existing) existing
      start = unfold seed in lookup-decode_entries loads n existing good under
