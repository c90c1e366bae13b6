-- ===== src/Topology/Decoding.antt =====
-- daemon/topology.py: the decoded entries, by name.
use milvus_onprem.Base.{
  Text, Dict, IsDict, lookup, insert, lookup-insert, has_key, remove_prefix, starts_with,
  starts_with-eq, same, same_iff, same_refl, same-append, true, Option, none, some, [], ◌∷◌, ◌++◌,
  ◌≡◌, refl, ap, ◌∙◌, arith, Bool-cases, Option-cases, inl, inr,
}
use milvus_onprem.Topology.{
  topology_prefix, topology_key, Info, ip_is, find_node_name_by_ip, decode_into, decode_entries,
}

abbrev pub AllUnder : {V : Type 0} → Text → Dict V → Type 0
AllUnder p [] = Unit
AllUnder p ((k, v) ∷ d) = (starts_with p k ≡ true) × AllUnder p d

-- A scan of a prefix holds keys under the prefix alone.
pub AllUnder-of_lookup :
    (p : Text) (d : Dict Text)
    → ((k : Text) → has_key k d ≡ true → starts_with p k ≡ true)
    → AllUnder p d
AllUnder-of_lookup p [] h = tt
AllUnder-of_lookup p ((k, v) ∷ d) h = (
  h k (unfold lookup in ground (arith, same_refl k)),
  AllUnder-of_lookup p d (λ j e. h j (unfold lookup in ground (arith, e))),
)

pub same_key :
    (k n : Text)
    → starts_with topology_prefix k ≡ true
    → same k (topology_key n) ≡ same (remove_prefix topology_prefix k) n
unfolding topology_key
same_key k n h =
    ap (λ t. same t (topology_prefix ++ n)) (starts_with-eq topology_prefix k h)
    ∙ same-append topology_prefix (remove_prefix topology_prefix k) n

module _ (loads : Text → Option Info) where
  -- A value that decodes, or else what was there.
  abbrev pub decoded : Option Text → Option Info → Option Info
  decoded none o = o
  decoded (some v) o = elim (loads v) [ none ↦ o | some info ↦ some info ]

  lookup-decode_into :
      (n : Text) (out : Dict Info) (raw : Dict Text)
      → IsDict raw
      → AllUnder topology_prefix raw
      → lookup n (decode_into loads out raw) ≡ decoded (lookup (topology_key n) raw) (lookup n out)
  unfolding decode_into lookup
  lookup-decode_into n out [] h u = refl
  lookup-decode_into n out ((k, v) ∷ raw) h u =
      let m = remove_prefix topology_prefix k in
      let hit : same k (topology_key n) ≡ same m n = same_key k n u.0 in
      elim (Option-cases (loads v)) [
        | inl bad ↦
            rw bad (
              ground
                (arith, bad, lookup-decode_into n out raw h.1 u.1, same_iff k (topology_key n)))
        | inr (info, good) ↦ rw good (
            ground (
              arith,
              good,
              lookup-decode_into n (insert m info out) raw h.1 u.1,
              lookup-insert m n info out,
              same_iff k (topology_key n),
            ))
      ]

  -- Under a name stands what the name's key decodes to.
  pub lookup-decode_entries :
      (n : Text) (raw : Dict Text)
      → IsDict raw
      → AllUnder topology_prefix raw
      → lookup n (decode_entries loads raw) ≡ decoded (lookup (topology_key n) raw) none
  unfolding decode_entries
  lookup-decode_entries n raw h u =
      lookup-decode_into n [] raw h u
      ∙ ap (decoded (lookup (topology_key n) raw)) (unfold lookup in refl)

-- An address that stands in the entries is found.
pub find_node_name_by_ip-some :
    (n ip : Text) {info : Info} (peers : Dict Info)
    → lookup n peers ≡ some info
    → ip_is ip info ≡ true
    → (m : Text) × (find_node_name_by_ip peers ip ≡ some m)
unfolding lookup find_node_name_by_ip
find_node_name_by_ip-some n ip [] h e = absurd (ground arith)
find_node_name_by_ip-some n ip {info} ((j, w) ∷ peers) h e = elim (Bool-cases (ip_is ip w)) [
  | inl found ↦ (j, rw found)
  | inr other ↦
      let (m, f) = find_node_name_by_ip-some n ip {info = info} peers (ground arith) e in
      (m, rw other f)
]

-- The name that is found has the address.
pub find_node_name_by_ip-lookup :
    (ip m : Text) (peers : Dict Info)
    → IsDict peers
    → find_node_name_by_ip peers ip ≡ some m
    → (info : Info) × (lookup m peers ≡ some info) × (ip_is ip info ≡ true)
unfolding lookup find_node_name_by_ip
find_node_name_by_ip-lookup ip m [] h e = absurd (ground arith)
find_node_name_by_ip-lookup ip m ((j, w) ∷ peers) h e = elim (Bool-cases (ip_is ip w)) [
  | inl found ↦ (w, ground (arith, same_iff j m), found)
  | inr other ↦
      let (info, l, f) = find_node_name_by_ip-lookup ip m peers h.1 (ground arith) in
      (info, ground (arith, same_iff j m), f)
]
