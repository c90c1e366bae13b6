-- ===== src/RemoveNode/Refusals.antt =====
-- daemon/workers/remove_node.py: which removals are refused.
use milvus_onprem.Base.{
  ◌≤◌, Text, str, Dict, true, false, Option-cases, some, length, ok, Result-cases, ◌≡◌, ap, sym,
  ◌∙◌, arith, inl, inr,
}
use milvus_onprem.Etcd.{Etcd, EtcdLaws}
use milvus_onprem.Topology.{topology_prefix, decode_entries, find_node_name_by_ip}
use milvus_onprem.RemoveNode.Guards.{RemoveContext, hosts_pulsar, names_target, check_removal}

module _ (etcd : Etcd) (laws : EtcdLaws etcd) (ctx : RemoveContext) where
  open etcd use {State, find}

  abbrev after_scan : State → State
  after_scan s = (etcd.get_prefix topology_prefix s).1

  -- However the checks end, no key of etcd has changed.
  pub check_removal-keeps :
      (ip j : Text) (s : State) → find (check_removal etcd ctx ip s).1 j ≡ find s j
  unfolding check_removal
  check_removal-keeps ip j s = ground (
    arith,
    laws.get_prefix_keeps topology_prefix j s,
    laws.get_keeps (str "/cluster/leader") j (after_scan s),
  )

  -- What the checks are for.
  abbrev pub Passes : Text → Text → State → Type 0
  Passes ip name s =
      (ctx.is_leader ≡ true)
      × ((hosts_pulsar etcd ctx name ≡ false)
          × ((names_target ctx.loads_leader ip name (find s (str "/cluster/leader")) ≡ false)
              × ((d : Dict Text) × (((etcd.get_prefix topology_prefix s).0 ≡ ok d)
                    × ((2 ≤ length (decode_entries ctx.loads d))
                        × (find_node_name_by_ip (decode_entries ctx.loads d) ip ≡ some name))))))

  -- Where the checks let a removal pass, this daemon is the leader; the peer does not host the Pulsar of a
  -- deploy that has one; the leader's entry does not name it; and the topology that was read has two
  -- peers at least, of which it is the first at the address.
  pub check_removal-Passes :
      (ip name : Text) (s : State) → (check_removal etcd ctx ip s).0 ≡ ok name → Passes ip name s
  unfolding check_removal
  check_removal-Passes ip name s h = elim (Result-cases (etcd.get_prefix topology_prefix s).0) [
    | inr (x, e) ↦ absurd (ground (arith, h, e))
    | inl (d, e) ↦ elim (Option-cases (find_node_name_by_ip (decode_entries ctx.loads d) ip)) [
      | inl n ↦ absurd (ground (arith, h, e, n))
      | inr (m, f) ↦ elim (Result-cases (etcd.get (str "/cluster/leader") (after_scan s)).0) [
        | inr (x, g) ↦ absurd (ground (arith, h, e, f, g))
        | inl (raw, g) ↦
            let leader : find s (str "/cluster/leader") ≡ raw =
              sym (laws.get_prefix_keeps topology_prefix (str "/cluster/leader") s)
              ∙ laws.get_ok (str "/cluster/leader") (after_scan s) g in
            let same_name : m ≡ name = ground (arith, h, e, f, g) in
            (
              ground (arith, h, e, f, g),
              (
                ground (arith, h, e, f, g, same_name),
                (
                  ground (arith, h, e, f, g, same_name, leader),
                  (d, (e, (ground (arith, h, e, f, g), f ∙ ap some same_name))),
                ),
              ),
            )
      ]
    ]
  ]
