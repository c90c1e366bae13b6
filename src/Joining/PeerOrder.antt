-- ===== src/Joining/PeerOrder.antt =====
-- daemon/joining.py: what the peer list after a join holds, and in which order.
use milvus_onprem.Base.{
  Text, ◌≡◌, refl, ap, sym, ◌∙◌, inl, inr, true, Option, none, some, List, [], ◌∷◌, Dict, IsDict,
  lookup, insert, lookup-insert, insert-IsDict, lookup-Elem, Elem-lookup, Elem, length, arith, same,
  same_iff, same_refl, member, if◌then◌else◌, IsOrder, IsOrdered, sort_by-IsOrdered, Elem-sort_by,
  Elem-of_sort_by, ◌↔◌, Bool-cases,
}
use milvus_onprem.Topology.{Info, ip_of, has_ip}
use milvus_onprem.Joining.Allocation.{name_leb-IsOrder}
use milvus_onprem.Joining.Peers.{
  pair_leb, combine_into, ordered_peer_names_and_ips_after_join, names_of, ips_of,
}

-- The address that an entry gives, or else what was there.
abbrev pub address_or : Option Info → Option Text → Option Text
address_or none o = o
address_or (some info) o = if has_ip info then some (ip_of info) else o

lookup-combine_into :
    (n : Text) (out : Dict Text) (d : Dict Info)
    → IsDict d
    → lookup n (combine_into out d) ≡ address_or (lookup n d) (lookup n out)
unfolding combine_into lookup
lookup-combine_into n out [] h = refl
lookup-combine_into n out ((m, info) ∷ d) h = elim (Bool-cases (has_ip info)) [
  | inl e ↦ rw e (
      ground (
        arith,
        lookup-combine_into n (insert m (ip_of info) out) d h.1,
        lookup-insert m n (ip_of info) out,
        same_iff m n,
      ))
  | inr e ↦ rw e (ground (arith, lookup-combine_into n out d h.1, same_iff m n))
]

combine_into-IsDict : (out : Dict Text) (d : Dict Info) → IsDict out → IsDict (combine_into out d)
unfolding combine_into
combine_into-IsDict out [] h = h
combine_into-IsDict out ((m, info) ∷ d) h = elim (Bool-cases (has_ip info)) [
  | inl e ↦
      rw e (combine_into-IsDict (insert m (ip_of info) out) d (insert-IsDict m (ip_of info) out h))
  | inr e ↦ rw e (combine_into-IsDict out d h)
]

pair_leb-IsOrder : IsOrder pair_leb
pair_leb-IsOrder = record {
  total = λ a b. name_leb-IsOrder.total a.0 b.0;
  transitive = λ a b c. name_leb-IsOrder.transitive a.0 b.0 c.0;
}

lookup-combined :
    (topology : Dict Info) (new_name ip n : Text)
    → IsDict topology
    → lookup n (insert new_name ip (combine_into [] topology))
      ≡ (if same new_name n then some ip else address_or (lookup n topology) none)
lookup-combined topology new_name ip n h =
    lookup-insert new_name n ip (combine_into [] topology)
    ∙ ap (λ o. if same new_name n then some ip else o)
        (lookup-combine_into n [] topology h ∙ at_nil)
  where
    at_nil : address_or (lookup n topology) (lookup n []) ≡ address_or (lookup n topology) none
    at_nil = ap (address_or (lookup n topology)) (unfold lookup in refl)

-- The peer list after a join is in the order of the names, and a name stands in it with an address
-- exactly if it is the joiner's new name with the joiner's address, or another name whose topology
-- entry has that address and the address is not empty.
pub peer_order_correct :
    (topology : Dict Info) (new_name ip : Text)
    → IsDict topology
    → let pairs = ordered_peer_names_and_ips_after_join topology new_name ip in
      IsOrdered pair_leb pairs
      × ((n x : Text)
          → Elem (n, x) pairs
            ↔ ((if same new_name n then some ip else address_or (lookup n topology) none) ≡ some x))
unfolding ordered_peer_names_and_ips_after_join
peer_order_correct topology new_name ip h =
    let all : Dict Text = insert new_name ip (combine_into [] topology) in
    let good : IsDict all =
      insert-IsDict new_name ip (combine_into [] topology) (combine_into-IsDict [] topology tt) in
    (
      sort_by-IsOrdered pair_leb pair_leb-IsOrder all,
      λ n x. (
        (λ m.
            sym (lookup-combined topology new_name ip n h)
            ∙ Elem-lookup n x all good (Elem-of_sort_by pair_leb (n, x) all m)),
        (λ e.
            Elem-sort_by pair_leb (n, x) all
              (lookup-Elem n x all (lookup-combined topology new_name ip n h ∙ e))),
      ),
    )

pub length-names_of : (pairs : List (Text × Text)) → length (names_of pairs) ≡ length (ips_of pairs)
length-names_of [] = refl
length-names_of (p ∷ pairs) = ground (arith, length-names_of pairs)

pub member_of_Elem :
    (n ip : Text) (pairs : List (Text × Text))
    → Elem (n, ip) pairs
    → (member n (names_of pairs) ≡ true) × (member ip (ips_of pairs) ≡ true)
unfolding member
member_of_Elem n ip [] h = absurd h
member_of_Elem n ip ((m, x) ∷ pairs) (inl e) =
    ground (arith, same_iff m n, same_iff x ip, ap (λ p. p.0) e, ap (λ p. p.1) e)
member_of_Elem n ip ((m, x) ∷ pairs) (inr h) = ground (arith, member_of_Elem n ip pairs h)

-- The joiner itself stands in the list.
pub joiner-Elem :
    (topology : Dict Info) (new_name ip : Text)
    → IsDict topology
    → Elem (new_name, ip) (ordered_peer_names_and_ips_after_join topology new_name ip)
joiner-Elem topology new_name ip h =
    ((peer_order_correct topology new_name ip h).1 new_name ip).1 (rw (same_refl new_name))
