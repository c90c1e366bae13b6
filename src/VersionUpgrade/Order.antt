-- ===== src/VersionUpgrade/Order.antt =====
-- daemon/workers/version_upgrade.py: the order of a rolling upgrade.
use milvus_onprem.Base.{
  subst, ℕ, Text, Dict, true, false, some, List, [], ◌∷◌, ◌≡◌, ap, ◌↔◌, inl, inr, arith, leb,
  same_iff, same_refl, All, Elem, IsOrder, IsOrdered, sort_by-IsOrdered, Elem-sort_by,
  Elem-of_sort_by, lookup,
}
use milvus_onprem.Topology.{Info}
use milvus_onprem.Handlers.Peers.{current_peer_ips_and_names}
use milvus_onprem.Handlers.PeerLists.{address_of, current_peers_correct}
use milvus_onprem.VersionUpgrade.Rollout.{rank, rank_leb, upgrade_order}

rank-IsOrder : (leader_name : Text) → IsOrder (rank_leb leader_name)
rank-IsOrder leader_name = record {
  total = λ a b h. total (rank leader_name a) (rank leader_name b) h;
  transitive =
      λ a b c h k. transitive (rank leader_name a) (rank leader_name b) (rank leader_name c) h k;
}
  where
    total : (m n : ℕ) → leb m n ≡ false → leb n m ≡ true
    total m n h = ground (arith, h)

    transitive : (l m n : ℕ) → leb l m ≡ true → leb m n ≡ true → leb l n ≡ true
    transitive l m n h k = ground (arith, h, k)

above : {A : Type 0} (P : A → Type 0) (x : A) (xs : List A) → All P xs → Elem x xs → P x
above P x [] h m = absurd m
above P x (y ∷ ys) h (inl e) = subst P e h.0
above P x (y ∷ ys) h (inr m) = above P x ys h.1 m

ranked_first :
    (leader_name : Text) (p : Text × Text) (ip : Text)
    → rank_leb leader_name p (leader_name, ip) ≡ true
    → p.0 ≡ leader_name
ranked_first leader_name p ip h = ground (arith, h, same_refl leader_name, same_iff p.0 leader_name)

leads :
    (leader_name ip : Text) (order : List (Text × Text))
    → IsOrdered (rank_leb leader_name) order
    → Elem (leader_name, ip) order
    → (x : Text) × ((rest : List (Text × Text)) × (order ≡ (leader_name, x) ∷ rest))
leads leader_name ip [] h m = absurd m
leads leader_name ip (p ∷ rest) h (inl e) = (ip, (rest, ap (λ q. q ∷ rest) e))
leads leader_name ip ((n, x) ∷ rest) h (inr m) = (
  x,
  (
    rest,
    ap (λ k. (k, x) ∷ rest)
        (ranked_first leader_name (n, x) ip
          (above (λ q. rank_leb leader_name (n, x) q ≡ true) (leader_name, ip) rest h.0 m)),
  ),
)

-- Where the leader's entry in the mirror has an address, a rollout begins with the leader; and it goes to
-- exactly the peers whose entries in the mirror have an address, each at that address.
pub upgrade_order_correct :
    (leader_name ip : Text) (peers : Dict Info)
    → address_of (lookup leader_name peers) ≡ some ip
    → let order = upgrade_order leader_name peers in
      ((x : Text) × ((rest : List (Text × Text)) × (order ≡ (leader_name, x) ∷ rest)))
      × ((n x : Text) → Elem (n, x) order ↔ (address_of (lookup n peers) ≡ some x))
unfolding upgrade_order
upgrade_order_correct leader_name ip peers h = (
  leads leader_name ip (upgrade_order leader_name peers)
      (sort_by-IsOrdered (rank_leb leader_name) (rank-IsOrder leader_name) pairs)
      (into leader_name ip (((current_peers_correct peers).1 leader_name ip).1 h)),
  λ n x. (
    (λ m.
        ((current_peers_correct peers).1 n x).0
          (Elem-of_sort_by (rank_leb leader_name) (n, x) pairs m)),
    (λ e. into n x (((current_peers_correct peers).1 n x).1 e)),
  ),
)
  where
    pairs : List (Text × Text)
    pairs = current_peer_ips_and_names peers

    into : (n x : Text) → Elem (n, x) pairs → Elem (n, x) (upgrade_order leader_name peers)
    into n x m = Elem-sort_by (rank_leb leader_name) (n, x) pairs m
