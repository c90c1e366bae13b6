-- ===== src/Handlers/PeerLists.antt =====
-- daemon/handlers.py: which peers the handlers list, and in which order.
use milvus_onprem.Base.{
  Text, Dict, keys, lookup, Option, none, some, List, [], ◌∷◌, ◌≡◌, ap, refl, ◌∙◌, sym, ◌↔◌, inl,
  inr, arith, Bool-cases, Option-cases, true, ◌||◌, not, if◌then◌else◌, same, same_iff, All, Elem,
  IsOrdered, sort_by, sort_by-IsOrdered, Elem-sort_by,
}
use milvus_onprem.Topology.{Info, ip_of, has_ip}
use milvus_onprem.Joining.Names.{name_leb}
use milvus_onprem.Joining.Allocation.{name_leb-IsOrder}
use milvus_onprem.Joining.Peers.{pair_leb}
use milvus_onprem.Handlers.Peers.{
  with_addresses, current_peer_ips_and_names, followers_among, followers,
}

-- The address of a peer, where its entry has one.
abbrev pub address_of : Option Info → Option Text
address_of none = none
address_of (some info) = if has_ip info then some (ip_of info) else none

-- The address of a peer that is not at the address.
abbrev pub other_address : Text → Option Info → Option Text
other_address local_ip none = none
other_address local_ip (some info) =
    if not (has_ip info) || same (ip_of info) local_ip then none else some (ip_of info)

-- Both loops over the names, in one.
pick : (Text → Option Text) → List Text → List (Text × Text)
pick f [] = []
pick f (n ∷ names) =
    let rest = pick f names in elim (f n) [ none ↦ rest | some ip ↦ (n, ip) ∷ rest ]

module _ (f : Text → Option Text) where
  pick-skip : (m : Text) (names : List Text) → f m ≡ none → pick f (m ∷ names) ≡ pick f names
  unfolding pick
  pick-skip m names e = ground (arith, e)

  pick-take :
      (m ip : Text) (names : List Text)
      → f m ≡ some ip
      → pick f (m ∷ names) ≡ (m, ip) ∷ pick f names
  unfolding pick
  pick-take m ip names e = ground (arith, e)

  nothing : (n x : Text) → Elem (n, x) (pick f []) → ⊥
  unfolding pick
  nothing n x h = h

  of_pick :
      (n x : Text) (names : List Text) → Elem (n, x) (pick f names) → Elem n names × (f n ≡ some x)
  of_pick n x [] h = absurd (nothing n x h)
  of_pick n x (m ∷ names) h = elim (Option-cases (f m)) [
    | inl e ↦ let (a, b) = of_pick n x names (rw (pick-skip m names e) at h) in (inr a, b)
    | inr (ip, e) ↦ elim (rw (pick-take m ip names e) at h) [
      | inl q ↦ (inl (ap (λ p. p.0) q), ap f (sym (ap (λ p. p.0) q)) ∙ e ∙ ap (λ p. some p.1) q)
      | inr r ↦ let (a, b) = of_pick n x names r in (inr a, b)
    ]
  ]

  to_pick :
      (n x : Text) (names : List Text) → Elem n names → f n ≡ some x → Elem (n, x) (pick f names)
  to_pick n x [] h e = absurd h
  to_pick n x (m ∷ names) h e = elim (Option-cases (f m)) [
    | inl k ↦
        rw (pick-skip m names k)
          (elim h [ inl q ↦ absurd (clash q k) | inr r ↦ to_pick n x names r e ])
    | inr (ip, k) ↦
        rw (pick-take m ip names k)
          (elim h [ inl q ↦ inl (agree q ip k) | inr r ↦ inr (to_pick n x names r e) ])
  ]
    where
      clash : m ≡ n → f m ≡ none → ⊥
      clash q k = ground (arith, sym k ∙ ap f q ∙ e)

      agree : m ≡ n → (ip : Text) → f m ≡ some ip → ◌≡◌ {A = Text × Text} (m, ip) (n, x)
      agree q ip k = ground (arith, q, sym k ∙ ap f q ∙ e)

  pick-All :
      (m ip : Text) (names : List Text)
      → All (λ n. name_leb m n ≡ true) names
      → All (λ p. pair_leb (m, ip) p ≡ true) (pick f names)
  pick-All m ip [] h = unfold pick in tt
  pick-All m ip (n ∷ names) h = elim (Option-cases (f n)) [
    | inl e ↦ rw (pick-skip n names e) (pick-All m ip names h.1)
    | inr (x, e) ↦ rw (pick-take n x names e) (h.0, pick-All m ip names h.1)
  ]

  pick-IsOrdered :
      (names : List Text) → IsOrdered name_leb names → IsOrdered pair_leb (pick f names)
  pick-IsOrdered [] h = unfold pick in tt
  pick-IsOrdered (n ∷ names) h = elim (Option-cases (f n)) [
    | inl e ↦ rw (pick-skip n names e) (pick-IsOrdered names h.1)
    | inr (x, e) ↦ rw (pick-take n x names e) (pick-All n x names h.0, pick-IsOrdered names h.1)
  ]

  -- Over the sorted keys of a dict.
  pick-sorted :
      (peers : Dict Info)
      → ((n x : Text) → f n ≡ some x → Elem n (keys peers))
      → let pairs = pick f (sort_by name_leb (keys peers)) in
        IsOrdered pair_leb pairs × ((n x : Text) → Elem (n, x) pairs ↔ (f n ≡ some x))
  pick-sorted peers known = (
    pick-IsOrdered (sort_by name_leb (keys peers))
        (sort_by-IsOrdered name_leb name_leb-IsOrder (keys peers)),
    λ n x. (
      (λ m. (of_pick n x (sort_by name_leb (keys peers)) m).1),
      (λ e.
          to_pick n x (sort_by name_leb (keys peers))
            (Elem-sort_by name_leb n (keys peers) (known n x e)) e),
    ),
  )

key-Elem :
    (n : Text) (info : Info) (peers : Dict Info) → lookup n peers ≡ some info → Elem n (keys peers)
unfolding lookup
key-Elem n info [] h = absurd (ground (arith, h))
key-Elem n info ((m, i) ∷ peers) h = elim (Bool-cases (same m n)) [
  | inl e ↦ inl ((same_iff m n).0 e)
  | inr e ↦ inr (key-Elem n info peers (ground (arith, h, e)))
]

with_addresses-pick :
    (peers : Dict Info) (names : List Text)
    → with_addresses peers names ≡ pick (λ n. address_of (lookup n peers)) names
unfolding with_addresses pick
with_addresses-pick peers [] = refl
with_addresses-pick peers (n ∷ names) = ground (arith, with_addresses-pick peers names)

followers_among-pick :
    (peers : Dict Info) (ip : Text) (names : List Text)
    → followers_among peers ip names ≡ pick (λ n. other_address ip (lookup n peers)) names
unfolding followers_among pick
followers_among-pick peers ip [] = refl
followers_among-pick peers ip (n ∷ names) = ground (arith, followers_among-pick peers ip names)

-- The peers written to cluster.env are in the order of their names, and a name is among them with an
-- address exactly if its entry in the mirror has that address and it is not empty.
pub current_peers_correct :
    (peers : Dict Info)
    → let pairs = current_peer_ips_and_names peers in
      IsOrdered pair_leb pairs
      × ((n x : Text) → Elem (n, x) pairs ↔ (address_of (lookup n peers) ≡ some x))
unfolding current_peer_ips_and_names
current_peers_correct peers =
    rw (with_addresses-pick peers (sort_by name_leb (keys peers)))
      (pick-sorted (λ n. address_of (lookup n peers)) peers known)
  where
    known : (n x : Text) → address_of (lookup n peers) ≡ some x → Elem n (keys peers)
    known n x e = elim (Option-cases (lookup n peers)) [
      | inl k ↦ absurd (ground (arith, e, k))
      | inr (info, k) ↦ key-Elem n info peers k
    ]

-- The followers that a sweep asks are in the order of their names, and a name is among them with an
-- address exactly if its entry in the mirror has that address, which is not empty and not this
-- daemon's own.
pub followers_correct :
    (peers : Dict Info) (local_ip : Text)
    → let pairs = followers peers local_ip in
      IsOrdered pair_leb pairs
      × ((n x : Text) → Elem (n, x) pairs ↔ (other_address local_ip (lookup n peers) ≡ some x))
unfolding followers
followers_correct peers local_ip =
    rw (followers_among-pick peers local_ip (sort_by name_leb (keys peers)))
      (pick-sorted (λ n. other_address local_ip (lookup n peers)) peers known)
  where
    known : (n x : Text) → other_address local_ip (lookup n peers) ≡ some x → Elem n (keys peers)
    known n x e = elim (Option-cases (lookup n peers)) [
      | inl k ↦ absurd (ground (arith, e, k))
      | inr (info, k) ↦ key-Elem n info peers k
    ]
